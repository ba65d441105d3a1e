-- ===== src/Command/Writer.antt =====
-- pkg/upstream/command/command.go, limitWriter: at most so many bytes of an output are kept.
use go_auto_mcp.Prelude.{
  ℕ, true, false, suc, zero, ◌-◌, ◌≤◌, ◌≡◌, refl, ap, sym, ◌∙◌, List, [], ◌∷◌, ◌++◌, Text,
  if◌then◌else◌, arith, length, length-append, take, length-take, take_all, leb, ltb, ℤ, to_ℕ,
  Bool-cases, inl, inr,
}
use mathlib.Core.Path.{subst}
use mathlib.Core.List.{append_assoc, append-nil}

-- limitWriter over a bytes.Buffer, which takes all that it is given
pub record LimitWriter : Type 0 where
  pub written : Text
  pub remaining : ℕ

-- DefaultMaxOutputBytes
abbrev pub default_max_output : ℕ
default_max_output = 1048576

-- `if maxOut <= 0 { maxOut = DefaultMaxOutputBytes }`
unfoldable pub max_out : ℤ → ℕ
max_out n = if leb (to_ℕ n) 0 then default_max_output else to_ℕ n

-- `p = p[:lw.remaining]`
abbrev pub part_of : ℕ → Text → Text
part_of remaining p = if ltb remaining (length p) then take remaining p else p

-- limitWriter.Write: the writer, and the count that the caller gets
unfoldable pub write : Text → LimitWriter → ℕ × LimitWriter
write p w = if leb w.remaining 0 then (length p, w) else (
  length p,
  record {
    written = w.written ++ part_of w.remaining p;
    remaining = w.remaining - length (part_of w.remaining p);
  },
)

-- a process that writes some chunks
unfoldable pub write_all : List Text → LimitWriter → LimitWriter
unfolding write
write_all [] w = w
write_all (p ∷ ps) w = write_all ps (write p w).1

abbrev pub concat : List Text → Text
concat [] = []
concat (p ∷ ps) = p ++ concat ps

-- a writer that has kept the first bytes of what it was given
pub record Keeps (limit : ℕ) (given : Text) (w : LimitWriter) : Type 0 where
  pub kept : w.written ≡ take limit given
  pub left : w.remaining ≡ limit - length given

part_of-eq-take : (n : ℕ) (p : Text) → part_of n p ≡ take n p
part_of-eq-take n p = elim (Bool-cases (ltb n (length p))) [
  | inl over ↦ simp over
  | inr fits ↦ simp fits (sym (take_all n p (ground arith)))
]

take-append :
    (limit : ℕ) (given p : Text)
    → take limit (given ++ p) ≡ take limit given ++ take (limit - length given) p
take-append zero [] p = refl
take-append zero (c ∷ given) p =
    ap (λ k. take k p) (let e : 0 ≡ 0 - suc (length given) = omega arith in e)
take-append (suc n) [] p = ap (λ k. take k p) (let e : suc n ≡ suc n - 0 = omega arith in e)
take-append (suc n) (c ∷ given) p =
    ap (λ l. c ∷ l) (take-append n given p) ∙ ap (λ k. c ∷ (take n given ++ take k p)) (omega arith)

take_none : (n : ℕ) → [] ≡ take n (let e : Text = [] in e)
take_none zero = refl
take_none (suc n) = refl

written_full : (p : Text) (w : LimitWriter) → leb w.remaining 0 ≡ true → write p w ≡ (length p, w)
unfolding write
written_full p w h = simp h

written_part :
    (p : Text) (w : LimitWriter)
    → leb w.remaining 0 ≡ false
    → write p w ≡ (
      length p,
      record {
        written = w.written ++ part_of w.remaining p;
        remaining = w.remaining - length (part_of w.remaining p);
      },
    )
unfolding write
written_part p w h = simp h

write-Keeps :
    (limit : ℕ) (given p : Text) (w : LimitWriter)
    → Keeps limit given w
    → Keeps limit (given ++ p) (write p w).1
unfolding write
write-Keeps limit given p w k =
    let all : take limit (given ++ p) ≡ w.written ++ take w.remaining p =
      take-append limit given p
      ∙ (ap (λ l. l ++ take (limit - length given) p) (sym k.kept)
          ∙ ap (λ n. w.written ++ take n p) (sym k.left)) in
    elim (Bool-cases (leb w.remaining 0)) [
      | inl full ↦
          let empty : w.remaining ≡ 0 = ground arith in
          subst (Keeps limit (given ++ p)) (sym (ap (λ x. x.1) (written_full p w full))) (record {
            kept = sym (all ∙ (ap (λ n. w.written ++ take n p) empty ∙ append-nil w.written));
            left = omega (arith, empty, k.left, length-append given p);
          })
      | inr more ↦
          subst (Keeps limit (given ++ p)) (sym (ap (λ x. x.1) (written_part p w more))) (record {
            kept = ap (λ l. w.written ++ l) (part_of-eq-take w.remaining p) ∙ sym all;
            left =
                ap (λ l. w.remaining - length l) (part_of-eq-take w.remaining p)
                ∙ omega (arith, k.left, length-append given p, length-take w.remaining p);
          })
    ]

write_all-Keeps :
    (limit : ℕ) (given : Text) (ps : List Text) (w : LimitWriter)
    → Keeps limit given w
    → Keeps limit (given ++ concat ps) (write_all ps w)
unfolding write_all
write_all-Keeps limit given [] w k = subst (λ l. Keeps limit l w) (sym (append-nil given)) k
write_all-Keeps limit given (p ∷ ps) w k =
    subst (λ l. Keeps limit l (write_all ps (write p w).1)) (append_assoc given p (concat ps))
      (write_all-Keeps limit (given ++ p) ps (write p w).1 (write-Keeps limit given p w k))

-- Of an output written in any chunks exactly the first bytes up to the limit are kept, and there
-- are no more of them than the limit; every write reports the whole chunk as written.
pub write_all-eq-take :
    (max : ℤ) (ps : List Text) (p : Text)
    → let w = write_all ps (record { written = []; remaining = max_out max }) in
      (w.written ≡ take (max_out max) (concat ps))
      × (length w.written ≤ max_out max)
      × ((write p w).0 ≡ length p)
unfolding write
write_all-eq-take max ps p =
    let start : Keeps (max_out max) [] (record { written = []; remaining = max_out max }) = record {
      kept = take_none (max_out max);
      left = omega arith;
    } in
    let w = write_all ps (record { written = []; remaining = max_out max }) in
    let k =
      write_all-Keeps (max_out max) [] ps (record { written = []; remaining = max_out max })
        start in
    (k.kept, omega (arith, ap length k.kept, length-take (max_out max) (concat ps)), ground arith)
