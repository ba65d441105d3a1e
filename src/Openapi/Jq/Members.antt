-- ===== src/Openapi/Jq/Members.antt =====
-- pkg/openapi/request_jq.go: jq reads an object whose members are joined by commas.
use go_auto_mcp.Prelude.{
  ℕ, zero, suc, ◌≤◌, ◌≡◌, refl, ap, ◌∙◌, true, some, List, [], ◌∷◌, ◌++◌, map, Text, codes, All,
  Option, cut_prefix, length, length-append, arith,
}
use mathlib.Core.List.{append_assoc}
use go_auto_mcp.Openapi.Jq.{commas}
use go_auto_mcp.Openapi.Jq.Read.{and_read, cons_read, after_member, read_members}
use go_auto_mcp.Openapi.Jq.Names.{word_ends}

module _ {A : Type 0} (read : Text → Option (A × Text)) (print : A → Text) (Good : A → Type 0)
    (reads : (a : A) (rest : Text)
      → Good a
      → word_ends rest ≡ true
      → read (print a ++ rest) ≡ some (a, rest)) where
  pub read_members-commas :
      (n : ℕ) (a : A) (others : List A) (rest : Text)
      → length (a ∷ others) ≤ n
      → All Good (a ∷ others)
      → read_members read n (commas (map print (a ∷ others)) ++ (b'}' ∷ rest))
        ≡ some (a ∷ others, rest)
  unfolding read_members cut_prefix word_ends
  read_members-commas zero a others rest h g = absurd (grind arith)
  read_members-commas (suc n) a [] rest h (good, all) =
      ap (λ o. and_read o (after_member (read_members read n))) (reads a (b'}' ∷ rest) good refl)
  read_members-commas (suc n) a (b ∷ bs) rest h (good, all) =
      let tail = commas (map print (b ∷ bs)) in
      let comma = codes ", " in
      let enough : length (b ∷ bs) ≤ n = ground arith in
      ap (λ t. and_read (read t) (after_member (read_members read n)))
        (append_assoc (print a) (comma ++ tail) (b'}' ∷ rest))
      ∙ (ap (λ o. and_read o (after_member (read_members read n)))
            (reads a (comma ++ (tail ++ (b'}' ∷ rest))) good refl)
          ∙ ap (cons_read a) (read_members-commas n b bs rest enough all))

  -- the fuel of the reader is enough
  length-commas :
      (a : A) (others : List A) (rest : Text)
      → length (a ∷ others) ≤ length (commas (map print (a ∷ others)) ++ (b'}' ∷ rest))
  length-commas a [] rest = grind (arith, length-append (print a) (b'}' ∷ rest))
  length-commas a (b ∷ bs) rest =
      let tail = commas (map print (b ∷ bs)) in
      let longer = length-commas b bs rest in
      let whole = append_assoc (print a) (codes ", " ++ tail) (b'}' ∷ rest) in
      let two = length-append (print a) (codes ", " ++ (tail ++ (b'}' ∷ rest))) in
      let same = ap length whole in omega (arith, longer, two, same)

  pub read_every :
      (a : A) (others : List A) (rest : Text)
      → All Good (a ∷ others)
      → (let s = commas (map print (a ∷ others)) ++ (b'}' ∷ rest) in
          read_members read (length s) s ≡ some (a ∷ others, rest))
  read_every a others rest g =
      read_members-commas (length (commas (map print (a ∷ others)) ++ (b'}' ∷ rest))) a others rest
        (length-commas a others rest) g
