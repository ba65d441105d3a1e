-- ===== src/Openapi/Collected.antt =====
-- pkg/openapi/inputschema.go: what is collected under each name.
use go_auto_mcp.Prelude.{
  ℕ, ◌+◌, ◌≡◌, refl, sym, ap, ◌∙◌, Bool, true, false, some, List, [], ◌∷◌, ◌++◌, Text, text_eq,
  nat_eq, ◌==◌, Dict, lookup, insert, lookup-insert, insert-Distinct, Distinct, keys, if◌then◌else◌,
  arith, Bool-cases, inl, inr,
}
use mathlib.Core.List.{Memᴰ, append_assoc, append-nil}
use go_auto_mcp.Openapi.Arguments.{or_nil, collect}

-- where a name occurs
abbrev pub values_at {ℓ} : {A : Type ℓ} → Text → List (A × Text) → List A
values_at name [] = []
values_at name ((l, n) ∷ os) = if n == name then l ∷ values_at name os else values_at name os

abbrev pub count_named {ℓ} : {A : Type ℓ} → Text → List (A × Text) → ℕ
count_named name [] = 0
count_named name ((l, n) ∷ os) = (if n == name then 1 else 0) + count_named name os

append_there {ℓ} :
    {A : Type ℓ} (name n : Text) (l : A) (os : List (A × Text)) (m : Dict Text (List A))
    → or_nil (lookup name (insert n (or_nil (lookup n m) ++ (l ∷ [])) m)) ++ values_at name os
      ≡ or_nil (lookup name m) ++ values_at name ((l, n) ∷ os)
append_there name n l os m = elim (Bool-cases (n == name)) [
  | inl h ↦
      let same : n ≡ name = (text_eq.beq_iff n name).0 h in
      let there : lookup name (insert n (or_nil (lookup n m) ++ (l ∷ [])) m)
          ≡ some (or_nil (lookup n m) ++ (l ∷ [])) =
        lookup-insert n name (or_nil (lookup n m) ++ (l ∷ [])) m ∙ simp h in
      simp (there, h)
        (append_assoc (or_nil (lookup n m)) (l ∷ []) (values_at name os)
          ∙ ap (λ k. or_nil (lookup k m) ++ (l ∷ values_at name os)) same)
  | inr h ↦
      let there : lookup name (insert n (or_nil (lookup n m) ++ (l ∷ [])) m) ≡ lookup name m =
        lookup-insert n name (or_nil (lookup n m) ++ (l ∷ [])) m ∙ simp h in
      simp (there, h)
]

pub or_nil-collect {ℓ} :
    {A : Type ℓ} (name : Text) (os : List (A × Text)) (m : Dict Text (List A))
    → or_nil (lookup name (collect os m)) ≡ or_nil (lookup name m) ++ values_at name os
unfolding collect
or_nil-collect name [] m = sym (append-nil (or_nil (lookup name m)))
or_nil-collect name ((l, n) ∷ os) m =
    or_nil-collect name os (insert n (or_nil (lookup n m) ++ (l ∷ [])) m)
    ∙ append_there name n l os m

pub collect-Distinct {ℓ} :
    {A : Type ℓ} (os : List (A × Text)) (m : Dict Text (List A))
    → Distinct (keys m)
    → Distinct (keys (collect os m))
unfolding collect
collect-Distinct [] m h = h
collect-Distinct ((l, n) ∷ os) m h =
    collect-Distinct os _ (insert-Distinct n (or_nil (lookup n m) ++ (l ∷ [])) m h)

Mem_put {ℓ} :
    {A : Type ℓ} (b : Bool) (l x : A) (ls : List A)
    → b ≡ true
    → l ≡ x
    → Memᴰ l (if b then x ∷ ls else ls)
Mem_put true l x ls h e = Memᴰ.head e
Mem_put false l x ls h e = absurd cc

Mem_kept {ℓ} :
    {A : Type ℓ} (b : Bool) (l : A) (x : A) (ls : List A)
    → Memᴰ l ls
    → Memᴰ l (if b then x ∷ ls else ls)
Mem_kept true l x ls at = Memᴰ.tail at
Mem_kept false l x ls at = at

pub Mem-values_at {ℓ} :
    {A : Type ℓ} (l : A) (name : Text) (os : List (A × Text))
    → Memᴰ (l, name) os
    → Memᴰ l (values_at name os)
Mem-values_at l name [] at = elim at [ ]
Mem-values_at l name ((x, n) ∷ os) (Memᴰ.head here) =
    Mem_put (n == name) l x (values_at name os)
      ((text_eq.beq_iff n name).1 (ap (λ o. o.1) (sym here))) (ap (λ o. o.0) here)
Mem-values_at l name ((x, n) ∷ os) (Memᴰ.tail later) =
    Mem_kept (n == name) l x (values_at name os) (Mem-values_at l name os later)

abbrev pub size {ℓ} : {A : Type ℓ} → List A → ℕ
size [] = 0
size (l ∷ ls) = 1 + size ls

pub size-values_at {ℓ} :
    {A : Type ℓ} (name : Text) (os : List (A × Text))
    → size (values_at name os) ≡ count_named name os
size-values_at name [] = refl
size-values_at name ((l, n) ∷ os) = ground (arith, size-values_at name os)
