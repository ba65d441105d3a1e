-- ===== src/Naming/Conflicts/Survivors.antt =====
-- pkg/openapi/naming.go, DetectConflicts: what survives is a part of the tools, in their order.
use go_auto_mcp.Prelude.{
  ◌≤◌, ◌≡◌, refl, ap, ◌∙◌, Bool, true, false, List, [], ◌∷◌, length, Text, text_eq, string_eq, ◌==◌,
  String, contains, if◌then◌else◌, arith,
}
use mathlib.Core.Path.{subst}
use go_auto_mcp.Naming.Conflicts.{
  PrefixedTool, ok, err, name_conflicts, unknown_resolution, keep_first, drop_all, resolve,
  conflicts_of, detect_conflicts,
}

pub data Part {ℓ} {A : Type ℓ} : List A → List A → Type ℓ where
  done : Part [] []
  left_out : {x : A} {xs ys : List A} → Part xs ys → Part xs (x ∷ ys)
  kept : {x y : A} {xs ys : List A} → x ≡ y → Part xs ys → Part (x ∷ xs) (y ∷ ys)

length-Part {ℓ} : {A : Type ℓ} (xs ys : List A) → Part xs ys → length xs ≤ length ys
length-Part [] [] done = omega arith
length-Part (x ∷ xs) [] p = elim p [ ]
length-Part xs (y ∷ ys) (left_out p) = omega (arith, length-Part xs ys p)
length-Part (x ∷ xs) (y ∷ ys) (kept e p) = omega (arith, length-Part xs ys p)

pub Part_all {ℓ} : {A : Type ℓ} (xs ys : List A) → Part xs ys → length xs ≡ length ys → xs ≡ ys
Part_all [] [] done h = refl
Part_all (x ∷ xs) [] p h = elim p [ ]
Part_all xs (y ∷ ys) (left_out p) h = absurd (omega (arith, length-Part xs ys p))
Part_all (x ∷ xs) (y ∷ ys) (kept e p) h =
    ap (λ z. z ∷ xs) e ∙ ap (λ zs. y ∷ zs) (Part_all xs ys p (omega arith))

Part-if {ℓ} :
    {A : Type ℓ} (b : Bool) (xs zs ys : List A)
    → Part xs ys
    → Part zs ys
    → Part (if b then xs else zs) ys
Part-if true xs zs ys p q = p
Part-if false xs zs ys p q = q

keep_first-Part :
    (conflicts seen : List Text) (tools : List PrefixedTool)
    → Part (keep_first conflicts seen tools) tools
unfolding keep_first
keep_first-Part conflicts seen [] = done
keep_first-Part conflicts seen (t ∷ tools) =
    let later = keep_first conflicts seen tools in
    let after = keep_first conflicts (t.prefixed_name ∷ seen) tools in
    let rest = keep_first-Part conflicts seen tools in
    Part-if (contains t.prefixed_name conflicts)
      (if contains t.prefixed_name seen then later else t ∷ after) (t ∷ later) (t ∷ tools)
      (Part-if (contains t.prefixed_name seen) later (t ∷ after) (t ∷ tools) (left_out rest)
        (kept refl (keep_first-Part conflicts (t.prefixed_name ∷ seen) tools)))
      (kept refl rest)

drop_all-Part :
    (conflicts : List Text) (tools : List PrefixedTool) → Part (drop_all conflicts tools) tools
unfolding drop_all
drop_all-Part conflicts [] = done
drop_all-Part conflicts (t ∷ tools) =
    let rest = drop_all-Part conflicts tools in
    Part-if (contains t.prefixed_name conflicts) (drop_all conflicts tools)
      (t ∷ drop_all conflicts tools) (t ∷ tools) (left_out rest) (kept refl rest)

Part_refl {ℓ} : {A : Type ℓ} (xs : List A) → Part xs xs
Part_refl [] = done
Part_refl (x ∷ xs) = kept refl (Part_refl xs)

ok-Part : (xs out tools : List PrefixedTool) → ok xs ≡ ok out → Part xs tools → Part out tools
ok-Part xs out tools h p = let e : xs ≡ out = cc in subst (λ o. Part o tools) e p

resolve_cases :
    (fails first skips : Bool) (conflicts : List Text) (tools out : List PrefixedTool)
    (resolution : String)
    → (if fails
        then err (name_conflicts conflicts)
        else if first
        then ok (keep_first conflicts [] tools)
        else if skips
        then ok (drop_all conflicts tools)
        else err (unknown_resolution resolution))
      ≡ ok out
    → Part out tools
resolve_cases true first skips conflicts tools out resolution h = absurd cc
resolve_cases false true skips conflicts tools out resolution h =
    ok-Part (keep_first conflicts [] tools) out tools h (keep_first-Part conflicts [] tools)
resolve_cases false false true conflicts tools out resolution h =
    ok-Part (drop_all conflicts tools) out tools h (drop_all-Part conflicts tools)
resolve_cases false false false conflicts tools out resolution h = absurd cc

resolve-Part :
    (conflicts : List Text) (tools out : List PrefixedTool) (resolution : String)
    → resolve conflicts tools resolution ≡ ok out
    → Part out tools
unfolding resolve
resolve-Part [] tools out resolution h = ok-Part tools out tools h (Part_refl tools)
resolve-Part (c ∷ cs) tools out resolution h =
    resolve_cases (resolution == "error") (resolution == "first_wins") (resolution == "skip")
      (c ∷ cs) tools out resolution h

pub detect_conflicts-Part :
    (tools out : List PrefixedTool) (resolution : String)
    → detect_conflicts tools resolution ≡ ok out
    → Part out tools
unfolding detect_conflicts
detect_conflicts-Part tools out resolution h =
    resolve-Part (conflicts_of tools) tools out resolution h
