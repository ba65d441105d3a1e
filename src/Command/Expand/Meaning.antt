-- ===== src/Command/Expand/Meaning.antt =====
-- pkg/upstream/command/command.go, expandBraced: which values it expands, and to what.
use go_auto_mcp.Prelude.{
  ℕ, ◌≡◌, ◌≢◌, refl, sym, ap, ◌∙◌, true, false, Option, none, some, [], ◌∷◌, ◌++◌, Text, nat_eq,
  text_eq, ◌==◌, arith, Bool-cases, Option-cases, inl, inr, All,
}
use mathlib.Core.Path.{subst}
use go_auto_mcp.Command.Expand.{in_name, cut_brace}

abbrev pub NoBrace : Text → Type 0
NoBrace = All (λ c. c ≢ b'}')

-- What a value stands for: a reference stands for the value of its variable, which is set, any other
-- character but a dollar sign for itself, and so does a dollar sign at the end.
pub data Expands (lookup_env : Text → Option Text) : Text → Text → Type 0 where
  end : Expands lookup_env [] []
  last_dollar : {s out : Text} → s ≡ b'$' ∷ [] → out ≡ b'$' ∷ [] → Expands lookup_env s out
  character :
      {c : ℕ} {s out : Text}
      → c ≢ b'$'
      → Expands lookup_env s out
      → Expands lookup_env (c ∷ s) (c ∷ out)
  reference :
      (name v rest out : Text) {s value : Text}
      → name ≢ []
      → NoBrace name
      → lookup_env name ≡ some v
      → s ≡ b'$' ∷ (b'{' ∷ (name ++ (b'}' ∷ rest)))
      → Expands lookup_env rest out
      → value ≡ v ++ out
      → Expands lookup_env s value

pub beq_ne : (a b : ℕ) → (a == b) ≡ false → a ≢ b
beq_ne a b h e = let t : (a == b) ≡ true = (nat_eq.beq_iff a b).1 e in cc

pub ne_beq : (a b : ℕ) → a ≢ b → (a == b) ≡ false
ne_beq a b h = ground arith

pub cut_brace-append :
    (name after : Text) → NoBrace name → cut_brace (name ++ (b'}' ∷ after)) ≡ some (name, after)
unfolding cut_brace
cut_brace-append [] after h = refl
cut_brace-append (c ∷ name) after (ne, h) = elim (Bool-cases (c == b'}')) [
  | inl same ↦ absurd (ne ((nat_eq.beq_iff c b'}').0 same))
  | inr other ↦ simp other (ap (in_name c) (cut_brace-append name after h))
]

in_name_parts :
    (c : ℕ) (s name after : Text)
    → (c == b'}') ≡ false
    → in_name c (cut_brace s) ≡ some (name, after)
    → ((n a : Text) → cut_brace s ≡ some (n, a) → NoBrace n × (s ≡ n ++ (b'}' ∷ a)))
    → NoBrace name × (c ∷ s ≡ name ++ (b'}' ∷ after))
in_name_parts c s name after other h parts = elim (Option-cases (cut_brace s)) [
  | inl gone ↦
      let e : ◌≡◌ {A = Option (Text × Text)} none (some (name, after)) =
        ap (in_name c) (sym gone) ∙ h in
      absurd cc
  | inr ((n, a), there) ↦
      let e : ◌≡◌ {A = Option (Text × Text)} (some (c ∷ n, a)) (some (name, after)) =
        ap (in_name c) (sym there) ∙ h in
      let whole : c ∷ n ≡ name = cc in
      let behind : a ≡ after = cc in
      let (none_in, here) = parts n a there in
      (
        subst NoBrace whole ((λ e. absurd (beq_ne c b'}' other e)), none_in),
        ap (λ x. c ∷ x) here
            ∙ (ap (λ x. c ∷ (n ++ (b'}' ∷ x))) behind ∙ ap (λ x. x ++ (b'}' ∷ after)) whole),
      )
]

-- the parts of a text that was cut
pub cut_parts :
    (s name after : Text)
    → cut_brace s ≡ some (name, after)
    → NoBrace name × (s ≡ name ++ (b'}' ∷ after))
unfolding cut_brace
cut_parts [] name after h = absurd cc
cut_parts (c ∷ s) name after h = elim (Bool-cases (c == b'}')) [
  | inl same ↦
      let e : ◌≡◌ {A = Option (Text × Text)} (some ([], s)) (some (name, after)) =
        sym (simp same) ∙ h in
      let parts : ◌≡◌ {A = Text} [] name = cc in
      let behind : s ≡ after = cc in
      let here : c ≡ b'}' = (nat_eq.beq_iff c b'}').0 same in
      (subst NoBrace parts tt, ground (arith, here, parts, behind))
  | inr other ↦
      let e : in_name c (cut_brace s) ≡ some (name, after) = sym (simp other) ∙ h in
      in_name_parts c s name after other e (cut_parts s)
]
