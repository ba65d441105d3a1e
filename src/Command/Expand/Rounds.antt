-- ===== src/Command/Expand/Rounds.antt =====
-- pkg/upstream/command/command.go, expandBraced: what one round of its loop does.
use go_auto_mcp.Prelude.{
  ℕ, ◌+◌, ◌<◌, ◌≡◌, ◌≢◌, refl, sym, ap, ◌∙◌, true, Option, none, some, [], ◌∷◌, ◌++◌, Text, nat_eq,
  text_eq, ◌==◌, arith, Bool-cases, Option-cases, inl, inr, length, length-append,
}
use mathlib.Core.Path.{subst}
use go_auto_mcp.Command.Expand.{
  unbraced, empty_name, cut_brace, stop, next, look_up, variable, dollar, round,
}
use go_auto_mcp.Command.Expand.Meaning.{
  NoBrace, Expands, end, last_dollar, character, reference, cut_parts, beq_ne,
}

module _ (lookup_env : Text → Option Text) where
  -- What a round that goes on has done: it has put `o` for the start of the text.
  pub record Passed (out : Text) (s0 : Text) (out' s' : Text) : Type 0 where
    pub o : Text
    pub written : out' ≡ out ++ o
    pub shorter : length s' < length s0
    pub stands : (w : Text) → Expands lookup_env s' w → Expands lookup_env s0 (o ++ w)

  nil_out : (w : Text) → Expands lookup_env [] w → w ≡ []
  nil_out w end = refl
  nil_out w (last_dollar e d) = absurd cc
  nil_out w (reference name v r o ne nb known e rest d) = absurd cc

  look_up-Passed :
      (i : ℕ) (out name after : Text) (v : Option Text) (i' : ℕ) (out' s' : Text)
      → name ≢ []
      → NoBrace name
      → lookup_env name ≡ v
      → look_up i out name after v ≡ next i' out' s'
      → Passed out (b'$' ∷ (b'{' ∷ (name ++ (b'}' ∷ after)))) out' s'
  look_up-Passed i out name after none i' out' s' ne nb e h = absurd cc
  look_up-Passed i out name after (some v) i' out' s' ne nb e h =
      let behind : after ≡ s' = cc in
      record {
        o = v;
        written = cc;
        shorter = omega (arith, ap length behind, length-append name (b'}' ∷ after));
        stands = λ w x.
            reference name v after w ne nb e refl
              (subst (λ t. Expands lookup_env t w) (sym behind) x) refl;
      }

  variable-Passed :
      (i : ℕ) (out rest : Text) (i' : ℕ) (out' s' : Text)
      → variable lookup_env i out (cut_brace rest) ≡ next i' out' s'
      → Passed out (b'$' ∷ (b'{' ∷ rest)) out' s'
  variable-Passed i out rest i' out' s' h = elim (Option-cases (cut_brace rest)) [
    | inl gone ↦
        let e : variable lookup_env i out none ≡ next i' out' s' =
          ap (variable lookup_env i out) (sym gone) ∙ h in
        absurd cc
    | inr ((name, after), there) ↦
        let e : variable lookup_env i out (some (name, after)) ≡ next i' out' s' =
          ap (variable lookup_env i out) (sym there) ∙ h in
        let (nb, here) = cut_parts rest name after there in
        elim (Bool-cases (name == [])) [
          | inl empty ↦
              let k : stop empty_name ≡ next i' out' s' = sym (simp empty) ∙ e in absurd cc
          | inr named ↦
              let k : look_up i out name after (lookup_env name) ≡ next i' out' s' =
                sym (simp named) ∙ e in
              let ne : name ≢ [] =
                λ q. let t : (name == []) ≡ true = (text_eq.beq_iff name []).1 q in cc in
              subst (λ x. Passed out (b'$' ∷ (b'{' ∷ x)) out' s') (sym here)
                (look_up-Passed i out name after (lookup_env name) i' out' s' ne nb refl k)
        ]
  ]

  dollar-Passed :
      (i : ℕ) (out s : Text) (i' : ℕ) (out' s' : Text)
      → dollar lookup_env i out s ≡ next i' out' s'
      → Passed out (b'$' ∷ s) out' s'
  dollar-Passed i out [] i' out' s' h =
      let behind : [] ≡ s' = cc in
      record {
        o = b'$' ∷ [];
        written = cc;
        shorter = omega (arith, ap length behind);
        stands = λ w x.
            subst (λ t. Expands lookup_env (b'$' ∷ []) (b'$' ∷ t))
              (sym (nil_out w (subst (λ t. Expands lookup_env t w) (sym behind) x)))
              (last_dollar refl refl);
      }
  dollar-Passed i out (d ∷ rest) i' out' s' h = elim (Bool-cases (d == b'{')) [
    | inl opens ↦
        let e : variable lookup_env i out (cut_brace rest) ≡ next i' out' s' =
          sym (simp opens) ∙ h in
        subst (λ x. Passed out (b'$' ∷ (x ∷ rest)) out' s') (sym ((nat_eq.beq_iff d b'{').0 opens))
          (variable-Passed i out rest i' out' s' e)
    | inr other ↦ let e : stop (unbraced i) ≡ next i' out' s' = sym (simp other) ∙ h in absurd cc
  ]

  pub round-Passed :
      (i c : ℕ) (out s : Text) (i' : ℕ) (out' s' : Text)
      → round lookup_env i out c s ≡ next i' out' s'
      → Passed out (c ∷ s) out' s'
  unfolding round
  round-Passed i c out s i' out' s' h = elim (Bool-cases (c == b'$')) [
    | inl same ↦
        let e : dollar lookup_env i out s ≡ next i' out' s' = sym (simp same) ∙ h in
        subst (λ x. Passed out (x ∷ s) out' s') (sym ((nat_eq.beq_iff c b'$').0 same))
          (dollar-Passed i out s i' out' s' e)
    | inr other ↦
        let e : next (i + 1) (out ++ (c ∷ [])) s ≡ next i' out' s' = sym (simp other) ∙ h in
        let behind : s ≡ s' = cc in
        record {
          o = c ∷ [];
          written = cc;
          shorter = omega (arith, ap length behind);
          stands = λ w x.
              character (beq_ne c b'$' other) (subst (λ t. Expands lookup_env t w) (sym behind) x);
        }
  ]
