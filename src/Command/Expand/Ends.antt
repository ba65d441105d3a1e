-- ===== src/Command/Expand/Ends.antt =====
-- pkg/upstream/command/command.go, expandBraced: the loop ends, with what the value stands for.
use go_auto_mcp.Prelude.{
  ℕ, zero, suc, ◌+◌, ◌<◌, ◌≡◌, ◌≢◌, refl, sym, ap, ◌∙◌, ◌↔◌, false, Option, some, [], ◌∷◌, ◌++◌,
  Text, nat_eq, text_eq, ◌==◌, arith, Bool-cases, inl, inr, ◌⊎◌, length, length-append, contains,
}
use mathlib.Core.Path.{subst}
use mathlib.Core.List.{append_assoc, append-nil}
use go_auto_mcp.Command.Expand.{
  ExpandError, done, failed, out_of_fuel, Round, stop, next, variable, round, go_on, expand_loop,
  expand_braced,
}
use go_auto_mcp.Command.Expand.Meaning.{
  NoBrace, Expands, end, last_dollar, character, reference, cut_brace-append, beq_ne, ne_beq,
}
use go_auto_mcp.Command.Expand.Rounds.{round-Passed}

module _ (lookup_env : Text → Option Text) where
  Round-cases :
      (r : Round)
      → ((e : ExpandError) × (r ≡ stop e))
        ⊎ ((i : ℕ) × (out : Text) × (s : Text) × (r ≡ next i out s))
  Round-cases (stop e) = inl (e, refl)
  Round-cases (next i out s) = inr (i, out, s, refl)

  -- Fuel beyond the length of the value is enough.
  pub loop_ends :
      (f i : ℕ) (out s : Text) → length s < f → expand_loop lookup_env f i out s ≢ out_of_fuel
  unfolding expand_loop
  loop_ends zero i out s h = absurd (omega arith)
  loop_ends (suc f) i out [] h = λ e. cc
  loop_ends (suc f) i out (c ∷ s) h = elim (Round-cases (round lookup_env i out c s)) [
    | inl (e, stopped) ↦ λ k.
        let n : failed e ≡ out_of_fuel =
          sym (ap (λ r. go_on r (expand_loop lookup_env f)) stopped) ∙ k in
        cc
    | inr (i', out', s', went) ↦ λ k.
        loop_ends f i' out' s'
          (omega (arith, (round-Passed lookup_env i c out s i' out' s' went).shorter))
          (sym (ap (λ r. go_on r (expand_loop lookup_env f)) went) ∙ k)
  ]

  loop_sound :
      (f i : ℕ) (out s res : Text)
      → expand_loop lookup_env f i out s ≡ done res
      → (w : Text) × (res ≡ out ++ w) × Expands lookup_env s w
  unfolding expand_loop
  loop_sound zero i out s res h = absurd cc
  loop_sound (suc f) i out [] res h =
      (let e : out ≡ res = cc in ([], sym e ∙ sym (append-nil out), end))
  loop_sound (suc f) i out (c ∷ s) res h = elim (Round-cases (round lookup_env i out c s)) [
    | inl (e, stopped) ↦
        let k : failed e ≡ done res =
          sym (ap (λ r. go_on r (expand_loop lookup_env f)) stopped) ∙ h in
        absurd cc
    | inr (i', out', s', went) ↦
        let k = sym (ap (λ r. go_on r (expand_loop lookup_env f)) went) ∙ h in
        let p = round-Passed lookup_env i c out s i' out' s' went in
        let (w, is, x) = loop_sound f i' out' s' res k in
        (p.o ++ w, is ∙ (ap (λ o. o ++ w) p.written ∙ append_assoc out p.o w), p.stands w x)
  ]

  round_character :
      (i c : ℕ) (out s : Text)
      → c ≢ b'$'
      → round lookup_env i out c s ≡ next (i + 1) (out ++ (c ∷ [])) s
  unfolding round
  round_character i c out s ne = simp (ne_beq c b'$' ne)

  round_reference :
      (i : ℕ) (out name rest v : Text)
      → name ≢ []
      → NoBrace name
      → lookup_env name ≡ some v
      → round lookup_env i out b'$' (b'{' ∷ (name ++ (b'}' ∷ rest)))
        ≡ next (i + 2 + length name + 1) (out ++ v) rest
  unfolding round
  round_reference i out name rest v ne nb known =
      let empty : (name == []) ≡ false = ground (arith, text_eq.beq_iff name []) in
      ap (variable lookup_env i out) (cut_brace-append name rest nb) ∙ simp (empty, known)

  loop_last :
      (f i : ℕ) (out : Text)
      → 0 < f
      → expand_loop lookup_env (suc f) i out (b'$' ∷ []) ≡ done (out ++ (b'$' ∷ []))
  unfolding expand_loop round
  loop_last zero i out h = elim h [ ]
  loop_last (suc f) i out h = refl

  loop_complete :
      (f i : ℕ) (out s w : Text)
      → Expands lookup_env s w
      → length s < f
      → expand_loop lookup_env f i out s ≡ done (out ++ w)
  unfolding expand_loop
  loop_complete zero i out s w x h = absurd (omega arith)
  loop_complete (suc f) i out s w end h = ap done (sym (append-nil out))
  loop_complete (suc f) i out s w (last_dollar e d) h =
      subst (λ t. expand_loop lookup_env (suc f) i out t ≡ done (out ++ w)) (sym e)
        (loop_last f i out (omega (arith, ap length e)) ∙ ap (λ t. done (out ++ t)) (sym d))
  loop_complete (suc f) i out (c ∷ s) (d ∷ w) (character ne x) h =
      ap (λ r. go_on r (expand_loop lookup_env f)) (round_character i c out s ne)
      ∙ (loop_complete f (i + 1) (out ++ (c ∷ [])) s w x (omega arith)
          ∙ ap done (append_assoc out (c ∷ []) w))
  loop_complete (suc f) i out s w (reference name v r o ne nb known e x d) h =
      let i' = i + 2 + length name + 1 in
      let size : length r < f = omega (arith, ap length e, length-append name (b'}' ∷ r)) in
      subst (λ t. expand_loop lookup_env (suc f) i out t ≡ done (out ++ w)) (sym e)
        (ap (λ q. go_on q (expand_loop lookup_env f)) (round_reference i out name r v ne nb known)
          ∙ (loop_complete f i' (out ++ v) r o x size
              ∙ ap done (append_assoc out v o ∙ ap (λ t. out ++ t) (sym d))))

  plain : (value : Text) → contains b'$' value ≡ false → Expands lookup_env value value
  unfolding contains
  plain [] h = end
  plain (c ∷ value) h = character (beq_ne c b'$' (ground arith)) (plain value (ground arith))

  -- The fast path changes nothing.
  expand_braced-eq :
      (value : Text)
      → expand_braced lookup_env value ≡ expand_loop lookup_env (length value + 1) 0 [] value
  unfolding expand_braced
  expand_braced-eq value = elim (Bool-cases (contains b'$' value)) [
    | inl some_dollar ↦ simp some_dollar
    | inr no_dollar ↦ simp no_dollar (
        sym
          (loop_complete (length value + 1) 0 [] value value (plain value no_dollar) (omega arith)))
  ]

  -- The expansion ends for every value.
  pub expand_braced_ends : (value : Text) → expand_braced lookup_env value ≢ out_of_fuel
  expand_braced_ends value h =
      loop_ends (length value + 1) 0 [] value (omega arith) (sym (expand_braced-eq value) ∙ h)

  -- A value expands exactly to what it stands for, and else an error is returned.
  pub expand_braced_iff :
      (value out : Text)
      → (expand_braced lookup_env value ≡ done out) ↔ Expands lookup_env value out
  expand_braced_iff value out = (
    λ h.
        let (w, is, x) =
          loop_sound (length value + 1) 0 [] value out (sym (expand_braced-eq value) ∙ h) in
        subst (Expands lookup_env value) (sym is) x,
    λ x. expand_braced-eq value ∙ loop_complete (length value + 1) 0 [] value out x (omega arith),
  )
