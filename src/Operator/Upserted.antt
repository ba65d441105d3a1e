-- ===== src/Operator/Upserted.antt =====
-- pkg/operator/controller/mcpproxy_controller.go, upsertConfigMap: what it establishes, and that it has
-- nothing to do a second time.
use go_auto_mcp.Prelude.{
  pair_beq_iff, err-ne-ok, Bool, true, false, some, [], ◌∷◌, ◌≡◌, refl, sym, ◌∙◌, ap, Text, text_eq,
  ◌==◌, beq_refl, pair_eq, err, ok, if◌then◌else◌, Dict, lookup, insert, lookup-insert, Bool-cases,
  inl, inr,
}
use go_auto_mcp.Operator.{or_empty, value_at}
use go_auto_mcp.Operator.ConfigMaps.{
  not_owned, Data, Fetched, found, not_found, broken, ConfigMapStore, nil_map, Outcome, written,
  created, has_value, upsert_fetched, upsert_config_map,
}

module _ {C : Type 0} (store : ConfigMapStore C) where
  -- The ConfigMap is there and has the value under the key, and every other ConfigMap is as before.
  pub record Upserted (name : Text × Text) (key value : Text) (c c' : C) (at : Text × Text)
      : Type 0 where
    pub now : Data
    pub fetched : store.get name c' ≡ found now
    pub holds : has_value key value now ≡ true
    pub all_names : store.get at c' ≡ (if name == at then found now else store.get at c)

  written-ok : (p : C × Bool) (c' : C) → written p ≡ (ok tt, c') → (p.1 ≡ true) × (p.0 ≡ c')
  written-ok (c, true) c' h = (refl, ap (λ o. o.1) h)
  written-ok (c, false) c' h = absurd (err-ne-ok (ap (λ o. o.0) h))

  put-Upserted :
      (name : Text × Text) (key value : Text) (d : Data) (c c' : C) (at : Text × Text)
      → has_value key value d ≡ true
      → written (store.put name d c) ≡ (ok tt, c')
      → Upserted name key value c c' at
  put-Upserted name key value d c c' at holds h =
      let (done, e) = written-ok (store.put name d c) c' h in
      record {
        now = d;
        fetched =
            ap (store.get name) (sym e) ∙ store.get-put name name d c done ∙ simp (beq_refl name);
        holds = holds;
        all_names = ap (store.get at) (sym e) ∙ store.get-put name at d c done;
      }

  same-Upserted :
      (name : Text × Text) (key value : Text) (d : Data) (c c' : C) (at : Text × Text)
      → store.get name c ≡ found d
      → has_value key value d ≡ true
      → c ≡ c'
      → Upserted name key value c c' at
  same-Upserted name key value d c c' at there holds e = record {
    now = d;
    fetched = ap (store.get name) (sym e) ∙ there;
    holds = holds;
    all_names = ap (store.get at) (sym e) ∙ (elim (Bool-cases (name == at)) [
      | inl here ↦
          let same : name ≡ at = (pair_beq_iff name at).0 here in
          simp here (ap (λ k. store.get k c) (sym same) ∙ there)
      | inr other ↦ simp other
    ]);
  }

  holds-insert :
      (key value : Text) (m : Dict Text Text)
      → has_value key value (some (insert key value m)) ≡ true
  holds-insert key value m =
      let e : lookup key (insert key value m) ≡ some value =
        lookup-insert key key value m ∙ simp (beq_refl key) in
      let v : value_at key (insert key value m) ≡ value = ap or_empty e in
      ap (λ x. x == value) v ∙ beq_refl value

  created-Upserted :
      (name : Text × Text) (key value : Text) (c c' : C) (at : Text × Text)
      → created store name (some ((key, value) ∷ [])) c ≡ (ok tt, c')
      → Upserted name key value c c' at
  unfolding insert
  created-Upserted name key value c c' at h = elim (Bool-cases (store.can_own name)) [
    | inl owned ↦
        put-Upserted name key value (some ((key, value) ∷ [])) c c' at (holds-insert key value [])
          (sym (simp owned) ∙ h)
    | inr alien ↦
        let refused : Outcome C = (err not_owned, c) in
        let e : refused ≡ (ok tt, c') = sym (simp alien) ∙ h in absurd (err-ne-ok (ap (λ o. o.0) e))
  ]

  fetched-Upserted :
      (name : Text × Text) (key value : Text) (c c' : C) (at : Text × Text) (r : Fetched)
      → store.get name c ≡ r
      → upsert_fetched store name key value c r ≡ (ok tt, c')
      → Upserted name key value c c' at
  fetched-Upserted name key value c c' at not_found e h = created-Upserted name key value c c' at h
  fetched-Upserted name key value c c' at broken e h = absurd (err-ne-ok (ap (λ o. o.0) h))
  fetched-Upserted name key value c c' at (found d) e h =
      elim (Bool-cases (has_value key value d)) [
        | inl there ↦
            let f : (ok tt, c) ≡ (ok tt, c') = sym (simp there) ∙ h in
            same-Upserted name key value d c c' at e there (ap (λ o. o.1) f)
        | inr gone ↦
            put-Upserted name key value (some (insert key value (nil_map d))) c c' at
              (holds-insert key value (nil_map d)) (sym (simp gone) ∙ h)
      ]

  -- A successful upsert leaves the ConfigMap with the value under the key and every other ConfigMap as
  -- it was.
  pub upsert_config_map-Upserted :
      (name : Text × Text) (key value : Text) (c c' : C) (at : Text × Text)
      → upsert_config_map store name key value c ≡ (ok tt, c')
      → Upserted name key value c c' at
  unfolding upsert_config_map
  upsert_config_map-Upserted name key value c c' at h =
      fetched-Upserted name key value c c' at (store.get name c) refl h

  -- A second upsert after a successful one succeeds and writes nothing.
  pub upsert_config_map_again :
      (name : Text × Text) (key value : Text) (c c' : C)
      → upsert_config_map store name key value c ≡ (ok tt, c')
      → upsert_config_map store name key value c' ≡ (ok tt, c')
  unfolding upsert_config_map
  upsert_config_map_again name key value c c' h =
      let there = upsert_config_map-Upserted name key value c c' name h in
      rw there.fetched (rw there.holds refl)
