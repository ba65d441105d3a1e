-- ===== src/Manager/Update/Frozen.antt =====
-- The manager's state after a failed update.
use go_auto_mcp.Prelude.{
  Bool-cases, ℕ, ◌+◌, ◌≤◌, ◌<◌, String, ◌≡◌, refl, ap, ◌∙◌, false, Option, some, List, [], ◌∷◌,
  string_eq, ◌==◌, Dict, lookup, lookup-insert, lookup-erase, erase, ok, All, arith, eq_iff,
  Option-cases, inl, inr,
}
use go_auto_mcp.Upstreams.Registry.{Entry, Registry, JsonPath}
use go_auto_mcp.Upstreams.Registry.Names.{
  count_name, count-append, entries_in, new_from_entries-Holds,
}
use go_auto_mcp.Manager.{ServerOps, Manager, UpstreamState}
use go_auto_mcp.Manager.Update.{
  entries_by_upstream, restore, Change, updated, removed, change, run_changes,
}
use go_auto_mcp.Manager.Update.Steps.{
  Changed, applied_update, failed_update, applied_removal, failed_removal, change_ready, wanted,
  put, dropped,
}

abbrev pub upstream_of : Change → String
upstream_of (updated name entries root) = name
upstream_of (removed name) = name

some-injective : {s x : UpstreamState} → some s ≡ some x → s ≡ x
some-injective h = cc

-- how often a name occurs among the entries of all upstreams
abbrev pub count_in : String → Dict String UpstreamState → ℕ
count_in n m = count_name n (entries_in (entries_by_upstream m))

count_one :
    (n a : String) (m : Dict String UpstreamState) (x : UpstreamState)
    → lookup a m ≡ some x
    → count_name n x.entries ≤ count_in n m
unfolding lookup
count_one n a [] x h = absurd cc
count_one n a ((key, state) ∷ m) x h =
    let rest = entries_in (entries_by_upstream m) in
    let sum = count-append n state.entries rest in
    elim (Bool-cases (key == a)) [
      | inl here ↦
          let e : some state ≡ some x = rw here at h in
          let same = ap (λ s. count_name n s.entries) (some-injective e) in omega (arith, sum, same)
      | inr there ↦ let less = count_one n a m x (rw there at h) in omega (arith, sum, less)
    ]

-- Two upstreams have entries of one name.
pub record Clash (a c n : String) (m : Dict String UpstreamState) : Type 0 where
  pub first : UpstreamState
  pub second : UpstreamState
  pub apart : (a == c) ≡ false
  pub at_first : lookup a m ≡ some first
  pub at_second : lookup c m ≡ some second
  pub in_first : 0 < count_name n first.entries
  pub in_second : 0 < count_name n second.entries

count_two :
    (n a c : String) (m : Dict String UpstreamState) (x y : UpstreamState)
    → (a == c) ≡ false
    → lookup a m ≡ some x
    → lookup c m ≡ some y
    → count_name n x.entries + count_name n y.entries ≤ count_in n m
unfolding lookup
count_two n a c [] x y apart h k = absurd cc
count_two n a c ((key, state) ∷ m) x y apart h k =
    let rest = entries_in (entries_by_upstream m) in
    let sum = count-append n state.entries rest in
    elim (Bool-cases (key == a)) [
      | inl here ↦
          let e : some state ≡ some x = rw here at h in
          let same = ap (λ s. count_name n s.entries) (some-injective e) in
          let off : (key == c) ≡ false = ground (arith, eq_iff key a, eq_iff key c, eq_iff a c) in
          let less = count_one n c m y (rw off at k) in omega (arith, sum, same, less)
      | inr there ↦ elim (Bool-cases (key == c)) [
        | inl here ↦
            let e : some state ≡ some y = rw here at k in
            let same = ap (λ s. count_name n s.entries) (some-injective e) in
            let less = count_one n a m x (rw there at h) in omega (arith, sum, same, less)
        | inr off ↦
            let less = count_two n a c m x y apart (rw there at h) (rw off at k) in
            omega (arith, sum, less)
      ]
    ]

Clash-same :
    (a c n : String) (m m' : Dict String UpstreamState)
    → lookup a m' ≡ lookup a m
    → lookup c m' ≡ lookup c m
    → Clash a c n m
    → Clash a c n m'
Clash-same a c n m m' h k x = record {
  first = x.first;
  second = x.second;
  apart = x.apart;
  at_first = h ∙ x.at_first;
  at_second = k ∙ x.at_second;
  in_first = x.in_first;
  in_second = x.in_second;
}

-- a failed removal restores every lookup
pub lookup-restored :
    (name key : String) (m : Dict String UpstreamState)
    → lookup key (restore name (lookup name m) (erase name m)) ≡ lookup key m
lookup-restored name key m = elim (Option-cases (lookup name m)) [
  | inl missing ↦ rw missing (elim (Bool-cases (name == key)) [
    | inl here ↦ ground (arith, lookup-erase name key m, eq_iff name key)
    | inr off ↦ ground (arith, lookup-erase name key m)
  ])
  | inr (state, there) ↦ rw there (
      ground (
        arith,
        lookup-erase name key m,
        lookup-insert name key state (erase name m),
        eq_iff name key,
      ))
]

module _ {S : Type 0} (ops : ServerOps S) (new_path : String → Option JsonPath)
    (a c n : String) where
  Clash-unbuilt :
      (separator : String) (m : Manager S) (r : Registry)
      → Clash a c n m.upstream_by_name
      → wanted ops new_path separator m ≡ ok r
      → ⊥
  Clash-unbuilt separator m r x h =
      let single = (new_from_entries-Holds new_path _ _ separator m.groups r h).single n in
      let two =
        count_two n a c m.upstream_by_name x.first x.second x.apart x.at_first x.at_second in
      absurd (omega (arith, single, two, x.in_first, x.in_second))

  abbrev pub Elsewhere : Change → Type 0
  Elsewhere ch = ((upstream_of ch == a) ≡ false) × ((upstream_of ch == c) ≡ false)

  abbrev Kept : Manager S → Manager S → Type 0
  Kept m m' =
      (m'.registry ≡ m.registry)
      × (m'.servers ≡ m.servers)
      × (m'.naming ≡ m.naming)
      × Clash a c n m'.upstream_by_name

  put-Clash :
      (name : String) (entries : List Entry) (root : Option ℕ) (m : Manager S)
      → (name == a) ≡ false
      → (name == c) ≡ false
      → Clash a c n m.upstream_by_name
      → Clash a c n (put ops new_path name entries root m).upstream_by_name
  put-Clash name entries root m na nc =
      let state : UpstreamState = record { entries = entries; spec_yaml_root = root } in
      Clash-same a c n _ _ (ground (arith, lookup-insert name a state m.upstream_by_name))
        (ground (arith, lookup-insert name c state m.upstream_by_name))

  dropped-Clash :
      (name : String) (m : Manager S)
      → (name == a) ≡ false
      → (name == c) ≡ false
      → Clash a c n m.upstream_by_name
      → Clash a c n (dropped ops new_path name m).upstream_by_name
  dropped-Clash name m na nc =
      Clash-same a c n _ _ (ground (arith, lookup-erase name a m.upstream_by_name))
        (ground (arith, lookup-erase name c m.upstream_by_name))

  own_failed :
      (separator : String) (m : Manager S) (entries : List Entry) (root : Option ℕ) (m' : Manager S)
      → Clash a c n (put ops new_path a entries root m).upstream_by_name
      → Changed ops new_path m separator (updated a entries root) m'
      → Kept m m'
  own_failed separator m entries root m' x (applied_update name es at r k) =
      absurd (Clash-unbuilt separator (put ops new_path a entries root m) r x k)
  own_failed separator m entries root m' x (failed_update name es at e k) = (refl, refl, refl, x)

  Changed-Kept :
      (separator : String) (m m' : Manager S) (ch : Change)
      → Elsewhere ch
      → Clash a c n m.upstream_by_name
      → Changed ops new_path m separator ch m'
      → Kept m m'
  Changed-Kept separator m m' ch (na, nc) x (applied_update name entries root r k) = absurd (
      Clash-unbuilt separator (put ops new_path name entries root m) r
        (put-Clash name entries root m na nc x) k)
  Changed-Kept separator m m' ch (na, nc) x (failed_update name entries root e k) =
      (refl, refl, refl, put-Clash name entries root m na nc x)
  Changed-Kept separator m m' ch (na, nc) x (applied_removal name r k) =
      absurd
        (Clash-unbuilt separator (dropped ops new_path name m) r (dropped-Clash name m na nc x) k)
  Changed-Kept separator m m' ch (na, nc) x (failed_removal name e k) = (
    refl,
    refl,
    refl,
    Clash-same a c n _ _ (lookup-restored name a m.upstream_by_name)
        (lookup-restored name c m.upstream_by_name) x,
  )

  run_changes-Kept :
      (separator : String) (cs : List Change) (m : Manager S)
      → m.naming ≡ some separator
      → All Elsewhere cs
      → Clash a c n m.upstream_by_name
      → Kept m (run_changes ops new_path cs m)
  unfolding run_changes
  run_changes-Kept separator [] m ready far x = (refl, refl, refl, x)
  run_changes-Kept separator (ch ∷ cs) m ready (f, far) x =
      let next = change ops new_path ch m in
      let (r, s, t, y) =
        Changed-Kept separator m next ch f x (change_ready ops new_path separator m ch ready) in
      let (r', s', t', y') = run_changes-Kept separator cs next (t ∙ ready) far y in
      (r' ∙ r, s' ∙ s, t' ∙ t, y')

  -- Where an update brings an upstream a name that another upstream has, the update fails, and then
  -- every update and every removal of a third upstream fails too: registry and servers stay as
  -- they were until one of the two is changed.
  pub failed_update_freezes :
      (separator : String) (m : Manager S) (entries : List Entry) (root : Option ℕ)
      (state : UpstreamState) (cs : List Change)
      → m.naming ≡ some separator
      → (a == c) ≡ false
      → lookup c m.upstream_by_name ≡ some state
      → 0 < count_name n entries
      → 0 < count_name n state.entries
      → All Elsewhere cs
      → ((run_changes ops new_path (updated a entries root ∷ cs) m).registry ≡ m.registry)
        × ((run_changes ops new_path (updated a entries root ∷ cs) m).servers ≡ m.servers)
  unfolding run_changes
  failed_update_freezes separator m entries root state cs ready apart at_c some_a some_c far =
      let started = put ops new_path a entries root m in
      let new_state : UpstreamState = record { entries = entries; spec_yaml_root = root } in
      let clash : Clash a c n started.upstream_by_name = record {
        first = new_state;
        second = state;
        apart = apart;
        at_first = ground (arith, lookup-insert a a new_state m.upstream_by_name, eq_iff a a);
        at_second = ground (arith, lookup-insert a c new_state m.upstream_by_name, at_c, apart);
        in_first = some_a;
        in_second = some_c;
      } in
      let next = change ops new_path (updated a entries root) m in
      let (r, s, t, y) =
        own_failed separator m entries root next clash
          (change_ready ops new_path separator m (updated a entries root) ready) in
      let (r', s', t', y') = run_changes-Kept separator cs next (t ∙ ready) far y in
      (r' ∙ r, s' ∙ s)
