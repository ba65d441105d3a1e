-- ===== src/Upstreams/Registry/Success.antt =====
-- When registering entries succeeds.
use go_auto_mcp.Prelude.{
  ℕ, ◌≤◌, ◌<◌, String, ◌≡◌, refl, none, List, [], ◌∷◌, ◌++◌, string_eq, Dict, lookup, insert,
  lookup-insert, ok, arith, eq_iff, ◌↔◌, Option,
}
use go_auto_mcp.Upstreams.Registry.{
  Entry, Registry, JsonPath, Group, register, register_all, add_entry, set_entries, compile_filters,
  new_from_entries, empty_registry, with_groups, sources,
}
use go_auto_mcp.Upstreams.Registry.Names.{
  find_entry, new_from_entries-Holds, count_name, entries_in, count-append, register-Registered,
}

-- the names of `es` are unique and not taken yet
record Fits (es : List Entry) (names : Dict String Entry) : Type 0 where
  single : (name : String) → count_name name es ≤ 1
  fresh : (name : String) → 0 < count_name name es → lookup name names ≡ none

Fits-tail :
    (e : Entry) (es : List Entry) (names : Dict String Entry)
    → Fits (e ∷ es) names
    → Fits es (insert e.prefixed_name e names)
Fits-tail e es names h = record {
  single = λ name. ground (arith, h.single name);
  fresh = λ name k. ground (
    arith,
    h.single name,
    h.fresh name,
    lookup-insert e.prefixed_name name e names,
    eq_iff e.prefixed_name name,
  );
}

Fits-head :
    (e : Entry) (es : List Entry) (names : Dict String Entry)
    → Fits (e ∷ es) names
    → lookup e.prefixed_name names ≡ none
Fits-head e es names h =
    ground (arith, h.fresh e.prefixed_name, eq_iff e.prefixed_name e.prefixed_name)

register_total :
    (es : List Entry) (r : Registry)
    → Fits es r.by_prefixed_name
    → (r' : Registry) × (register es r ≡ ok r')
unfolding register add_entry
register_total [] r h = (r, refl)
register_total (e ∷ es) r h =
    rw (Fits-head e es r.by_prefixed_name h, register)
      (register_total es (add_entry e r) (Fits-tail e es r.by_prefixed_name h))

Fits-left : (es fs : List Entry) (names : Dict String Entry) → Fits (es ++ fs) names → Fits es names
Fits-left es fs names h = record {
  single = λ name. omega (arith, h.single name, count-append name es fs);
  fresh = λ name k. h.fresh name (omega (arith, count-append name es fs));
}

Fits-right :
    (es fs : List Entry) (names names' : Dict String Entry)
    → Fits (es ++ fs) names
    → ((name : String) → count_name name es ≡ 0 → lookup name names' ≡ lookup name names)
    → Fits fs names'
Fits-right es fs names names' h same = record {
  single = λ name. omega (arith, h.single name, count-append name es fs);
  fresh = λ name k.
      let e : count_name name es ≡ 0 = omega (arith, h.single name, count-append name es fs) in
      rw (same name e) (h.fresh name (omega (arith, count-append name es fs)));
}

find_entry-none :
    (name : String) (es : List Entry) → count_name name es ≡ 0 → find_entry name es ≡ none
find_entry-none name [] h = refl
find_entry-none name (e ∷ es) h = ground (arith, find_entry-none name es)

register_all_total :
    (m : Dict String (List Entry)) (r : Registry)
    → Fits (entries_in m) r.by_prefixed_name
    → (r' : Registry) × (register_all m r ≡ ok r')
unfolding register_all
register_all_total [] r h = (r, refl)
register_all_total ((name, es) ∷ m) r h =
    let start = set_entries name es r in
    let (mid, first) = register_total es start (Fits-left es (entries_in m) r.by_prefixed_name h) in
    let a = register-Registered es start mid first in
    rw first (
      register_all_total m mid (
        Fits-right es (entries_in m) r.by_prefixed_name mid.by_prefixed_name h
          (λ n k. ground (arith, a.found n, find_entry-none n es k))))

module _ (new_path : String → Option JsonPath) where
  -- With filters that compile, NewFromEntries succeeds exactly where no tool name occurs twice.
  pub new_from_entries_ok_iff :
      (entries : Dict String (List Entry)) (roots : Dict String (Option ℕ)) (separator : String)
      (groups : List Group) (filters : Dict String JsonPath)
      → compile_filters new_path [] groups ≡ ok filters
      → ((r : Registry) × (new_from_entries new_path entries roots separator groups ≡ ok r))
        ↔ ((name : String) → count_name name (entries_in entries) ≤ 1)
  new_from_entries_ok_iff entries roots separator groups filters compiled = (
    λ (r, h). (new_from_entries-Holds new_path entries roots separator groups r h).single,
    λ unique.
        let start = record (empty_registry separator) { spec_root_by_name = roots } in
        let (mid, first) =
          register_all_total entries start
            (record { single = unique; fresh = λ name k. unfold lookup in refl }) in
        (
          with_groups filters (sources roots entries) groups mid,
          unfold new_from_entries in rw (first, compiled) refl,
        ),
  )
