-- ===== src/Upstreams/Registry/Names.antt =====
-- Tool names in a registry, and what they are looked up to.
use go_auto_mcp.Prelude.{
  ℕ, ◌+◌, ◌≤◌, ◌<◌, String, ◌≡◌, refl, sym, ap, ◌∙◌, Option, none, some, List, [], ◌∷◌, ◌++◌, map,
  string_eq, ◌==◌, Dict, lookup, insert, lookup-insert, ok, >>=-eq-ok, ok-injective, err-ne-ok,
  if◌then◌else◌, arith, eq_iff, Option-cases, inl, inr,
}
use mathlib.Core.Path.{subst}
use mathlib.Core.List.{append_assoc, append-nil, map-append}
use go_auto_mcp.Upstreams.Registry.{
  Entry, Tool, ValidatedUpstream, Group, Registry, JsonPath, add_entry, add_new_entry, register,
  register_all, register_new, register_all_new, new, new_from_entries, empty_registry, set_root,
  set_entries, with_groups, sources, check_prefixes, compile_filters,
}
use go_auto_mcp.Upstreams.Registry.Calls.{entry_for_tool}

-- the first entry of a name
abbrev pub find_entry : String → List Entry → Option Entry
find_entry name [] = none
find_entry name (e ∷ es) = if e.prefixed_name == name then some e else find_entry name es

abbrev pub count_name : String → List Entry → ℕ
count_name name [] = 0
count_name name (e ∷ es) = (if e.prefixed_name == name then 1 else 0) + count_name name es

abbrev pub or_else : Option Entry → Option Entry → Option Entry
or_else none o = o
or_else (some e) o = some e

abbrev pub tools_of : List Entry → List Tool
tools_of = map (λ e. e.mcp_tool)

pub count-append :
    (name : String) (es fs : List Entry)
    → count_name name (es ++ fs) ≡ count_name name es + count_name name fs
count-append name [] fs = omega arith
count-append name (e ∷ es) fs = omega (arith, count-append name es fs)

find-append :
    (name : String) (es fs : List Entry)
    → find_entry name (es ++ fs) ≡ or_else (find_entry name es) (find_entry name fs)
find-append name [] fs = refl
find-append name (e ∷ es) fs = ground (arith, find-append name es fs)

-- a name that is not there is not found, and one that is there is found
pub find_absent :
    (name : String) (es : List Entry) → find_entry name es ≡ none → count_name name es ≡ 0
find_absent name [] h = refl
find_absent name (e ∷ es) h = ground (arith, find_absent name es)

-- What registering `es` does to the name map and the tool list.
pub record Registered (es : List Entry) (names : Dict String Entry) (tools : List Tool)
    (names' : Dict String Entry) (tools' : List Tool) : Type 0 where
  pub single : (name : String) → count_name name es ≤ 1
  pub fresh : (name : String) → 0 < count_name name es → lookup name names ≡ none
  pub found :
      (name : String) → lookup name names' ≡ or_else (lookup name names) (find_entry name es)
  pub listed : tools' ≡ tools ++ tools_of es

abbrev RegisteredIn : List Entry → Registry → Registry → Type 0
RegisteredIn es r r' = Registered es r.by_prefixed_name r.tool_list r'.by_prefixed_name r'.tool_list

Registered-nil :
    (names : Dict String Entry) (tools : List Tool) → Registered [] names tools names tools
Registered-nil names tools = record {
  single = λ name. omega arith;
  fresh = λ name h. absurd (omega arith);
  found = λ name. ground arith;
  listed = sym (append-nil tools);
}

module _ (names names' names'' : Dict String Entry) (tools tools' tools'' : List Tool) where
  Registered-append :
      (es fs : List Entry)
      → Registered es names tools names' tools'
      → Registered fs names' tools' names'' tools''
      → Registered (es ++ fs) names tools names'' tools''
  Registered-append es fs a b = record {
    single = λ name. ground (
      arith,
      count-append name es fs,
      a.single name,
      b.single name,
      a.found name,
      b.fresh name,
      find_absent name es,
    );
    fresh =
        λ name h. ground (arith, count-append name es fs, a.fresh name, b.fresh name, a.found name);
    found = λ name. ground (arith, find-append name es fs, a.found name, b.found name);
    listed =
        b.listed
        ∙ ap (λ l. l ++ tools_of fs) a.listed
        ∙ append_assoc tools (tools_of es) (tools_of fs)
        ∙ ap (λ l. tools ++ l) (sym (map-append (λ (e : Entry). e.mcp_tool) es fs));
  }

Registered-one :
    (e : Entry) (names : Dict String Entry) (tools : List Tool)
    → lookup e.prefixed_name names ≡ none
    → Registered (e ∷ []) names tools (insert e.prefixed_name e names) (tools ++ (e.mcp_tool ∷ []))
Registered-one e names tools h = record {
  single = λ name. ground arith;
  fresh = λ name k. ground (arith, eq_iff e.prefixed_name name);
  found = λ name.
      ground (arith, eq_iff e.prefixed_name name, lookup-insert e.prefixed_name name e names);
  listed = refl;
}

pub register-Registered :
    (es : List Entry) (r r' : Registry) → register es r ≡ ok r' → RegisteredIn es r r'
unfolding register add_entry
register-Registered [] r r' h =
    subst (RegisteredIn [] r) (ok-injective h) (Registered-nil r.by_prefixed_name r.tool_list)
register-Registered (e ∷ es) r r' h =
    elim (Option-cases (lookup e.prefixed_name r.by_prefixed_name)) [
      | inl free ↦
          Registered-append _ _ _ _ _ _ (e ∷ []) es
            (Registered-one e r.by_prefixed_name r.tool_list free)
            (register-Registered es (add_entry e r) r' (rw (free, register) at h))
      | inr (old, taken) ↦ absurd (err-ne-ok (rw (taken, register) at h))
    ]

register_new-Registered :
    (up_name : String) (es : List Entry) (r r' : Registry)
    → register_new up_name es r ≡ ok r'
    → RegisteredIn es r r'
unfolding register_new add_new_entry add_entry
register_new-Registered up_name [] r r' h =
    subst (RegisteredIn [] r) (ok-injective h) (Registered-nil r.by_prefixed_name r.tool_list)
register_new-Registered up_name (e ∷ es) r r' h =
    elim (Option-cases (lookup e.prefixed_name r.by_prefixed_name)) [
      | inl free ↦
          Registered-append _ _ _ _ _ _ (e ∷ []) es
            (Registered-one e r.by_prefixed_name r.tool_list free)
            (register_new-Registered up_name es (add_new_entry up_name e r) r'
              (rw (free, register_new) at h))
      | inr (old, taken) ↦ absurd (err-ne-ok (rw (taken, register_new) at h))
    ]

-- all entries, in the order in which they are visited
abbrev pub entries_in : Dict String (List Entry) → List Entry
entries_in [] = []
entries_in ((name, es) ∷ m) = es ++ entries_in m

abbrev pub all_entries : List ValidatedUpstream → List Entry
all_entries [] = []
all_entries (vu ∷ vus) = vu.entries ++ all_entries vus

register_all-Registered :
    (m : Dict String (List Entry)) (r r' : Registry)
    → register_all m r ≡ ok r'
    → RegisteredIn (entries_in m) r r'
unfolding register_all
register_all-Registered [] r r' h =
    subst (RegisteredIn [] r) (ok-injective h) (Registered-nil r.by_prefixed_name r.tool_list)
register_all-Registered ((name, es) ∷ m) r r' h =
    let (mid, first, rest) = >>=-eq-ok (register es (set_entries name es r)) (register_all m) h in
    Registered-append _ _ _ _ _ _ es (entries_in m)
      (register-Registered es (set_entries name es r) mid first)
      (register_all-Registered m mid r' rest)

register_all_new-Registered :
    (vus : List ValidatedUpstream) (r r' : Registry)
    → register_all_new vus r ≡ ok r'
    → RegisteredIn (all_entries vus) r r'
unfolding register_all_new
register_all_new-Registered [] r r' h =
    subst (RegisteredIn [] r) (ok-injective h) (Registered-nil r.by_prefixed_name r.tool_list)
register_all_new-Registered (vu ∷ vus) r r' h =
    let start = set_root vu.name vu.spec_root r in
    let (mid, first, rest) =
      >>=-eq-ok (register_new vu.name vu.entries start) (register_all_new vus) h in
    Registered-append _ _ _ _ _ _ vu.entries (all_entries vus)
      (register_new-Registered vu.name vu.entries start mid first)
      (register_all_new-Registered vus mid r' rest)

-- A registry holds these entries: no two of one name, each found under its name, and the tools in
-- their order.
pub record Holds (es : List Entry) (r : Registry) : Type 0 where
  pub single : (name : String) → count_name name es ≤ 1
  pub found : (name : String) → entry_for_tool r name ≡ find_entry name es
  pub listed : r.tool_list ≡ tools_of es

Holds-of_Registered :
    (es : List Entry) (names : Dict String Entry) (tools : List Tool) (r : Registry)
    → names ≡ []
    → tools ≡ []
    → Registered es names tools r.by_prefixed_name r.tool_list
    → Holds es r
unfolding entry_for_tool lookup
Holds-of_Registered es names tools r e f a = record {
  single = a.single;
  found = λ name. ground (arith, a.found name, ap (lookup name) e);
  listed = a.listed ∙ ap (λ l. l ++ tools_of es) f;
}

module _ (new_path : String → Option JsonPath) where
  -- Where NewFromEntries succeeds, no tool name occurs twice among all the entries, whatever the
  -- order in which the map was visited; each name is looked up to its entry; and the tools are
  -- listed in the order of the visit.
  pub new_from_entries-Holds :
      (entries : Dict String (List Entry)) (roots : Dict String (Option ℕ)) (separator : String)
      (groups : List Group) (r : Registry)
      → new_from_entries new_path entries roots separator groups ≡ ok r
      → Holds (entries_in entries) r
  unfolding new_from_entries
  new_from_entries-Holds entries roots separator groups r h =
      let start = record (empty_registry separator) { spec_root_by_name = roots } in
      let (mid, first, rest) = >>=-eq-ok (register_all entries start) _ h in
      let (filters, compiled, last) = >>=-eq-ok (compile_filters new_path [] groups) _ rest in
      let a = register_all-Registered entries start mid first in
      subst (Holds (entries_in entries)) (ok-injective last) (
        Holds-of_Registered (entries_in entries) [] []
          (with_groups filters (sources roots entries) groups mid) refl refl
          (record { single = a.single; fresh = a.fresh; found = a.found; listed = a.listed }))

  -- Where New succeeds, no tool name occurs twice among the entries of all upstreams; each name is
  -- looked up to its entry; and the tools are listed in the order of the upstreams.
  pub new-Holds :
      (vus : List ValidatedUpstream) (separator : String) (groups : List Group) (r : Registry)
      → new new_path vus separator groups ≡ ok r
      → Holds (all_entries vus) r
  unfolding new
  new-Holds vus separator groups r h =
      let start = empty_registry separator in
      let (u, checked, more) = >>=-eq-ok (check_prefixes [] vus) _ h in
      let (mid, first, rest) = >>=-eq-ok (register_all_new vus start) _ more in
      let (filters, compiled, last) = >>=-eq-ok (compile_filters new_path [] groups) _ rest in
      let a = register_all_new-Registered vus start mid first in
      subst (Holds (all_entries vus)) (ok-injective last) (
        Holds-of_Registered (all_entries vus) [] [] (with_groups filters vus groups mid) refl refl
          (record { single = a.single; fresh = a.fresh; found = a.found; listed = a.listed }))
