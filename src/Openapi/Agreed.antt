-- ===== src/Openapi/Agreed.antt =====
-- pkg/openapi/inputschema.go: the argument names of the executor are those of the input schema.
use go_auto_mcp.Prelude.{
  ℕ, ◌≡◌, refl, sym, ap, ◌∙◌, Bool, true, false, Option, none, some, List, [], ◌∷◌, ◌++◌, map, Text,
  text_eq, nat_eq, ◌==◌, Dict, lookup, contains, keys, contains-keys-insert, if◌then◌else◌, arith,
  Bool-cases, inl, inr,
}
use mathlib.Core.Path.{subst}
use mathlib.Core.List.{Memᴰ, map-append}
use go_auto_mcp.Openapi.{Location, body, ApiSchema, Parameter, BodySchema, Operation}
use go_auto_mcp.Openapi.Arguments.{
  Occurrence, occurrences, parameter_occurrences, property_occurrences, body_occurrences, cons_at,
  location_of, or_nil, collect, renamed, derive_arg_mapping, arg_name,
}
use go_auto_mcp.Openapi.Schema.{
  Entry, entries, parameter_entries, property_entries, body_entries, cons_entry, InputSchema,
  add_property, add_renamed, add_name, add_names, derive_input_schema,
}
use go_auto_mcp.Openapi.Collected.{
  values_at, count_named, or_nil-collect, Mem-values_at, size, size-values_at,
}
use go_auto_mcp.Openapi.Named.{arg_name-derive_arg_mapping}

abbrev resolved : List (Text × Option ApiSchema) → Bool
resolved [] = true
resolved ((name, none) ∷ ps) = false
resolved ((name, some v) ∷ ps) = resolved ps

-- every property of the body has a schema that its reference leads to
abbrev pub body_resolved : Option BodySchema → Bool
body_resolved none = true
body_resolved (some b) = resolved b.properties

abbrev occurrence : Entry × Text → Occurrence
occurrence (e, name) = (e.source, name)

occurrence-cons_entry :
    (o : Option Location) (p : Parameter) (es : List (Entry × Text))
    → map occurrence (cons_entry o p es) ≡ cons_at o p.name (map occurrence es)
occurrence-cons_entry none p es = refl
occurrence-cons_entry (some l) p es = refl

parameters_agree :
    (ps : List (Option Parameter))
    → map occurrence (parameter_entries ps) ≡ parameter_occurrences ps
unfolding parameter_entries parameter_occurrences
parameters_agree [] = refl
parameters_agree (none ∷ ps) = parameters_agree ps
parameters_agree (some p ∷ ps) =
    occurrence-cons_entry (location_of p.place) p (parameter_entries ps)
    ∙ ap (cons_at (location_of p.place) p.name) (parameters_agree ps)

properties_agree :
    (required : List Text) (ps : List (Text × Option ApiSchema))
    → resolved ps ≡ true
    → map occurrence (property_entries required ps) ≡ property_occurrences ps
unfolding property_entries
properties_agree required [] h = refl
properties_agree required ((name, none) ∷ ps) h = absurd cc
properties_agree required ((name, some v) ∷ ps) h =
    ap (λ os. (body, name) ∷ os) (properties_agree required ps h)

bodies_agree :
    (b : Option BodySchema)
    → body_resolved b ≡ true
    → map occurrence (body_entries b) ≡ body_occurrences b
bodies_agree none h = refl
bodies_agree (some b) h = properties_agree b.required b.properties h

entries_agree :
    (op : Operation)
    → body_resolved op.json_body ≡ true
    → map occurrence (entries op) ≡ occurrences op
unfolding entries occurrences
entries_agree op h =
    map-append occurrence (parameter_entries op.parameters) (body_entries op.json_body)
    ∙ (ap (λ os. os ++ map occurrence (body_entries op.json_body)) (parameters_agree op.parameters)
        ∙ ap (λ os. parameter_occurrences op.parameters ++ os) (bodies_agree op.json_body h))

count-map :
    (name : Text) (es : List (Entry × Text))
    → count_named name (map occurrence es) ≡ count_named name es
count-map name [] = refl
count-map name ((e, n) ∷ es) = ground (arith, count-map name es)

entry_of :
    (l : Location) (name : Text) (es : List (Entry × Text))
    → Memᴰ (l, name) (map occurrence es)
    → (e : Entry) × (Memᴰ (e, name) es × (e.source ≡ l))
entry_of l name [] at = elim at [ ]
entry_of l name ((e, n) ∷ es) (Memᴰ.head here) =
    (e, (Memᴰ.head (ap (λ o. (e, o.1)) here), ap (λ o. o.0) (sym here)))
entry_of l name ((e, n) ∷ es) (Memᴰ.tail later) =
    let (e', (at, same)) = entry_of l name es later in (e', (Memᴰ.tail at, same))

abbrev Has : Text → InputSchema → Type 0
Has key s = contains key (keys s.properties) ≡ true

add_property_kept :
    (key at : Text) (e : Entry) (s : InputSchema) → Has at s → Has at (add_property key e s)
add_property_kept key at e s h =
    ground (arith, contains-keys-insert key at e.prop_schema s.properties)

add_property-Has : (key : Text) (e : Entry) (s : InputSchema) → Has key (add_property key e s)
add_property-Has key e s =
    ground (arith, contains-keys-insert key key e.prop_schema s.properties, text_eq.beq_iff key key)

add_renamed_kept :
    (name at : Text) (es : List Entry) (s : InputSchema) → Has at s → Has at (add_renamed name es s)
add_renamed_kept name at [] s h = h
add_renamed_kept name at (e ∷ es) s h =
    add_renamed_kept name at es (add_property (renamed e.source name) e s)
      (add_property_kept (renamed e.source name) at e s h)

add_name_kept :
    (name at : Text) (es : List Entry) (s : InputSchema) → Has at s → Has at (add_name name es s)
add_name_kept name at [] s h = h
add_name_kept name at (e ∷ []) s h = add_property_kept name at e s h
add_name_kept name at (e ∷ (e' ∷ es)) s h = add_renamed_kept name at (e ∷ (e' ∷ es)) s h

add_names_kept :
    (at : Text) (names : Dict Text (List Entry)) (s : InputSchema)
    → Has at s
    → Has at (add_names names s)
unfolding add_names
add_names_kept at [] s h = h
add_names_kept at ((n, es) ∷ names) s h =
    add_names_kept at names (add_name n es s) (add_name_kept n at es s h)

add_renamed-Has :
    (name : Text) (e : Entry) (es : List Entry) (s : InputSchema)
    → Memᴰ e es
    → Has (renamed e.source name) (add_renamed name es s)
add_renamed-Has name e [] s at = elim at [ ]
add_renamed-Has name e (x ∷ es) s (Memᴰ.head here) =
    add_renamed_kept name (renamed e.source name) es (add_property (renamed x.source name) x s) (
      subst (λ y. Has (renamed y.source name) (add_property (renamed x.source name) x s)) (sym here)
        (add_property-Has (renamed x.source name) x s))
add_renamed-Has name e (x ∷ es) s (Memᴰ.tail later) =
    add_renamed-Has name e es (add_property (renamed x.source name) x s) later

abbrev key_of : Text → ℕ → Location → Text
key_of name n l = if n == 1 then name else renamed l name

add_name-Has :
    (name : Text) (e : Entry) (es : List Entry) (s : InputSchema)
    → Memᴰ e es
    → Has (key_of name (size es) e.source) (add_name name es s)
add_name-Has name e [] s at = elim at [ ]
add_name-Has name e (x ∷ []) s at = add_property-Has name x s
add_name-Has name e (x ∷ (y ∷ es)) s at =
    let key : key_of name (size (x ∷ (y ∷ es))) e.source ≡ renamed e.source name = ground arith in
    subst (λ t. Has t (add_renamed name (x ∷ (y ∷ es)) s)) (sym key)
      (add_renamed-Has name e (x ∷ (y ∷ es)) s at)

add_names-Has :
    (name : Text) (e : Entry) (found : List Entry) (names : Dict Text (List Entry))
    (s : InputSchema)
    → or_nil (lookup name names) ≡ found
    → Memᴰ e found
    → Has (key_of name (size found) e.source) (add_names names s)
unfolding add_names lookup
add_names-Has name e [] [] s is at = elim at [ ]
add_names-Has name e (x ∷ xs) [] s is at = absurd cc
add_names-Has name e found ((n, es) ∷ names) s is at = elim (Bool-cases (n == name)) [
  | inl same ↦
      let here : n ≡ name = (text_eq.beq_iff n name).0 same in
      let there : or_nil (lookup name ((n, es) ∷ names)) ≡ es = simp same in
      add_names_kept (key_of name (size found) e.source) names (add_name n es s) (
        subst (λ k. Has (key_of name (size found) e.source) (add_name k es s)) (sym here)
          (subst (λ f. Has (key_of name (size found) e.source) (add_name name f s))
            (sym (sym there ∙ is)) (add_name-Has name e found s at)))
  | inr other ↦
      let later : or_nil (lookup name ((n, es) ∷ names)) ≡ or_nil (lookup name names) =
        simp other in
      add_names-Has name e found names (add_name n es s) (sym later ∙ is) at
]

-- If the properties of the body resolve, then the name under which an argument is read is a
-- property of the input schema.
pub arg_name-Has :
    (op : Operation) (l : Location) (name : Text)
    → body_resolved op.json_body ≡ true
    → Memᴰ (l, name) (occurrences op)
    → contains (arg_name (derive_arg_mapping op) l name) (keys (derive_input_schema op).properties)
      ≡ true
unfolding derive_input_schema lookup
arg_name-Has op l name h at =
    let es = entries op in
    let agree = entries_agree op h in
    let (e, (given, there)) = entry_of l name es (subst (λ os. Memᴰ (l, name) os) (sym agree) at) in
    let counted : size (values_at name es) ≡ count_named name (occurrences op) =
      size-values_at name es ∙ (sym (count-map name es) ∙ ap (count_named name) agree) in
    let key : key_of name (size (values_at name es)) e.source
        ≡ arg_name (derive_arg_mapping op) l name =
      ap (λ n. key_of name n e.source) counted
      ∙ (ap (key_of name (count_named name (occurrences op))) there
          ∙ sym (arg_name-derive_arg_mapping op l name at)) in
    subst (λ t. Has t (derive_input_schema op)) key
      (add_names-Has name e (values_at name es) (collect es [])
        (record { properties = []; required = [] }) (or_nil-collect name es [])
        (Mem-values_at e name es given))
