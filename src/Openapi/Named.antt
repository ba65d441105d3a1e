-- ===== src/Openapi/Named.antt =====
-- pkg/openapi/inputschema.go, DeriveArgMapping: the name of each argument.
use go_auto_mcp.Prelude.{
  ℕ, zero, suc, ◌≡◌, refl, sym, ap, ◌∙◌, true, false, some, List, [], ◌∷◌, Text, text_eq, nat_eq,
  ◌==◌, Dict, lookup, insert, lookup-insert, contains, Distinct, keys, if◌then◌else◌, arith,
  Bool-cases, inl, inr,
}
use mathlib.Core.List.{Memᴰ}
use go_auto_mcp.Openapi.{Location, path, query, header, body, Operation}
use go_auto_mcp.Openapi.Arguments.{
  Occurrence, occurrences, or_nil, collect, arg_key, renamed, ArgMapping, rename_all, map_name,
  map_names, derive_arg_mapping, or_name, arg_name,
}
use go_auto_mcp.Openapi.Collected.{
  values_at, count_named, or_nil-collect, collect-Distinct, Mem-values_at, size, size-values_at,
}

-- the location and the name that a key was made from
abbrev key_location : Text → Location
key_location [] = body
key_location (c ∷ cs) =
    if c == 112 then path else if c == 113 then query else if c == 104 then header else body

abbrev skip : ℕ → Text → Text
skip zero t = t
skip (suc n) [] = []
skip (suc n) (c ∷ t) = skip n t

key_location-arg_key : (l : Location) (a : Text) → key_location (arg_key l a) ≡ l
key_location-arg_key path a = refl
key_location-arg_key query a = refl
key_location-arg_key header a = refl
key_location-arg_key body a = refl

same_location : (l l' : Location) (a b : Text) → arg_key l a ≡ arg_key l' b → l ≡ l'
same_location l l' a b h =
    sym (key_location-arg_key l a) ∙ (ap key_location h ∙ key_location-arg_key l' b)

same_name : (l : Location) (a b : Text) → arg_key l a ≡ arg_key l b → a ≡ b
same_name path a b h = ap (skip 5) h
same_name query a b h = ap (skip 6) h
same_name header a b h = ap (skip 7) h
same_name body a b h = ap (skip 5) h

same_names : (l l' : Location) (a b : Text) → arg_key l a ≡ arg_key l' b → a ≡ b
same_names l l' a b h =
    let e = same_location l l' a b h in same_name l a b (h ∙ ap (λ x. arg_key x b) (sym e))

-- the name that `map_name` gives to an argument
abbrev chosen : Text → List Location → Location → Text
chosen name [] l = name
chosen name (x ∷ []) l = name
chosen name (x ∷ (y ∷ ls)) l = renamed l name

other_key : (l x : Location) (a b : Text) → (b == a) ≡ false → (arg_key x b == arg_key l a) ≡ false
other_key l x a b h = elim (Bool-cases (arg_key x b == arg_key l a)) [
  | inl same ↦
      let e : b ≡ a = same_names x l b a ((text_eq.beq_iff (arg_key x b) (arg_key l a)).0 same) in
      let t : (b == a) ≡ true = (text_eq.beq_iff b a).1 e in absurd cc
  | inr other ↦ other
]

same_key : (l x : Location) (a : Text) → (arg_key x a == arg_key l a) ≡ true → x ≡ l
same_key l x a h = same_location x l a a ((text_eq.beq_iff (arg_key x a) (arg_key l a)).0 h)

rename_other :
    (l : Location) (a name : Text) (ls : List Location) (m : ArgMapping)
    → (name == a) ≡ false
    → lookup (arg_key l a) (rename_all name ls m) ≡ lookup (arg_key l a) m
rename_other l a name [] m h = refl
rename_other l a name (x ∷ ls) m h =
    rename_other l a name ls (insert (arg_key x name) (renamed x name) m) h
    ∙ lookup-insert (arg_key x name) (arg_key l a) (renamed x name) m
    ∙ simp (other_key l x a name h)

put_kept :
    (l x : Location) (name : Text) (m : ArgMapping)
    → lookup (arg_key l name) m ≡ some (renamed l name)
    → lookup (arg_key l name) (insert (arg_key x name) (renamed x name) m) ≡ some (renamed l name)
put_kept l x name m h =
    let at = lookup-insert (arg_key x name) (arg_key l name) (renamed x name) m in
    elim (Bool-cases (arg_key x name == arg_key l name)) [
      | inl same ↦ at ∙ ((simp same) ∙ ap (λ y. some (renamed y name)) (same_key l x name same))
      | inr other ↦ at ∙ ((simp other) ∙ h)
    ]

put_same :
    (l x : Location) (name new : Text) (m : ArgMapping)
    → l ≡ x
    → lookup (arg_key l name) (insert (arg_key x name) new m) ≡ some new
put_same l x name new m e =
    let same : (arg_key x name == arg_key l name) ≡ true =
      (text_eq.beq_iff (arg_key x name) (arg_key l name)).1 (ap (λ y. arg_key y name) (sym e)) in
    lookup-insert (arg_key x name) (arg_key l name) new m ∙ simp same

rename_kept :
    (l : Location) (name : Text) (ls : List Location) (m : ArgMapping)
    → lookup (arg_key l name) m ≡ some (renamed l name)
    → lookup (arg_key l name) (rename_all name ls m) ≡ some (renamed l name)
rename_kept l name [] m h = h
rename_kept l name (x ∷ ls) m h =
    rename_kept l name ls (insert (arg_key x name) (renamed x name) m) (put_kept l x name m h)

rename_mem :
    (l : Location) (name : Text) (ls : List Location) (m : ArgMapping)
    → Memᴰ l ls
    → lookup (arg_key l name) (rename_all name ls m) ≡ some (renamed l name)
rename_mem l name [] m at = elim at [ ]
rename_mem l name (x ∷ ls) m (Memᴰ.head here) =
    rename_kept l name ls (insert (arg_key x name) (renamed x name) m)
      (put_same l x name (renamed x name) m here ∙ ap (λ y. some (renamed y name)) (sym here))
rename_mem l name (x ∷ ls) m (Memᴰ.tail later) =
    rename_mem l name ls (insert (arg_key x name) (renamed x name) m) later

map_name_other :
    (l : Location) (a name : Text) (ls : List Location) (m : ArgMapping)
    → (name == a) ≡ false
    → lookup (arg_key l a) (map_name name ls m) ≡ lookup (arg_key l a) m
map_name_other l a name [] m h = refl
map_name_other l a name (x ∷ []) m h =
    lookup-insert (arg_key x name) (arg_key l a) name m ∙ simp (other_key l x a name h)
map_name_other l a name (x ∷ (y ∷ ls)) m h = rename_other l a name (x ∷ (y ∷ ls)) m h

map_name_mem :
    (l : Location) (name : Text) (ls : List Location) (m : ArgMapping)
    → Memᴰ l ls
    → lookup (arg_key l name) (map_name name ls m) ≡ some (chosen name ls l)
map_name_mem l name [] m at = elim at [ ]
map_name_mem l name (x ∷ []) m (Memᴰ.head here) = put_same l x name name m here
map_name_mem l name (x ∷ []) m (Memᴰ.tail later) = elim later [ ]
map_name_mem l name (x ∷ (y ∷ ls)) m at = rename_mem l name (x ∷ (y ∷ ls)) m at

map_names_other :
    (l : Location) (name : Text) (names : Dict Text (List Location)) (m : ArgMapping)
    → contains name (keys names) ≡ false
    → lookup (arg_key l name) (map_names names m) ≡ lookup (arg_key l name) m
unfolding map_names contains
map_names_other l name [] m h = refl
map_names_other l name ((n, ls) ∷ names) m h =
    map_names_other l name names (map_name n ls m) (ground arith)
    ∙ map_name_other l name n ls m (ground arith)

map_names_mem :
    (l : Location) (name : Text) (found : List Location) (names : Dict Text (List Location))
    (m : ArgMapping)
    → Distinct (keys names)
    → or_nil (lookup name names) ≡ found
    → Memᴰ l found
    → lookup (arg_key l name) (map_names names m) ≡ some (chosen name found l)
unfolding map_names lookup
map_names_mem l name [] [] m h is at = elim at [ ]
map_names_mem l name (x ∷ xs) [] m h is at = absurd cc
map_names_mem l name found ((n, ls) ∷ names) m h is at = elim (Bool-cases (n == name)) [
  | inl same ↦
      let e : n ≡ name = (text_eq.beq_iff n name).0 same in
      let there : or_nil (lookup name ((n, ls) ∷ names)) ≡ ls = simp same in
      let absent : contains name (keys names) ≡ false =
        ap (λ k. contains k (keys names)) (sym e) ∙ h.0 in
      map_names_other l name names (map_name n ls m) absent
      ∙ (ap (λ k. lookup (arg_key l name) (map_name k ls m)) e
          ∙ (ap (λ k. lookup (arg_key l name) (map_name name k m)) (sym there ∙ is)
              ∙ map_name_mem l name found m at))
  | inr other ↦
      let later : or_nil (lookup name ((n, ls) ∷ names)) ≡ or_nil (lookup name names) =
        simp other in
      map_names_mem l name found names (map_name n ls m) h.1 (sym later ∙ is) at
]

chosen-size :
    (l : Location) (name : Text) (ls : List Location)
    → Memᴰ l ls
    → chosen name ls l ≡ (if size ls == 1 then name else renamed l name)
chosen-size l name [] at = elim at [ ]
chosen-size l name (x ∷ []) at = refl
chosen-size l name (x ∷ (y ∷ ls)) at = ground arith

chosen-values_at :
    (l : Location) (name : Text) (os : List Occurrence)
    → Memᴰ l (values_at name os)
    → chosen name (values_at name os) l
      ≡ (if count_named name os == 1 then name else renamed l name)
chosen-values_at l name os at =
    chosen-size l name (values_at name os) at
    ∙ ap (λ k. if k == 1 then name else renamed l name) (size-values_at name os)

-- An argument has its own name if that occurs once in the parameters and the body of the
-- operation, and else the one with its location.
pub arg_name-derive_arg_mapping :
    (op : Operation) (l : Location) (name : Text)
    → Memᴰ (l, name) (occurrences op)
    → arg_name (derive_arg_mapping op) l name
      ≡ (if count_named name (occurrences op) == 1 then name else renamed l name)
unfolding derive_arg_mapping arg_name lookup
arg_name-derive_arg_mapping op l name at =
    let os = occurrences op in
    let at' = Mem-values_at l name os at in
    ap (or_name name) (
      map_names_mem l name (values_at name os) (collect os []) [] (collect-Distinct os [] tt)
        (or_nil-collect name os []) at')
    ∙ chosen-values_at l name os at'
