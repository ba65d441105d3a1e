-- ===== src/Openapi/Jq/Whole.antt =====
-- pkg/openapi/request_jq.go: jq reads the whole generated expression as the request that the
-- operation asks for.
use go_auto_mcp.Prelude.{
  ◌≡◌, refl, sym, ap, ◌∙◌, true, Option, none, some, List, [], ◌∷◌, ◌++◌, map, Text, codes, All,
  text_eq, text_beq, if◌then◌else◌, cut_prefix, cut_prefix-append, length, Bool-cases, inl, inr,
}
use mathlib.Core.List.{append_assoc}
use go_auto_mcp.Openapi.{path, query, header, body, ApiSchema, Parameter, Operation}
use go_auto_mcp.Openapi.Arguments.{ArgMapping, arg_name}
use go_auto_mcp.Openapi.Jq.{
  all_in_identifier, is_numeric, entry_text, path_entry, query_entry, header_entry, body_entry,
  placed, properties_of, commas, section_text, add_section, sections, generated,
  generate_request_jq,
}
use go_auto_mcp.Openapi.Jq.Read.{
  and_read, Value, field, text, text_unless_null, read_word, read_entry, read_members, titled,
  after_title, read_section, Sections, or_empty, read_expression,
}
use go_auto_mcp.Openapi.Jq.Names.{all_simple, word_ends, read_word-append}
use go_auto_mcp.Openapi.Jq.Values.{value_text, all_simple_in, read_entry-entry_text}
use go_auto_mcp.Openapi.Jq.Members.{read_every}

-- the key of an entry and the argument that it reads are simple
abbrev pub SimpleEntry : Text × Value → Type 0
SimpleEntry (k, v) = (all_simple k ≡ true) × (all_simple_in v ≡ true)

abbrev pub print_entry : Text × Value → Text
print_entry (k, v) = entry_text k (value_text v)

read_print :
    (e : Text × Value) (rest : Text)
    → SimpleEntry e
    → word_ends rest ≡ true
    → read_entry (print_entry e ++ rest) ≡ some (e, rest)
read_print (k, v) rest (h, g) ends = read_entry-entry_text k v rest h g ends

-- a title that is a word, with at least one entry
abbrev pub SimpleSection : Text × List (Text × Value) → Type 0
SimpleSection (title, []) = ⊥
SimpleSection (title, e ∷ es) = (all_in_identifier title ≡ true) × All SimpleEntry (e ∷ es)

abbrev pub written_entries : Text × List (Text × Value) → Text × List Text
written_entries (title, es) = (title, map print_entry es)

abbrev pub written_section : Text × List (Text × Value) → Text
written_section s = section_text (written_entries s)

read_section_print :
    (s : Text × List (Text × Value)) (rest : Text)
    → SimpleSection s
    → word_ends rest ≡ true
    → read_section (written_section s ++ rest) ≡ some (s, rest)
unfolding read_section word_ends
read_section_print (title, []) rest g ends = absurd g
read_section_print (title, e ∷ es) rest (word, all) ends =
    let members = commas (map print_entry (e ∷ es)) in
    let colon = codes ": {" in
    let s = members ++ (b'}' ∷ rest) in
    ap (λ t. after_title (read_word t)) (append_assoc title (colon ++ (members ++ codes "}")) rest)
    ∙ (ap after_title (read_word-append title (colon ++ ((members ++ codes "}") ++ rest)) word refl)
        ∙ (ap (λ t. after_title (title, colon ++ t)) (append_assoc members (codes "}") rest)
            ∙ (ap
                  (λ o.
                    and_read o
                      (λ r. and_read (read_members read_entry (length r) r) (titled title)))
                  (cut_prefix-append colon s)
                ∙ ap (λ o. and_read o (titled title))
                    (read_every read_entry print_entry SimpleEntry read_print e es rest all))))

read_generated :
    (ss : Sections)
    → All SimpleSection ss
    → read_expression (generated (map written_section ss)) ≡ some ss
unfolding read_expression cut_prefix text_beq
read_generated [] g = refl
read_generated (s ∷ ss) g =
    let members = commas (map written_section (s ∷ ss)) ++ codes "}" in
    ap (λ o. or_empty members o)
      (read_every read_section written_section SimpleSection read_section_print s ss [] g)

-- the request that an operation asks for, of the arguments that the mapping names
abbrev pub path_value : ArgMapping → Parameter → Text × Value
path_value m p = (p.name, text (arg_name m path p.name))

abbrev pub query_value : ArgMapping → Parameter → Text × Value
query_value m p =
    let argument = arg_name m query p.name in
    (
      p.name,
      if is_numeric p
          then (if p.required then text argument else text_unless_null argument)
          else field argument,
    )

abbrev pub header_value : ArgMapping → Parameter → Text × Value
header_value m p = (p.name, field (arg_name m header p.name))

abbrev pub body_value : ArgMapping → Text × Option ApiSchema → Text × Value
body_value m (name, schema) = (name, field (arg_name m body name))

unfoldable pub requested : Operation → ArgMapping → Sections
unfolding placed
requested op m =
    add_section (codes "path") (map (path_value m) (placed (codes "path") op.parameters)) (
      add_section (codes "query") (map (query_value m) (placed (codes "query") op.parameters)) (
        add_section (codes "body") (map (body_value m) (properties_of op.json_body)) (
          add_section (codes "headers")
            (map (header_value m) (placed (codes "header") op.parameters)) [])))

all_same :
    {X : Type 0} (f : X → Text × Value) (g : X → Text) (xs : List X)
    → ((x : X) → print_entry (f x) ≡ g x)
    → map print_entry (map f xs) ≡ map g xs
all_same f g [] same = refl
all_same f g (x ∷ xs) same = λ i. same x i ∷ all_same f g xs same i

add_section-map :
    {X : Type 0} (title : Text) (xs : List X) (f : X → Text × Value) (g : X → Text) (ss : Sections)
    (ts : List (Text × List Text))
    → ((x : X) → print_entry (f x) ≡ g x)
    → map written_entries ss ≡ ts
    → map written_entries (add_section title (map f xs) ss) ≡ add_section title (map g xs) ts
add_section-map title [] f g ss ts same h = h
add_section-map title (x ∷ xs) f g ss ts same h =
    λ i. (title, same x i ∷ all_same f g xs same i) ∷ h i

query_same : (m : ArgMapping) (p : Parameter) → print_entry (query_value m p) ≡ query_entry m p
unfolding value_text
query_same m p = elim (Bool-cases p.required) [
  | inl r ↦ elim (Bool-cases (is_numeric p)) [ inl n ↦ simp (r, n) | inr n ↦ simp (r, n) ]
  | inr r ↦ elim (Bool-cases (is_numeric p)) [ inl n ↦ simp (r, n) | inr n ↦ simp (r, n) ]
]

sections_same :
    (op : Operation) (m : ArgMapping) → map written_entries (requested op m) ≡ sections op m
unfolding requested sections value_text
sections_same op m =
    let ps = op.parameters in
    add_section-map (codes "path") (placed (codes "path") ps) (path_value m) (path_entry m) _ _
      (λ p. refl)
      (add_section-map (codes "query") (placed (codes "query") ps) (query_value m) (query_entry m) _
        _ (query_same m)
        (add_section-map (codes "body") (properties_of op.json_body) (body_value m) (body_entry m) _
          _ (λ b. refl)
          (add_section-map (codes "headers") (placed (codes "header") ps) (header_value m)
            (header_entry m) [] [] (λ p. refl) refl)))

-- all names of an operation, and those of its arguments, are simple
pub record SimpleNames (op : Operation) (m : ArgMapping) : Type 0 where
  pub paths : All SimpleEntry (map (path_value m) (placed (codes "path") op.parameters))
  pub queries : All SimpleEntry (map (query_value m) (placed (codes "query") op.parameters))
  pub bodies : All SimpleEntry (map (body_value m) (properties_of op.json_body))
  pub headers : All SimpleEntry (map (header_value m) (placed (codes "header") op.parameters))

add_section-Simple :
    (title : Text) (es : List (Text × Value)) (ss : Sections)
    → all_in_identifier title ≡ true
    → All SimpleEntry es
    → All SimpleSection ss
    → All SimpleSection (add_section title es ss)
add_section-Simple title [] ss word g h = h
add_section-Simple title (e ∷ es) ss word g h = ((word, g), h)

requested-Simple :
    (op : Operation) (m : ArgMapping) → SimpleNames op m → All SimpleSection (requested op m)
unfolding requested all_in_identifier
requested-Simple op m n = add_section-Simple (codes "path") _ _ refl n.paths (
    add_section-Simple (codes "query") _ _ refl n.queries (
      add_section-Simple (codes "body") _ _ refl n.bodies
        (add_section-Simple (codes "headers") _ _ refl n.headers tt)))

section_texts : (ss : Sections) → map section_text (map written_entries ss) ≡ map written_section ss
section_texts [] = refl
section_texts (s ∷ ss) = λ i. written_section s ∷ section_texts ss i

-- Where the names of an operation and of its arguments are printable ASCII without quotes and
-- backslashes, jq reads the generated expression as an object with a section for each place that
-- has a member, and in it a member for each parameter or property, which reads the argument that
-- the mapping gives it: a path parameter as text, a number in the query as text, and unless it is
-- required only if it is not null, and all else as it is.
pub read_expression-generate_request_jq :
    (op : Operation) (m : ArgMapping)
    → SimpleNames op m
    → read_expression (generate_request_jq none op m) ≡ some (requested op m)
unfolding generate_request_jq
read_expression-generate_request_jq op m n =
    ap (λ ts. read_expression (generated (map section_text ts))) (sym (sections_same op m))
    ∙ (ap (λ ts. read_expression (generated ts)) (section_texts (requested op m))
        ∙ read_generated (requested op m) (requested-Simple op m n))
