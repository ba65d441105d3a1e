-- ===== src/Openapi/Jq/Values.antt =====
-- pkg/openapi/request_jq.go: jq reads the generated values and entries as what they stand for.
use go_auto_mcp.Prelude.{
  ◌≡◌, refl, sym, ap, ◌∙◌, Bool, true, none, some, ◌∷◌, ◌++◌, Text, codes, text_eq, nat_eq, ◌==◌,
  beq_refl, if◌then◌else◌, cut_prefix, cut_prefix-append, Bool-cases, inl, inr,
}
use mathlib.Core.List.{append_assoc}
use go_auto_mcp.Openapi.Jq.{is_jq_identifier, jq_key, jq_access, as_text, unless_null, entry_text}
use go_auto_mcp.Openapi.Jq.Read.{
  and_read, same_again, conditional, texts, plain, after_key, with_key, read_key, read_access,
  Value, field, text, text_unless_null, read_value, read_entry,
}
use go_auto_mcp.Openapi.Jq.Names.{all_simple, word_ends, read_access-jq_access, read_key-jq_key}

-- every field starts with a dot
dot_first : (name : Text) → (s : Text) × (jq_access name ≡ b'.' ∷ s)
unfolding jq_access
dot_first name = elim (Bool-cases (is_jq_identifier name)) [
  | inl word ↦ (name, simp word)
  | inr other ↦ (codes "[\"" ++ (name ++ codes "\"]"), simp other)
]

read_field :
    (name rest : Text)
    → all_simple name ≡ true
    → word_ends rest ≡ true
    → read_value (jq_access name ++ rest) ≡ some (field name, rest)
unfolding read_value cut_prefix
read_field name rest h e =
    let (s, dot) = dot_first name in
    ap (λ t. read_value (t ++ rest)) dot
    ∙ (ap (λ t. and_read (read_access (t ++ rest)) plain) (sym dot)
        ∙ ap (λ o. and_read o plain) (read_access-jq_access name rest h e))

in_parentheses :
    (name rest : Text)
    → read_value (b'(' ∷ (jq_access name ++ rest))
      ≡ and_read (read_access (jq_access name ++ rest)) texts
unfolding read_value cut_prefix
in_parentheses name rest =
    let (s, dot) = dot_first name in
    ap (λ t. read_value (b'(' ∷ (t ++ rest))) dot
    ∙ ap (λ t. and_read (read_access (t ++ rest)) texts) (sym dot)

read_as_text :
    (name rest : Text)
    → all_simple name ≡ true
    → read_value (as_text name ++ rest) ≡ some (text name, rest)
unfolding as_text word_ends
read_as_text name rest h =
    let end = codes " | tostring)" in
    ap (λ t. read_value (b'(' ∷ t)) (append_assoc (jq_access name) end rest)
    ∙ (in_parentheses name (end ++ rest)
        ∙ (ap (λ o. and_read o texts) (read_access-jq_access name (end ++ rest) h refl)
            ∙ ap (λ o. and_read o (λ r. some (text name, r))) (cut_prefix-append end rest)))

read_unless_null :
    (name rest : Text)
    → all_simple name ≡ true
    → read_value (unless_null name ++ rest) ≡ some (text_unless_null name, rest)
unfolding read_value unless_null as_text word_ends
read_unless_null name rest h =
    let middle = codes " != null then (" in
    let end = codes " | tostring)" in
    let otherwise = codes " else null end)" in
    let again = (jq_access name ++ end) ++ otherwise in
    let moved : again ++ rest ≡ jq_access name ++ (end ++ (otherwise ++ rest)) =
      append_assoc (jq_access name ++ end) otherwise rest
      ∙ append_assoc (jq_access name) end (otherwise ++ rest) in
    ap (λ t. and_read (read_access t) conditional)
      (append_assoc (jq_access name) (middle ++ again) rest)
    ∙ (ap (λ o. and_read o conditional)
          (read_access-jq_access name (middle ++ (again ++ rest)) h refl)
        ∙ (ap (λ t. and_read t (λ r. and_read (read_access r) (same_again name)))
              (cut_prefix-append middle (again ++ rest))
            ∙ (ap (λ t. and_read (read_access t) (same_again name)) moved
                ∙ (ap (λ o. and_read o (same_again name))
                      (read_access-jq_access name (end ++ (otherwise ++ rest)) h refl)
                    ∙ (ap
                          (λ o.
                            and_read o
                              (λ r. if name == name then some (text_unless_null name, r) else none))
                          (cut_prefix-append (codes " | tostring) else null end)") rest)
                        ∙ simp (beq_refl name))))))

unfoldable pub value_text : Value → Text
value_text (field name) = jq_access name
value_text (text name) = as_text name
value_text (text_unless_null name) = unless_null name

unfoldable pub all_simple_in : Value → Bool
all_simple_in (field name) = all_simple name
all_simple_in (text name) = all_simple name
all_simple_in (text_unless_null name) = all_simple name

pub read_value-value_text :
    (v : Value) (rest : Text)
    → all_simple_in v ≡ true
    → word_ends rest ≡ true
    → read_value (value_text v ++ rest) ≡ some (v, rest)
unfolding value_text all_simple_in
read_value-value_text (field name) rest h e = read_field name rest h e
read_value-value_text (text name) rest h e = read_as_text name rest h
read_value-value_text (text_unless_null name) rest h e = read_unless_null name rest h

-- An entry is read as its key and its value, where their names are simple.
pub read_entry-entry_text :
    (k : Text) (v : Value) (rest : Text)
    → all_simple k ≡ true
    → all_simple_in v ≡ true
    → word_ends rest ≡ true
    → read_entry (entry_text k (value_text v) ++ rest) ≡ some ((k, v), rest)
unfolding read_entry entry_text word_ends
read_entry-entry_text k v rest h g e =
    let colon = codes ": " in
    ap (λ t. and_read (read_key t) after_key) (append_assoc (jq_key k) (colon ++ value_text v) rest)
    ∙ (ap (λ o. and_read o after_key) (read_key-jq_key k (colon ++ (value_text v ++ rest)) h refl)
        ∙ (ap (λ o. and_read o (λ r. and_read (read_value r) (with_key k)))
              (cut_prefix-append colon (value_text v ++ rest))
            ∙ ap (λ o. and_read o (with_key k)) (read_value-value_text v rest g e)))
