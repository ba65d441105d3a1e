-- ===== src/Openapi/Jq/Read.antt =====
-- pkg/openapi/request_jq.go: how jq reads an object of fields and strings, as far as the generated
-- expressions go. A string with an escape in it is not described.
use go_auto_mcp.Prelude.{
  ℕ, zero, suc, Option, none, some, List, [], ◌∷◌, Text, codes, text_eq, nat_eq, ◌==◌,
  if◌then◌else◌, cut_prefix, length,
}
use go_auto_mcp.Openapi.Jq.{is_letter, in_identifier}

abbrev pub put : ℕ → Text × Text → Text × Text
put c (word, rest) = (c ∷ word, rest)

-- the longest text of identifier characters
unfoldable pub read_word : Text → Text × Text
read_word [] = ([], [])
read_word (c ∷ s) = let more = read_word s in if in_identifier c then put c more else ([], c ∷ s)

abbrev pub put_opt : ℕ → Option (Text × Text) → Option (Text × Text)
put_opt c none = none
put_opt c (some r) = some (put c r)

-- a string up to its closing quote
unfoldable pub read_string : Text → Option (Text × Text)
read_string [] = none
read_string (c ∷ s) =
    let more = read_string s in
    if c == b'"' then some ([], s) else if c == b'\\' then none else put_opt c more

-- a key of an object
unfoldable pub read_key : Text → Option (Text × Text)
unfolding read_word read_string
read_key [] = none
read_key (c ∷ s) =
    if c == b'"' then read_string s else if is_letter c then some (read_word (c ∷ s)) else none

abbrev pub and_read {ℓ ℓ'} : {A : Type ℓ} {B : Type ℓ'} → Option A → (A → Option B) → Option B
and_read none f = none
and_read (some a) f = f a

abbrev pub closed : Option (Text × Text) → Option (Text × Text)
closed none = none
closed (some (name, rest)) = and_read (cut_prefix (codes "]") rest) (λ r. some (name, r))

abbrev pub after_dot : Text → Option Text → Option (Text × Text)
after_dot s (some r) = closed (read_string r)
after_dot [] none = none
after_dot (c ∷ s) none = if is_letter c then some (read_word (c ∷ s)) else none

-- a field of the input: `.name` or `.["name"]`
unfoldable pub read_access : Text → Option (Text × Text)
unfolding read_word read_string cut_prefix
read_access s = and_read (cut_prefix (codes ".") s) (λ r. after_dot r (cut_prefix (codes "[\"") r))

-- a value: a field, its text, or its text unless it is null
pub data Value : Type 0 where
  field text text_unless_null : Text → Value

-- after `(if .x`
abbrev pub same_again : Text → Text × Text → Option (Value × Text)
same_again name (other, s) =
    and_read (cut_prefix (codes " | tostring) else null end)") s)
      (λ rest. if name == other then some (text_unless_null name, rest) else none)

abbrev pub conditional : Text × Text → Option (Value × Text)
conditional (name, s) =
    and_read (cut_prefix (codes " != null then (") s)
      (λ r. and_read (read_access r) (same_again name))

abbrev pub texts : Text × Text → Option (Value × Text)
texts (name, s) = and_read (cut_prefix (codes " | tostring)") s) (λ rest. some (text name, rest))

abbrev pub plain : Text × Text → Option (Value × Text)
plain (name, s) = some (field name, s)

abbrev pub unconditional : Text → Option Text → Option (Value × Text)
unconditional s none = and_read (read_access s) plain
unconditional s (some r) = and_read (read_access r) texts

abbrev pub value_from : Text → Option Text → Option (Value × Text)
value_from s none = unconditional s (cut_prefix (codes "(") s)
value_from s (some r) = and_read (read_access r) conditional

unfoldable pub read_value : Text → Option (Value × Text)
unfolding read_access
read_value s = value_from s (cut_prefix (codes "(if ") s)

abbrev pub with_key : Text → Value × Text → Option ((Text × Value) × Text)
with_key k (v, rest) = some ((k, v), rest)

abbrev pub after_key : Text × Text → Option ((Text × Value) × Text)
after_key (k, s) = and_read (cut_prefix (codes ": ") s) (λ r. and_read (read_value r) (with_key k))

unfoldable pub read_entry : Text → Option ((Text × Value) × Text)
unfolding read_key read_value
read_entry s = and_read (read_key s) after_key

-- members separated by commas, and the closing brace
module _ {A : Type 0} where
  abbrev pub cons_read : A → Option (List A × Text) → Option (List A × Text)
  cons_read a none = none
  cons_read a (some (others, rest)) = some (a ∷ others, rest)

  abbrev pub last_read : A → Option Text → Option (List A × Text)
  last_read a none = none
  last_read a (some rest) = some (a ∷ [], rest)

  abbrev pub more_members :
      (Text → Option (List A × Text)) → A × Text → Option Text → Option (List A × Text)
  more_members others (a, s) none = last_read a (cut_prefix (codes "}") s)
  more_members others (a, s) (some r) = cons_read a (others r)

  abbrev pub after_member : (Text → Option (List A × Text)) → A × Text → Option (List A × Text)
  after_member others (a, s) = more_members others (a, s) (cut_prefix (codes ", ") s)

module _ {A : Type 0} (read : Text → Option (A × Text)) where
  unfoldable pub read_members : ℕ → Text → Option (List A × Text)
  unfolding cut_prefix
  read_members zero s = none
  read_members (suc n) s = and_read (read s) (after_member (read_members n))

abbrev pub titled : Text → List (Text × Value) × Text → Option ((Text × List (Text × Value)) × Text)
titled title (es, rest) = some ((title, es), rest)

abbrev pub after_title : Text × Text → Option ((Text × List (Text × Value)) × Text)
after_title (title, s) =
    and_read (cut_prefix (codes ": {") s)
      (λ r. and_read (read_members read_entry (length r) r) (titled title))

unfoldable pub read_section : Text → Option ((Text × List (Text × Value)) × Text)
unfolding read_word read_entry read_members
read_section s = after_title (read_word s)

abbrev pub Sections : Type 0
Sections = List (Text × List (Text × Value))

abbrev pub whole : Sections × Text → Option Sections
whole (ss, []) = some ss
whole (ss, (c ∷ rest)) = none

-- an object without members, where no member could be read
abbrev pub or_empty : Text → Option (Sections × Text) → Option Sections
or_empty s (some r) = whole r
or_empty s none = if s == codes "}" then some [] else none

-- a whole expression
unfoldable pub read_expression : Text → Option Sections
unfolding read_section
read_expression s =
    and_read (cut_prefix (codes "{") s) (λ r. or_empty r (read_members read_section (length r) r))
