-- ===== src/Inbound/Keys.antt =====
-- pkg/auth/inbound/apikey and pkg/auth/inbound/introspection: the validators whose checks are the
-- program's own. The variables of the environment and the endpoint's answer are arguments.
use go_auto_mcp.Prelude.{
  trim_space, inr, inl, Bool-cases, ℕ, Bool, true, false, List, [], ◌∷◌, ◌++◌, ◌≡◌, refl, sym, ◌∙◌,
  ap, Text, codes, text_eq, ◌==◌, ◌&&◌, ◌||◌, not, Result, err, ok, contains, nat_eq, if◌then◌else◌,
  All, arith, text_beq_iff,
}
use go_auto_mcp.Inbound.{TokenInfo, AuthError, invalid}

-- strings.Split(raw, ","): the parts, of which there is at least one
abbrev pub cons_part : ℕ → List Text → List Text
cons_part c [] = (c ∷ []) ∷ []
cons_part c (part ∷ parts) = (c ∷ part) ∷ parts

unfoldable pub split_commas : Text → List Text
split_commas [] = [] ∷ []
split_commas (c ∷ s) = let rest = split_commas s in if c == 44 then [] ∷ rest else cons_part c rest

-- the set of keys: each part that is not blank, trimmed
unfoldable pub collect_keys : List Text → List Text
unfolding trim_space
collect_keys [] = []
collect_keys (part ∷ parts) =
    let rest = collect_keys parts in
    let key = trim_space part in if key == [] || contains key rest then rest else key ∷ rest

abbrev pub or_no_keys : List Text → Result Unit (List Text)
or_no_keys [] = err tt
or_no_keys (key ∷ keys) = ok (key ∷ keys)

-- apikey.NewValidator, for the value of its environment variable
unfoldable pub new_validator : Text → Result Unit (List Text)
unfolding split_commas collect_keys
new_validator raw = or_no_keys (collect_keys (split_commas raw))

-- apikey's ValidateToken
unfoldable pub validate_key : List Text → Text → Result AuthError TokenInfo
validate_key keys token =
    if contains token keys
    then ok (record { subject = []; scopes = []; audience = [] })
    else err (invalid (codes "invalid API key"))

-- what the introspection endpoint answers
pub record Introspection : Type 0 where
  pub active : Bool
  pub subject : Text
  pub audience : List Text

-- introspection's ValidateToken, behind the endpoint's answer
unfoldable pub validate_introspection :
    Text → Result Text Introspection → Result AuthError TokenInfo
validate_introspection aud (err e) = err (invalid e)
validate_introspection aud (ok answer) =
    if not answer.active
    then err (invalid (codes "token inactive"))
    else if not (aud == []) && not (contains aud answer.audience)
    then err (invalid (codes "invalid audience"))
    else ok (record { subject = answer.subject; scopes = []; audience = answer.audience })

-- keys with commas between them
unfoldable pub join_commas : List Text → Text
join_commas [] = []
join_commas (key ∷ []) = key
join_commas (key ∷ (next ∷ keys)) = key ++ (44 ∷ join_commas (next ∷ keys))

-- a key that a list of keys can hold: with characters, none of them a comma, and no space at its ends
pub record Clean (key : Text) : Type 0 where
  pub some_char : (key == []) ≡ false
  pub no_comma : contains 44 key ≡ false
  pub trimmed : trim_space key ≡ key

tail_no_comma : (c : ℕ) (s : Text) → contains 44 (c ∷ s) ≡ false → contains 44 s ≡ false
unfolding contains
tail_no_comma c s h = ground arith

split_one : (s : Text) → contains 44 s ≡ false → split_commas s ≡ s ∷ []
unfolding split_commas contains
split_one [] h = refl
split_one (c ∷ s) h = ground (arith, ap (cons_part c) (split_one s (tail_no_comma c s h)))

split_first :
    (s t : Text) → contains 44 s ≡ false → split_commas (s ++ (44 ∷ t)) ≡ s ∷ split_commas t
unfolding split_commas contains
split_first [] t h = refl
split_first (c ∷ s) t h = ground (arith, ap (cons_part c) (split_first s t (tail_no_comma c s h)))

split-join :
    (key : Text) (keys : List Text)
    → All Clean (key ∷ keys)
    → split_commas (join_commas (key ∷ keys)) ≡ key ∷ keys
unfolding join_commas
split-join key [] (h, tt) = split_one key h.no_comma
split-join key (next ∷ keys) (h, more) =
    split_first key (join_commas (next ∷ keys)) h.no_comma
    ∙ ap (λ l. key ∷ l) (split-join next keys more)

contains-collect :
    (keys : List Text) (token : Text)
    → All Clean keys
    → contains token (collect_keys keys) ≡ contains token keys
unfolding collect_keys contains
contains-collect [] token h = refl
contains-collect (key ∷ keys) token (h, more) =
    let rest = contains-collect keys token more in
    let here = contains-collect keys key more in
    let same = text_beq_iff key token in
    rw h.trimmed (
      rw h.some_char (elim (Bool-cases (contains key (collect_keys keys))) [
        | inl again ↦ rw again (elim (Bool-cases (key == token)) [
          | inl e ↦ simp e (ap (λ k. contains k (collect_keys keys)) (sym (same.0 e)) ∙ again)
          | inr e ↦ rw e rest
        ])
        | inr new ↦ rw new (ap (λ b. key == token || b) rest)
      ]))

head_there : (key : Text) (keys : List Text) → contains key (key ∷ keys) ≡ true
unfolding contains
head_there key keys = simp ((text_beq_iff key key).1 refl)

holds-ok : (keys : List Text) (key : Text) → contains key keys ≡ true → or_no_keys keys ≡ ok keys
unfolding contains
holds-ok [] key h = absurd cc
holds-ok (k ∷ keys) key h = refl

-- A list of keys, written with commas between them, is accepted, and then exactly its members are
-- valid keys.
pub new_validator-join :
    (key : Text) (keys : List Text) (token : Text)
    → All Clean (key ∷ keys)
    → (accepted : List Text) × (new_validator (join_commas (key ∷ keys)) ≡ ok accepted)
      × (contains token accepted ≡ contains token (key ∷ keys))
unfolding new_validator
new_validator-join key keys token h =
    let there = contains-collect (key ∷ keys) key h in
    let split = split-join key keys h in
    (
      collect_keys (key ∷ keys),
      rw split (holds-ok (collect_keys (key ∷ keys)) key (there ∙ head_there key keys)),
      contains-collect (key ∷ keys) token h,
    )
