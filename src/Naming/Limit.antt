-- ===== src/Naming/Limit.antt =====
-- pkg/openapi/naming.go, PrefixedName and TruncateDescription: limits counted in runes. A limit is
-- an `int`, and zero or less means none.
mod Tests
use mathlib.Core.List.{append_assoc, append-nil}
use go_auto_mcp.Prelude.{
  ◌⊎◌, ℕ, ◌+◌, ◌-◌, ◌≤◌, ◌<◌, ◌≡◌, refl, sym, ap, ◌∙◌, Bool, true, false, List, ◌++◌, Text, length,
  take, length-append, length-take, take_all, take-append_left, take-append_right, leb, ltb,
  if◌then◌else◌, Bool-cases, inl, inr, arith, ℤ, to_ℕ,
}

-- `if len(runes) > allowed { s = string(runes[:allowed]) }`
unfoldable pub cut_to : ℕ → Text → Text
cut_to allowed s = if ltb allowed (length s) then take allowed s else s

unfoldable pub prefixed_name : Text → Text → Text → ℤ → Text
unfolding cut_to
prefixed_name base_name prefix separator max_length =
    let limit = to_ℕ max_length in
    let prefix_part = prefix ++ separator in
    if ltb 0 limit
    then (if leb limit (length prefix_part)
        then take limit prefix_part
        else prefix_part ++ cut_to (limit - length prefix_part) base_name)
    else prefix_part ++ base_name

pub truncate_description : Text → ℤ → Text → Text
truncate_description desc max_length suffix =
    let limit = to_ℕ max_length in
    if leb limit 0
    then desc
    else if leb (length desc) limit
    then desc
    else if leb limit (length suffix)
    then take limit suffix
    else take (limit - length suffix) desc ++ suffix

cut_to-eq-take : (n : ℕ) (s : Text) → cut_to n s ≡ take n s
unfolding cut_to
cut_to-eq-take n s = elim (Bool-cases (ltb n (length s))) [
  | inl over ↦ rw over
  | inr fits ↦ rw fits (sym (take_all n s (ground arith)))
]

-- cutting only the second part cuts the whole
append-take :
    (n : ℕ) (xs ys : Text) → length xs < n → xs ++ take (n - length xs) ys ≡ take n (xs ++ ys)
append-take n xs ys h =
    let e : length xs + (n - length xs) ≡ n = omega arith in
    sym (take-append_right xs (n - length xs) ys) ∙ ap (λ k. take k (xs ++ ys)) e

-- The name is the first `max_length` runes of prefix, separator and base name put together, and
-- all of them if the limit is not positive.
pub prefixed_name-eq-take :
    (base_name prefix separator : Text) (max_length : ℤ)
    → prefixed_name base_name prefix separator max_length ≡ (
        if ltb 0 (to_ℕ max_length)
        then take (to_ℕ max_length) ((prefix ++ separator) ++ base_name)
        else (prefix ++ separator) ++ base_name)
unfolding prefixed_name
prefixed_name-eq-take base prefix sep max = elim (Bool-cases (ltb 0 (to_ℕ max))) [
  | inr unlimited ↦ rw unlimited
  | inl limited ↦ rw limited (elim (Bool-cases (leb (to_ℕ max) (length (prefix ++ sep)))) [
    | inl short ↦ rw short (sym (take-append_left (to_ℕ max) (prefix ++ sep) base (ground arith)))
    | inr room ↦ rw room (
        rw (cut_to-eq-take (to_ℕ max - length (prefix ++ sep)) base)
          (append-take (to_ℕ max) (prefix ++ sep) base (ground arith)))
  ])
]

-- A positive limit bounds the name's length in runes.
pub length-prefixed_name-le :
    (base_name prefix separator : Text) (max_length : ℤ)
    → 0 < to_ℕ max_length
    → length (prefixed_name base_name prefix separator max_length) ≤ to_ℕ max_length
length-prefixed_name-le base prefix sep max h = rw (prefixed_name-eq-take base prefix sep max) (
    let e : ltb 0 (to_ℕ max) ≡ true = ground arith in
    rw e (omega (arith, length-take (to_ℕ max) ((prefix ++ sep) ++ base))))

-- A description within the limit, or without one, is kept.
pub truncate_description_fits :
    (desc : Text) (max_length : ℤ) (suffix : Text)
    → (to_ℕ max_length ≡ 0) ⊎ (length desc ≤ to_ℕ max_length)
    → truncate_description desc max_length suffix ≡ desc
unfolding truncate_description
truncate_description_fits desc max suffix h = ground arith

-- A description over a positive limit becomes exactly as long as the limit: the runes of the
-- description that leave room for the suffix, none of them if there is no room, and the beginning
-- of the suffix that the limit allows.
pub truncate_description_cuts :
    (desc : Text) (max_length : ℤ) (suffix : Text)
    → 0 < to_ℕ max_length
    → to_ℕ max_length < length desc
    → (length (truncate_description desc max_length suffix) ≡ to_ℕ max_length)
      × (truncate_description desc max_length suffix
          ≡ take (to_ℕ max_length - length suffix) desc ++ take (to_ℕ max_length) suffix)
unfolding truncate_description
truncate_description_cuts desc max suffix h over =
    let n = to_ℕ max in
    let room = take (n - length suffix) desc in
    (
      ground (
        arith,
        length-take n suffix,
        length-append room suffix,
        length-take (n - length suffix) desc,
      ),
      elim (Bool-cases (leb n (length suffix))) [
        | inl tight ↦
            let e : n - length suffix ≡ 0 = ground arith in
            let cut : truncate_description desc max suffix ≡ take n suffix = ground arith in
            cut ∙ sym (ap (λ k. take k desc ++ take n suffix) e)
        | inr fits ↦
            let whole : take n suffix ≡ suffix = take_all n suffix (ground arith) in
            let cut : truncate_description desc max suffix ≡ room ++ suffix = ground arith in
            cut ∙ ap (λ s. room ++ s) (sym whole)
      ],
    )
