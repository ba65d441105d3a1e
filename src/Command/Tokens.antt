-- ===== src/Command/Tokens.antt =====
-- pkg/upstream/command/command.go: the tokens of a command that is run without a shell.
use go_auto_mcp.Prelude.{
  ℕ, ◌≡◌, ◌≢◌, refl, sym, ap, ◌∙◌, true, false, not, ◌&&◌, ◌||◌, List, [], ◌∷◌, ◌++◌, Text, codes,
  is_space, has_prefix, has_suffix, has_suffix-append, nat_eq, text_eq, text_beq, ◌==◌,
  if◌then◌else◌, arith, All, All-append, cut_prefix, Result, ok, err,
}
use mathlib.Core.List.{append_assoc, append-nil}

abbrev pub cons_word : Text → List Text → List Text
cons_word [] words = words
cons_word (c ∷ w) words = (c ∷ w) ∷ words

-- strings.Fields, with the word that it is in the middle of
unfoldable pub fields_from : Text → Text → List Text
fields_from word [] = cons_word word []
fields_from word (c ∷ s) =
    let after = fields_from [] s in
    let more = fields_from (word ++ (c ∷ [])) s in if is_space c then cons_word word after else more

abbrev pub fields : Text → List Text
fields = fields_from []

pub data TokenError : Type 0 where
  fragment dangling : Text → TokenError

-- the body of the loop of validateNonShellTokens
unfoldable pub check_token : Text → Result TokenError Unit
unfolding has_prefix has_suffix
check_token tok =
    let has_open = has_prefix tok (codes "{{") in
    let has_close = has_suffix tok (codes "}}") in
    if tok == codes "{{" || (has_open && not has_close)
    then err (fragment tok)
    else if has_close && not has_open
    then err (dangling tok)
    else ok tt

abbrev pub and_then : Result TokenError Unit → Result TokenError Unit → Result TokenError Unit
and_then (err e) r = err e
and_then (ok u) r = r

unfoldable pub check_tokens : List Text → Result TokenError Unit
unfolding check_token
check_tokens [] = ok tt
check_tokens (t ∷ ts) = and_then (check_token t) (check_tokens ts)

-- validateNonShellTokens
unfoldable pub validate_non_shell_tokens : Text → Result TokenError Unit
unfolding check_tokens fields_from
validate_non_shell_tokens command = check_tokens (fields command)

abbrev pub NoSpace : Text → Type 0
NoSpace = All (λ c. is_space c ≡ false)

fields-NoSpace : (word s : Text) → NoSpace s → fields_from word s ≡ cons_word (word ++ s) []
unfolding fields_from
fields-NoSpace word [] h = ap (λ w. cons_word w []) (sym (append-nil word))
fields-NoSpace word (c ∷ s) (h, rest) = simp h (
    fields-NoSpace (word ++ (c ∷ [])) s rest
    ∙ ap (λ w. cons_word w []) (append_assoc word (c ∷ []) s))

not_opened :
    (c : ℕ) (s : Text)
    → c ≢ b'{'
    → ((c ∷ s) == codes "{{" ≡ false) × (has_prefix (c ∷ s) (codes "{{") ≡ false)
unfolding has_prefix cut_prefix text_beq
not_opened c s ne =
    let other : (b'{' == c) ≡ false = ground arith in
    let other' : (c == b'{') ≡ false = ground arith in (simp other', simp other)

closing_refused :
    (c : ℕ) (s : Text)
    → c ≢ b'{'
    → has_suffix (c ∷ s) (codes "}}") ≡ true
    → check_token (c ∷ s) ≡ err (dangling (c ∷ s))
unfolding check_token
closing_refused c s ne close = let (e, open_no) = not_opened c s ne in simp (e, open_no, close)

-- A command that is one token which glues a reference to something in front of it, as
-- `--name={{.name}}` does, is refused as dangling, where the token has no spaces and does not start
-- with a brace.
pub glued_refused :
    (c : ℕ) (flag arg : Text)
    → c ≢ b'{'
    → is_space c ≡ false
    → NoSpace flag
    → NoSpace arg
    → let token = c ∷ ((flag ++ (codes "{{." ++ arg)) ++ codes "}}") in
      validate_non_shell_tokens token ≡ err (dangling token)
unfolding validate_non_shell_tokens check_tokens is_space
glued_refused c flag arg ne no_space fs gs =
    let s = (flag ++ (codes "{{." ++ arg)) ++ codes "}}" in
    let P = λ (x : ℕ). is_space x ≡ false in
    let spaceless : NoSpace s =
      All-append P (flag ++ (codes "{{." ++ arg)) (codes "}}")
        (All-append P flag (codes "{{." ++ arg) fs (refl, (refl, (refl, gs)))) (refl, (refl, tt)) in
    ap check_tokens (fields-NoSpace [] (c ∷ s) (no_space, spaceless))
    ∙ ap (λ r. and_then r (ok tt))
        (closing_refused c s ne
          (has_suffix-append (c ∷ (flag ++ (codes "{{." ++ arg))) (codes "}}")))
