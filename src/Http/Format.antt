-- ===== src/Http/Format.antt =====
-- pkg/content/format.go: how a response body becomes MCP content.
use mathlib.Core.Path.{subst}
use go_auto_mcp.Prelude.{
  ◌+◌, Option, none, some, List, [], ◌∷◌, ◌≡◌, ap, ◌↔◌, Text, codes, text_eq, ◌==◌, ◌&&◌, ◌||◌, not,
  nat_eq, leb, Result, err, ok, ◌>>=◌, if◌then◌else◌, trim_space, has_prefix, has_suffix, or_fail,
}
use go_auto_mcp.Http.{Json, string, Content, text, image, audio, resource, Program}

-- strings.SplitN(s, ";", 2)[0]
unfoldable pub before_semicolon : Text → Text
before_semicolon [] = []
before_semicolon (c ∷ s) = let rest = before_semicolon s in if c == 59 then [] else c ∷ rest

-- strings.ToLower on ASCII
unfoldable pub to_lower : Text → Text
to_lower [] = []
to_lower (c ∷ s) = (if leb 65 c && leb c 90 then c + 32 else c) ∷ to_lower s

-- stripMIMEParams
unfoldable pub strip_mime_params : Text → Text
unfolding before_semicolon trim_space
strip_mime_params content_type = trim_space (before_semicolon content_type)

-- the switch of Detect
unfoldable pub detect_auto : Text → Text
unfolding has_prefix has_suffix
detect_auto ct =
    if ct == codes "application/json" || has_suffix ct (codes "+json")
    then codes "json"
    else if has_prefix ct (codes "text/")
    then codes "text"
    else if has_prefix ct (codes "image/")
    then codes "image"
    else if has_prefix ct (codes "audio/")
    then codes "audio"
    else codes "binary"

-- Detect
unfoldable pub detect : Text → Text → Text
unfolding strip_mime_params to_lower detect_auto
detect configured content_type =
    if not (configured == codes "auto")
    then configured
    else detect_auto (to_lower (strip_mime_params content_type))

pub data ContentError : Type 0 where
  not_json no_output : ContentError
  failed : Text → ContentError

-- the loop of runOnce, with the first value if it has one
unfoldable pub drain : Option Json → List (Result Text Json) → Result ContentError Json
drain none [] = err no_output
drain (some first) [] = ok first
drain have (err e ∷ rest) = err (failed e)
drain none (ok v ∷ rest) = drain (some v) rest
drain (some first) (ok v ∷ rest) = drain (some first) rest

-- runOnce
unfoldable pub run_once : Program → Json → Result ContentError Json
unfolding drain
run_once code input = drain none (code input)

abbrev pub run_if : Option Program → Json → Result ContentError Json
run_if none input = ok input
run_if (some code) input = run_once code input

module _ (decode : Text → Option Json) (encode : Json → Text) where
  -- marshalToString: a string is itself
  abbrev pub marshal_to_string : Json → Text
  marshal_to_string (string s) = s
  marshal_to_string v = encode v

  abbrev pub json_content : Text → Option Program → Result ContentError (List Content)
  json_content body transform = do
    parsed ← or_fail not_json (decode body)
    value ← run_if transform parsed
    ok (text (marshal_to_string value) ∷ [])

  abbrev pub text_content : Text → Option Program → Result ContentError (List Content)
  text_content body none = ok (text body ∷ [])
  text_content body (some code) = do
    value ← run_once code (string body)
    ok (text (marshal_to_string value) ∷ [])

  -- ToMCPContent
  unfoldable pub to_mcp_content :
      Text → Text → Text → Option Program → Result ContentError (List Content)
  unfolding run_once strip_mime_params
  to_mcp_content format body content_type transform =
      let mime_type = strip_mime_params content_type in
      if format == codes "json"
      then json_content body transform
      else if format == codes "text"
      then text_content body transform
      else if format == codes "image"
      then ok (image body mime_type ∷ [])
      else if format == codes "audio"
      then ok (audio body mime_type ∷ [])
      else if format == codes "binary"
      then ok (resource mime_type body ∷ [])
      else json_content body transform

-- every value of the iterator is one, and no error
abbrev pub AllValues : List (Result Text Json) → Type 0
AllValues [] = Unit
AllValues (err e ∷ rest) = ⊥
AllValues (ok v ∷ rest) = AllValues rest

drain-some_iff :
    (first value : Json) (outputs : List (Result Text Json))
    → (drain (some first) outputs ≡ ok value) ↔ ((first ≡ value) × AllValues outputs)
unfolding drain
drain-some_iff first value [] = (λ h. (cc, tt), λ (e, u). cc)
drain-some_iff first value (err e ∷ rest) = (λ h. absurd cc, λ (f, none_left). absurd none_left)
drain-some_iff first value (ok v ∷ rest) = drain-some_iff first value rest

abbrev FirstOf : List (Result Text Json) → Json → Type 0
FirstOf outputs value =
    (rest : List (Result Text Json)) × (outputs ≡ ok value ∷ rest) × AllValues rest

drain_iff :
    (value : Json) (outputs : List (Result Text Json))
    → (drain none outputs ≡ ok value) ↔ FirstOf outputs value
unfolding drain
drain_iff value [] = (λ h. absurd cc, λ (rest, e, all). absurd cc)
drain_iff value (err e ∷ rest) = (λ h. absurd cc, λ (l, f, all). absurd cc)
drain_iff value (ok v ∷ rest) =
    let first = drain-some_iff v value rest in
    (
      λ h. let (same, all) = first.0 h in (rest, ap (λ x. ok x ∷ rest) same, all),
      λ (l, e, all).
          let same : v ≡ value = cc in
          let tails : l ≡ rest = cc in first.1 (same, subst AllValues tails all),
    )

-- A jq program gives a value exactly if its iterator gives at least one and never an error, and then
-- it is the first.
pub run_once_iff :
    (code : Program) (input value : Json)
    → (run_once code input ≡ ok value)
      ↔ ((rest : List (Result Text Json)) × (code input ≡ ok value ∷ rest) × AllValues rest)
unfolding run_once drain
run_once_iff code input value = drain_iff value (code input)
