-- ===== src/Config/Defaults.antt =====
-- pkg/config/loader.go: the defaults of the elements of the upstreams array. Durations are
-- milliseconds; of the raw value only the keys that are present matter.
use go_auto_mcp.Prelude.{
  ℕ, ◌≡◌, refl, Bool, true, false, List, [], ◌∷◌, Text, codes, text_eq, text_beq, nat_eq, ◌==◌,
  if◌then◌else◌, arith,
}

pub record ValidationConfig : Type 0 where
  pub validate_request : Bool
  pub validate_response : Bool
  pub response_validation_failure : Text
  pub success_status : List ℕ
  pub error_status : List ℕ

-- the parts of an upstream that have element defaults
pub record UpstreamElement : Type 0 where
  pub timeout : ℕ
  pub enabled : Bool
  pub startup_validation_timeout : ℕ
  pub validation : ValidationConfig

-- which keys the raw map of an upstream has
pub record RawUpstream : Type 0 where
  pub enabled : Bool
  pub validate_request : Bool
  pub validate_response : Bool

abbrev pub no_keys : RawUpstream
no_keys = record { enabled = false; validate_request = false; validate_response = false }

abbrev or_statuses : List ℕ → List ℕ → List ℕ
or_statuses [] defaults = defaults
or_statuses (s ∷ ss) defaults = s ∷ ss

abbrev success_defaults : List ℕ
success_defaults = 200 ∷ (201 ∷ (202 ∷ (204 ∷ [])))

abbrev error_defaults : List ℕ
error_defaults = 400 ∷ (401 ∷ (403 ∷ (404 ∷ (422 ∷ (429 ∷ (500 ∷ (502 ∷ (503 ∷ []))))))))

-- applyValidationDefaults
unfoldable pub apply_validation_defaults : RawUpstream → ValidationConfig → ValidationConfig
apply_validation_defaults raw v = record {
  validate_request = if raw.validate_request then v.validate_request else true;
  validate_response = if raw.validate_response then v.validate_response else true;
  response_validation_failure =
      if v.response_validation_failure == [] then codes "warn" else v.response_validation_failure;
  success_status = or_statuses v.success_status success_defaults;
  error_status = or_statuses v.error_status error_defaults;
}

abbrev number_or : ℕ → ℕ → ℕ
number_or n d = if n == 0 then d else n

-- the body of the loop of applyElementDefaults
unfoldable pub apply_defaults : ℕ → RawUpstream → UpstreamElement → UpstreamElement
unfolding apply_validation_defaults
apply_defaults server_timeout raw up = record {
  timeout = number_or up.timeout 10000;
  enabled = if raw.enabled then up.enabled else true;
  startup_validation_timeout = number_or up.startup_validation_timeout server_timeout;
  validation = apply_validation_defaults raw up.validation;
}

-- applyElementDefaults; behind the end of the raw array there is no map
unfoldable pub apply_element_defaults :
    ℕ → List RawUpstream → List UpstreamElement → List UpstreamElement
unfolding apply_defaults
apply_element_defaults server_timeout raws [] = []
apply_element_defaults server_timeout [] (up ∷ ups) =
    apply_defaults server_timeout no_keys up ∷ apply_element_defaults server_timeout [] ups
apply_element_defaults server_timeout (raw ∷ raws) (up ∷ ups) =
    apply_defaults server_timeout raw up ∷ apply_element_defaults server_timeout raws ups

if_twice {ℓ} :
    {A : Type ℓ} (b : Bool) (x y : A)
    → (if b then (if b then x else y) else y) ≡ (if b then x else y)
if_twice true x y = refl
if_twice false x y = refl

or_statuses_twice :
    (ss defaults : List ℕ)
    → or_statuses (or_statuses ss defaults) defaults ≡ or_statuses ss defaults
or_statuses_twice [] [] = refl
or_statuses_twice [] (d ∷ ds) = refl
or_statuses_twice (s ∷ ss) defaults = refl

number_or_twice : (n d : ℕ) → number_or (number_or n d) d ≡ number_or n d
number_or_twice n d = ground arith

or_warn : Text → Text
or_warn s = if s == [] then codes "warn" else s

or_warn_twice : (s : Text) → or_warn (or_warn s) ≡ or_warn s
unfolding or_warn text_beq
or_warn_twice [] = refl
or_warn_twice (c ∷ s) = refl

validation_twice :
    (raw : RawUpstream) (v : ValidationConfig)
    → apply_validation_defaults raw (apply_validation_defaults raw v)
      ≡ apply_validation_defaults raw v
unfolding apply_validation_defaults or_warn
validation_twice raw v = λ i. record {
  validate_request = if_twice raw.validate_request v.validate_request true i;
  validate_response = if_twice raw.validate_response v.validate_response true i;
  response_validation_failure = or_warn_twice v.response_validation_failure i;
  success_status = or_statuses_twice v.success_status success_defaults i;
  error_status = or_statuses_twice v.error_status error_defaults i;
}

apply_defaults_twice :
    (server_timeout : ℕ) (raw : RawUpstream) (up : UpstreamElement)
    → apply_defaults server_timeout raw (apply_defaults server_timeout raw up)
      ≡ apply_defaults server_timeout raw up
unfolding apply_defaults
apply_defaults_twice server_timeout raw up = λ i. record {
  timeout = number_or_twice up.timeout 10000 i;
  enabled = if_twice raw.enabled up.enabled true i;
  startup_validation_timeout = number_or_twice up.startup_validation_timeout server_timeout i;
  validation = validation_twice raw up.validation i;
}

-- Applying the defaults once more, to the same raw values, changes nothing.
pub apply_element_defaults_twice :
    (server_timeout : ℕ) (raws : List RawUpstream) (ups : List UpstreamElement)
    → apply_element_defaults server_timeout raws (apply_element_defaults server_timeout raws ups)
      ≡ apply_element_defaults server_timeout raws ups
unfolding apply_element_defaults
apply_element_defaults_twice server_timeout [] [] = refl
apply_element_defaults_twice server_timeout (raw ∷ raws) [] = refl
apply_element_defaults_twice server_timeout [] (up ∷ ups) = λ i.
    apply_defaults_twice server_timeout no_keys up i
    ∷ apply_element_defaults_twice server_timeout [] ups i
apply_element_defaults_twice server_timeout (raw ∷ raws) (up ∷ ups) = λ i.
    apply_defaults_twice server_timeout raw up i
    ∷ apply_element_defaults_twice server_timeout raws ups i
