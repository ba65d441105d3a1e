-- ===== src/Ratelimit.antt =====
-- pkg/ratelimit/ratelimit.go: the client's IP of a request, and the enforcer of the named limits.
-- Limiters and stores are a library's; an int64 is its bit pattern.
pub mod Known
mod Tests
use Prim.Native.Nat.{◌%◌, ◌^◌}
use go_auto_mcp.Prelude.{
  ℕ, ◌+◌, Bool, true, false, Option, none, some, List, [], ◌∷◌, Text, codes, text_eq, nat_eq, ◌==◌,
  if◌then◌else◌, String, string_eq, Dict, lookup, insert, Result, ok, err, trim_space,
}

-- the headers of a request, empty where they are missing, and its RemoteAddr
pub record Request : Type 0 where
  pub forwarded_for : Text
  pub real_ip : Text
  pub remote_addr : Text

-- the text before the first comma, if there is one
unfoldable pub before_comma : Text → Text
before_comma [] = []
before_comma (c ∷ s) = let rest = before_comma s in if c == b',' then [] else c ∷ rest

abbrev pub has_colon : Text → Bool
has_colon [] = false
has_colon (c ∷ s) = let rest = has_colon s in if c == b':' then true else rest

-- the text before the last colon, if there is one
unfoldable pub strip_port : Text → Text
strip_port [] = []
strip_port (c ∷ s) =
    let rest = strip_port s in if has_colon s then c ∷ rest else if c == b':' then [] else c ∷ rest

-- extractClientIP
unfoldable pub extract_client_ip : Request → Text
unfolding before_comma strip_port
extract_client_ip r =
    if r.forwarded_for == []
    then (if r.real_ip == [] then strip_port r.remote_addr else trim_space r.real_ip)
    else trim_space (before_comma r.forwarded_for)

-- config.RateLimitConfig; the period is in nanoseconds
pub record RateLimitConfig : Type 0 where
  pub average : ℕ
  pub period : ℕ
  pub burst : ℕ
  pub source : String

-- limiter.Rate
pub record Rate : Type 0 where
  pub limit : ℕ
  pub period : ℕ

abbrev pub rate_of : RateLimitConfig → Rate
rate_of c = record { limit = (c.average + c.burst) % 2 ^ 64; period = c.period }

pub record Enforcer (L : Type 0) : Type 0 where
  pub limiters : Dict String L
  pub configs : Dict String RateLimitConfig

pub data EnforcerError : Type 0 where
  unknown_store : String → EnforcerError
  no_store : String → Text → EnforcerError

pub data AllowError : Type 0 where
  unknown_limit : String → AllowError
  check_failed : Text → AllowError

-- what a limiter says of a hit
pub record Hit : Type 0 where
  pub remaining : ℕ
  pub reset : ℕ
  pub reached : Bool

module _ {L : Type 0} where
  -- Enforcer.Source
  unfoldable pub source : Option (Enforcer L) → String → String
  source none limit_name = ""
  source (some e) limit_name = source_of (lookup limit_name e.configs)
    where
      source_of : Option RateLimitConfig → String
      source_of none = ""
      source_of (some c) = c.source

module _ {L W : Type 0} (get : L → Text → W → Result Text Hit × W) where
  abbrev pub hit_result : Result Text Hit × W → Result AllowError Hit × W
  hit_result (err e, w) = (err (check_failed e), w)
  hit_result (ok h, w) = (ok h, w)

  abbrev pub take_hit : String → Text → W → Option L → Result AllowError Hit × W
  take_hit limit_name key w none = (err (unknown_limit limit_name), w)
  take_hit limit_name key w (some l) = hit_result (get l key w)

  -- Enforcer.Allow; without an enforcer every hit is allowed
  unfoldable pub allow : Option (Enforcer L) → String → Text → W → Result AllowError Hit × W
  allow none limit_name key w = (ok (record { remaining = 0; reset = 0; reached = false }), w)
  allow (some e) limit_name key w = take_hit limit_name key w (lookup limit_name e.limiters)

module _ {S L : Type 0} (new_limiter : S → Rate → L) where
  -- the loop of New
  unfoldable pub add_limits : S → Dict String RateLimitConfig → Enforcer L → Enforcer L
  add_limits store [] e = e
  add_limits store ((name, c) ∷ cs) e = add_limits store cs (record {
    limiters = insert name (new_limiter store (rate_of c)) e.limiters;
    configs = insert name c e.configs;
  })

  abbrev pub with_store :
      String
      → Dict String RateLimitConfig
      → Result Text S
      → Result EnforcerError (Option (Enforcer L))
  with_store name cs (err e) = err (no_store name e)
  with_store name cs (ok store) =
      ok (some (add_limits store cs (record { limiters = []; configs = [] })))

  abbrev pub with_factory :
      String
      → Dict String RateLimitConfig
      → Option (Result Text S)
      → Result EnforcerError (Option (Enforcer L))
  with_factory name cs none = err (unknown_store name)
  with_factory name cs (some made) = with_store name cs made

  -- New; the factories are given with what they return for the configuration
  unfoldable pub new_enforcer :
      Dict String (Result Text S)
      → Bool
      → Dict String RateLimitConfig
      → Result EnforcerError (Option (Enforcer L))
  unfolding add_limits
  new_enforcer factories redis [] = ok none
  new_enforcer factories redis (c ∷ cs) =
      let name = if redis then "redis" else "memory" in
      with_factory name (c ∷ cs) (lookup name factories)
