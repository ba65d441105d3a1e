-- ===== src/Manager/Calls/Tests.antt =====
-- Calls of one cached tool, and calls under a limit of the criterion "user".
use go_auto_mcp.Prelude.{
  ℕ, ◌+◌, String, ◌≡◌, refl, Bool, true, false, Option, none, some, [], ◌∷◌, ◌⊎◌, inl, inr,
  string_eq, ◌==◌, Dict, lookup, insert, lookup-insert, contains, arith, eq_iff, Bool-cases,
}
use go_auto_mcp.Upstreams.Registry.{Entry, Registry}
use go_auto_mcp.Manager.Calls.{CallResult, Reply, returned, StoreOps, Live, Context}
use go_auto_mcp.Manager.Calls.Caching.{Call, run_calls}
use go_auto_mcp.Manager.Calls.Limits.{Verdict, reached, Limits}

abbrev Store : Type 0
Store = Dict String CallResult

stored :
    (key at : String) (value found : CallResult) (ttl : ℕ) (t : Store)
    → lookup at (insert key value t) ≡ some found
    → ((at ≡ key) × (found ≡ value)) ⊎ (lookup at t ≡ some found)
stored key at value found ttl t h = elim (Bool-cases (key == at)) [
  | inl here ↦
      let e : some value ≡ some found = ground (arith, lookup-insert key at value t) in
      inl (ground (arith, eq_iff key at), cc)
  | inr off ↦ inr (ground (arith, lookup-insert key at value t))
]

abbrev ops : StoreOps Store
ops = record { get = lookup; set = λ key value ttl t. (insert key value t, true); get-set = stored }

-- the world counts the calls that reach an executor
abbrev count : Entry → String → ℕ → Reply × ℕ
count e args w = (returned (record { is_error = false; content = args }), w + 1)

abbrev plain_key : String → String → Bool → String → Option String
plain_key tool args per_user subject = some args

abbrev cached_entry : Entry
cached_entry = record {
  prefixed_name = "x";
  upstream = none;
  mcp_tool = record { name = "x" };
  auth_required = true;
  operation_node = none;
  rate_limit = "slow";
  ui_handler = none;
  cache_name = "short";
}

abbrev registry : Registry
registry = record {
  by_prefixed_name = ("x", cached_entry) ∷ [];
  by_prefix = [];
  by_upstream_name = [];
  spec_root_by_name = [];
  tool_list = [];
  separator = "_";
  groups = ("all", record { tool_list = []; tool_set = "x" ∷ [] }) ∷ [];
}

abbrev live : Live Store
live = record {
  registry = some registry;
  store = some [];
  cache_configs = ("short", record { per_user = true; ttl = 5 }) ∷ [];
}

abbrev ann : Context
ann = record { subject = some "ann"; client_ip = "10.0.0.1" }

abbrev bob : Context
bob = record { subject = some "bob"; client_ip = "10.0.0.1" }

abbrev ask : String → Call String
ask args = record { context = ann; group = "all"; tool = "x"; args = args }

-- the second of two equal calls is a hit
twice : (run_calls count ops plain_key (ask "q" ∷ ask "q" ∷ ask "r" ∷ []) live 0).0 ≡ 2
unfolding run_calls contains lookup insert
twice = refl

unsaved :
    (t : Store) (key : String) (found : CallResult)
    → some [] ≡ some t
    → lookup key t ≡ some found
    → ⊥
unfolding lookup
unsaved [] key found h k = absurd cc
unsaved (x ∷ xs) key found h k = absurd cc

-- a limiter that refuses every call, and counts them
abbrev refuse : String → String → ℕ → Verdict × ℕ
refuse limit_name key l = (reached 0 60, l + 1)

abbrev exceeded : String → ℕ → ℕ → String
exceeded limit_name remaining reset = "rate limit exceeded"

abbrev limits : Limits
limits = record { enforcer = true; sources = ("slow", "user") ∷ [] }

abbrev go : String → ℕ → Reply × ℕ
go = count cached_entry
