-- ===== src/Manager/Calls.antt =====
-- pkg/mcp/manager.go: a tool call, from the rate limit over the cache to the registry.
-- The executor of an entry acts on the world W; the limiter, the cache store, the cache key and the
-- parsing of arguments are parameters, as are the texts that Sprintf builds.
pub mod Caching
pub mod Limits
mod Tests
use go_auto_mcp.Prelude.{
  ℕ, String, Bool, true, false, not, Option, none, some, ◌≡◌, ◌⊎◌, string_eq, ◌==◌, Dict, lookup,
  if◌then◌else◌,
}
use go_auto_mcp.Upstreams.Registry.{Entry, Registry}
use go_auto_mcp.Upstreams.Registry.Calls.{
  Refusal, refused, run, unknown_group, not_in_group, unknown_tool, missing_separator,
  dispatch_for_group, entry_for_tool,
}
use go_auto_mcp.Manager.{concat}

-- sdkmcp.CallToolResult, with its content as a text
pub record CallResult : Type 0 where
  pub is_error : Bool
  pub content : String

-- A Go pair of a result, which may be nil, and an error.
pub data Reply : Type 0 where
  returned : CallResult → Reply
  nothing : Reply
  failed : String → Reply

abbrev pub error_result : String → CallResult
error_result text = record { is_error = true; content = text }

unfoldable pub refusal_text : Refusal → String
unfolding concat
refusal_text (unknown_group group) = concat "unknown group: " group
refusal_text (not_in_group name) = concat "tool not available in this group: " name
refusal_text (unknown_tool name) = concat "unknown tool: " name
refusal_text (missing_separator name) = concat "tool name missing prefix separator: " name

-- The cache store: what Get finds after Set was there before, or is what Set put under that key;
-- the Boolean of Set tells that no error came back.
pub record StoreOps (T : Type 0) : Type 0 where
  pub get : String → T → Option CallResult
  pub set : String → CallResult → ℕ → T → T × Bool
  pub get-set :
      (key at : String) (value found : CallResult) (ttl : ℕ) (t : T)
      → get at (set key value ttl t).0 ≡ some found
      → ((at ≡ key) × (found ≡ value)) ⊎ (get at t ≡ some found)

-- config.CacheConfig
pub record CacheConfig : Type 0 where
  pub per_user : Bool
  pub ttl : ℕ

-- what a call reads of the manager
pub record Live (T : Type 0) : Type 0 where
  pub registry : Option Registry
  pub store : Option T
  pub cache_configs : Dict String CacheConfig

-- what a call's context carries: the subject of its token, if it has one, and the client's address
pub record Context : Type 0 where
  pub subject : Option String
  pub client_ip : String

abbrev pub or_blank : Option String → String
or_blank none = ""
or_blank (some s) = s

-- the store and the configuration that a call is cached with, if it is
pub cache_plan : {T : Type 0} → Live T → Registry → String → Option (T × CacheConfig)
unfolding entry_for_tool
cache_plan live r tool = elim live.store [
  | none ↦ none
  | some t ↦ elim (entry_for_tool r tool) [
    | none ↦ none
    | some e ↦ if e.cache_name == "" then none else elim (lookup e.cache_name live.cache_configs) [
      | none ↦ none
      | some cfg ↦ some (t, cfg)
    ]
  ]
]

module _ {A W T : Type 0} (execute : Entry → A → W → Reply × W) (ops : StoreOps T)
    (compute_key : String → A → Bool → String → Option String) where
  -- Registry.DispatchForGroup and handleToolCall
  pub dispatch_registry : Registry → String → String → A → W → Reply × W
  unfolding dispatch_for_group refusal_text
  dispatch_registry r group tool args w = elim (dispatch_for_group r group tool) [
    | refused why ↦ (returned (error_result (refusal_text why)), w)
    | run e ↦ execute e args w
  ]

  abbrev pub set_unless : Bool → String → CallResult → ℕ → T → T
  set_unless true key res ttl t = t
  set_unless false key res ttl t = (ops.set key res ttl t).0

  -- the Set behind a miss
  abbrev pub remember : String → Reply → ℕ → T → T
  remember key nothing ttl t = t
  remember key (failed e) ttl t = t
  remember key (returned res) ttl t = set_unless res.is_error key res ttl t

  pub dispatch_cached :
      Live T → Registry → String → String → A → W → String → T × CacheConfig → Reply × W × Live T
  unfolding dispatch_registry
  dispatch_cached live r group tool args w key (t, cfg) = elim (ops.get key t) [
    | some cached ↦ (returned cached, w, live)
    | none ↦
        let (reply, w') = dispatch_registry r group tool args w in
        (reply, w', record live { store = some (remember key reply cfg.ttl t) })
  ]

  abbrev pub dispatch_plain : Live T → Registry → String → String → A → W → Reply × W × Live T
  dispatch_plain live r group tool args w =
      let (reply, w') = dispatch_registry r group tool args w in (reply, w', live)

  -- the body, for the registry that was read
  pub dispatch_loaded :
      Live T → Context → String → String → A → W → Option Registry → Reply × W × Live T
  unfolding cache_plan dispatch_cached
  dispatch_loaded live ctx group tool args w none =
      (returned (error_result "no config loaded"), w, live)
  dispatch_loaded live ctx group tool args w (some r) = elim (cache_plan live r tool) [
    | none ↦ dispatch_plain live r group tool args w
    | some (t, cfg) ↦
        let subject = if cfg.per_user then or_blank ctx.subject else "" in
        elim (compute_key tool args cfg.per_user subject) [
          | none ↦ dispatch_plain live r group tool args w
          | some key ↦ dispatch_cached live r group tool args w key (t, cfg)
        ]
  ]

  -- Manager.DispatchForGroup
  pub dispatch_call : Live T → Context → String → String → A → W → Reply × W × Live T
  unfolding dispatch_loaded
  dispatch_call live ctx group tool args w =
      dispatch_loaded live ctx group tool args w live.registry
