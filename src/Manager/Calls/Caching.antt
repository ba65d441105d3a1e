-- ===== src/Manager/Calls/Caching.antt =====
-- The cache of calls: what it answers and what it keeps.
use go_auto_mcp.Prelude.{
  ℕ, String, ◌≡◌, refl, sym, ap, ◌∙◌, Bool, true, false, Option, none, some, List, [], ◌∷◌, inl,
  inr, Option-cases, Bool-cases, if◌then◌else◌, string_eq, ◌==◌, lookup,
}
use mathlib.Core.Path.{subst}
use go_auto_mcp.Upstreams.Registry.{Entry, Registry}
use go_auto_mcp.Upstreams.Registry.Calls.{entry_for_tool}
use go_auto_mcp.Manager.Calls.{
  error_result, set_unless, CallResult, Reply, returned, nothing, failed, StoreOps, CacheConfig,
  Live, Context, cache_plan, dispatch_registry, remember, dispatch_cached, dispatch_loaded,
  dispatch_call, or_blank,
}

-- one call, as it arrives
pub record Call (A : Type 0) : Type 0 where
  pub context : Context
  pub group : String
  pub tool : String
  pub args : A

some-injective : {T : Type 0} {x y : T} → some x ≡ some y → x ≡ y
some-injective h = cc

none-ne-some : {T : Type 0} {x : T} → none ≡ some x → ⊥
none-ne-some h = absurd cc

-- what a plan says of the registry and the configurations
plan_parts :
    {T : Type 0} (live : Live T) (r : Registry) (tool : String) (t : T) (cfg : CacheConfig)
    → cache_plan live r tool ≡ some (t, cfg)
    → (entry : Entry) × (live.store ≡ some t)
      × (entry_for_tool r tool ≡ some entry)
      × ((entry.cache_name == "") ≡ false)
      × (lookup entry.cache_name live.cache_configs ≡ some cfg)
unfolding cache_plan
plan_parts live r tool t cfg h = elim (Option-cases live.store) [
  | inl no_store ↦ absurd (none-ne-some (sym (simp (no_store, cache_plan)) ∙ h))
  | inr (t', stored) ↦ elim (Option-cases (entry_for_tool r tool)) [
    | inl missing ↦ absurd (none-ne-some (sym (simp (stored, missing, cache_plan)) ∙ h))
    | inr (entry, found) ↦ elim (Bool-cases (entry.cache_name == "")) [
      | inl blank ↦ absurd (none-ne-some (sym (simp (stored, found, blank, cache_plan)) ∙ h))
      | inr named ↦ elim (Option-cases (lookup entry.cache_name live.cache_configs)) [
        | inl unknown ↦
            absurd (none-ne-some (sym (simp (stored, found, named, unknown, cache_plan)) ∙ h))
        | inr (cfg', configured) ↦
            let both : (t', cfg') ≡ (t, cfg) =
              some-injective (sym (simp (stored, found, named, configured, cache_plan)) ∙ h) in
            (
              entry,
              stored ∙ ap (λ x. some x.0) both,
              found,
              named,
              configured ∙ ap (λ x. some x.1) both,
            )
      ]
    ]
  ]
]

module _ {A W T : Type 0} (execute : Entry → A → W → Reply × W) (ops : StoreOps T)
    (compute_key : String → A → Bool → String → Option String) where
  abbrev pub dispatched : Registry → Call A → W → Reply × W
  dispatched r c w = dispatch_registry execute ops compute_key r c.group c.tool c.args w

  abbrev pub called : Live T → Call A → W → Reply × W × Live T
  called live c w = dispatch_call execute ops compute_key live c.context c.group c.tool c.args w

  -- The call is cached under a key: the loaded registry has the tool, its entry names a cache that
  -- is configured, and the key is that of the tool and its arguments, with the caller's subject
  -- where the cache is per user.
  pub record Keyed (live : Live T) (c : Call A) (t : T) (cfg : CacheConfig) (key : String)
      : Type 0 where
    pub registry : Registry
    pub entry : Entry
    pub loaded : live.registry ≡ some registry
    pub stored : live.store ≡ some t
    pub found : entry_for_tool registry c.tool ≡ some entry
    pub named : (entry.cache_name == "") ≡ false
    pub configured : lookup entry.cache_name live.cache_configs ≡ some cfg
    pub computed :
        compute_key c.tool c.args cfg.per_user
          (if cfg.per_user then or_blank c.context.subject else "")
        ≡ some key

  -- How a call can end: with no registry, from the cache, past the cache, or by a miss.
  pub data Answered (live : Live T) (c : Call A) (w : W) (out : Reply × W × Live T) : Type 0 where
    unloaded :
        live.registry ≡ none
        → out ≡ (returned (error_result "no config loaded"), w, live)
        → Answered live c w out
    hit :
        {key : String} {t : T} {cfg : CacheConfig} (cached : CallResult)
        → Keyed live c t cfg key
        → ops.get key t ≡ some cached
        → out ≡ (returned cached, w, live)
        → Answered live c w out
    plain :
        (r : Registry)
        → live.registry ≡ some r
        → ((t : T) (cfg : CacheConfig) (key : String) → ¬ Keyed live c t cfg key)
        → (out.0, out.1) ≡ dispatched r c w
        → out.2 ≡ live
        → Answered live c w out
    miss :
        (r : Registry) {key : String} {t : T} {cfg : CacheConfig}
        → live.registry ≡ some r
        → Keyed live c t cfg key
        → ops.get key t ≡ none
        → (out.0, out.1) ≡ dispatched r c w
        → out.2
          ≡ record live { store = some (remember execute ops compute_key key out.0 cfg.ttl t) }
        → Answered live c w out

  -- no result that the store can give is an error
  pub record NoErrors (live : Live T) : Type 0 where
    pub free :
        (t : T) (key : String) (found : CallResult)
        → live.store ≡ some t
        → ops.get key t ≡ some found
        → found.is_error ≡ false

  abbrev FreeOfErrors : T → Type 0
  FreeOfErrors t =
      (key : String) (found : CallResult) → ops.get key t ≡ some found → found.is_error ≡ false

  set_unless-FreeOfErrors :
      (error : Bool) (key : String) (res : CallResult) (ttl : ℕ) (t : T)
      → res.is_error ≡ error
      → FreeOfErrors t
      → FreeOfErrors (set_unless execute ops compute_key error key res ttl t)
  set_unless-FreeOfErrors true key res ttl t e h = h
  set_unless-FreeOfErrors false key res ttl t e h = λ at found k.
      elim (ops.get-set key at res found ttl t k) [
        | inl (same, f) ↦ ap (λ x. x.is_error) f ∙ e
        | inr before ↦ h at found before
      ]

  remember-FreeOfErrors :
      (key : String) (reply : Reply) (ttl : ℕ) (t : T)
      → FreeOfErrors t
      → FreeOfErrors (remember execute ops compute_key key reply ttl t)
  remember-FreeOfErrors key nothing ttl t h = h
  remember-FreeOfErrors key (failed e) ttl t h = h
  remember-FreeOfErrors key (returned res) ttl t h =
      set_unless-FreeOfErrors res.is_error key res ttl t refl h

  plan-Keyed :
      (live : Live T) (r : Registry) (c : Call A) (t : T) (cfg : CacheConfig) (key : String)
      → live.registry ≡ some r
      → cache_plan live r c.tool ≡ some (t, cfg)
      → compute_key c.tool c.args cfg.per_user
          (if cfg.per_user then or_blank c.context.subject else "")
        ≡ some key
      → Keyed live c t cfg key
  plan-Keyed live r c t cfg key loaded planned computed =
      let (entry, stored, found, named, configured) = plan_parts live r c.tool t cfg planned in
      record {
        registry = r;
        entry = entry;
        loaded = loaded;
        stored = stored;
        found = found;
        named = named;
        configured = configured;
        computed = computed;
      }

  Keyed-plan :
      (live : Live T) (r : Registry) (c : Call A) (t : T) (cfg : CacheConfig) (key : String)
      → live.registry ≡ some r
      → Keyed live c t cfg key
      → cache_plan live r c.tool ≡ some (t, cfg)
  unfolding cache_plan
  Keyed-plan live r c t cfg key loaded k =
      let same : k.registry ≡ r = some-injective (sym k.loaded ∙ loaded) in
      let found : entry_for_tool r c.tool ≡ some k.entry =
        ap (λ x. entry_for_tool x c.tool) (sym same) ∙ k.found in
      rw (k.stored, found, k.named, k.configured, cache_plan) refl

  -- A call with a key in hand is a hit or a miss.
  cached-Answered :
      (live : Live T) (r : Registry) (c : Call A) (w : W) (key : String) (t : T) (cfg : CacheConfig)
      → live.registry ≡ some r
      → Keyed live c t cfg key
      → Answered live c w
          (dispatch_cached execute ops compute_key live r c.group c.tool c.args w key (t, cfg))
  unfolding dispatch_cached
  cached-Answered live r c w key t cfg loaded keyed = elim (Option-cases (ops.get key t)) [
    | inl absent ↦ rw (absent, dispatch_cached) (miss r loaded keyed absent refl refl)
    | inr (cached, found) ↦ rw (found, dispatch_cached) (hit cached keyed found refl)
  ]

  not_planned :
      (live : Live T) (r : Registry) (c : Call A)
      → live.registry ≡ some r
      → cache_plan live r c.tool ≡ none
      → (t : T) (cfg : CacheConfig) (key : String) → ¬ Keyed live c t cfg key
  not_planned live r c loaded uncached t cfg key k =
      none-ne-some (sym uncached ∙ Keyed-plan live r c t cfg key loaded k)

  no_key :
      (live : Live T) (r : Registry) (c : Call A) (t : T) (cfg : CacheConfig)
      → live.registry ≡ some r
      → cache_plan live r c.tool ≡ some (t, cfg)
      → compute_key c.tool c.args cfg.per_user
          (if cfg.per_user then or_blank c.context.subject else "")
        ≡ none
      → (t' : T) (cfg' : CacheConfig) (key : String) → ¬ Keyed live c t' cfg' key
  no_key live r c t cfg loaded planned none_computed t' cfg' key k =
      let both : (t', cfg') ≡ (t, cfg) =
        some-injective (sym (Keyed-plan live r c t' cfg' key loaded k) ∙ planned) in
      let key_for = λ (x : T × CacheConfig).
        compute_key c.tool c.args x.1.per_user
          (if x.1.per_user then or_blank c.context.subject else "") in
      none-ne-some (sym none_computed ∙ (sym (ap key_for both) ∙ k.computed))

  loaded-Answered :
      (live : Live T) (c : Call A) (w : W) (loaded : Option Registry)
      → live.registry ≡ loaded
      → Answered live c w
          (dispatch_loaded execute ops compute_key live c.context c.group c.tool c.args w loaded)
  unfolding dispatch_loaded
  loaded-Answered live c w none h = unloaded h refl
  loaded-Answered live c w (some r) h = elim (Option-cases (cache_plan live r c.tool)) [
    | inl uncached ↦
        rw (uncached, dispatch_loaded) (plain r h (not_planned live r c h uncached) refl refl)
    | inr ((t, cfg), planned) ↦
        let subject = if cfg.per_user then or_blank c.context.subject else "" in
        elim (Option-cases (compute_key c.tool c.args cfg.per_user subject)) [
          | inl failed_key ↦
              rw (planned, failed_key, dispatch_loaded)
                (plain r h (no_key live r c t cfg h planned failed_key) refl refl)
          | inr (key, computed) ↦
              rw (planned, computed, dispatch_loaded)
                (cached-Answered live r c w key t cfg h
                  (plan-Keyed live r c t cfg key h planned computed))
        ]
  ]

  pub dispatch_call-Answered :
      (live : Live T) (c : Call A) (w : W) → Answered live c w (called live c w)
  unfolding dispatch_call
  dispatch_call-Answered live c w = loaded-Answered live c w live.registry refl

  Answered-NoErrors :
      (live : Live T) (c : Call A) (w : W) (out : Reply × W × Live T)
      → Answered live c w out
      → NoErrors live
      → NoErrors out.2
  Answered-NoErrors live c w out (unloaded a e) h = subst NoErrors (sym (ap (λ x. x.2) e)) h
  Answered-NoErrors live c w out (hit cached k b e) h = subst NoErrors (sym (ap (λ x. x.2) e)) h
  Answered-NoErrors live c w out (plain r a n b e) h = subst NoErrors (sym e) h
  Answered-NoErrors live c w out (miss r {key} {t} {cfg} a k n d e) h =
      let kept = remember execute ops compute_key key out.0 cfg.ttl t in
      let free : FreeOfErrors kept =
        remember-FreeOfErrors key out.0 cfg.ttl t (λ at found g. h.free t at found k.stored g) in
      subst NoErrors (sym e)
        (record { free = λ u at found g l. subst FreeOfErrors (some-injective g) free at found l })

  -- One call after the other, on one store and one world.
  unfoldable pub run_calls : List (Call A) → Live T → W → W × Live T
  unfolding dispatch_call
  run_calls [] live w = (w, live)
  run_calls (c ∷ cs) live w = let (reply, w', live') = called live c w in run_calls cs live' w'

  -- From a store that gives no error results, no calls make one that does.
  pub run_calls-NoErrors :
      (cs : List (Call A)) (live : Live T) (w : W)
      → NoErrors live
      → NoErrors (run_calls cs live w).1
  unfolding run_calls
  run_calls-NoErrors [] live w h = h
  run_calls-NoErrors (c ∷ cs) live w h =
      let out = called live c w in
      run_calls-NoErrors cs out.2 out.1
        (Answered-NoErrors live c w out (dispatch_call-Answered live c w) h)
