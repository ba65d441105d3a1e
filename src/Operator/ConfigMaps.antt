-- ===== src/Operator/ConfigMaps.antt =====
-- pkg/operator/controller/mcpproxy_controller.go: the ConfigMaps that the operator keeps for a proxy.
-- The API server is the interface ConfigMapStore; a ConfigMap is named by namespace and name, and its
-- Data is a map that may be nil.
use go_auto_mcp.Prelude.{
  Bool, true, false, Option, none, some, List, [], ◌∷◌, ◌++◌, ◌≡◌, Text, codes, text_eq, ◌==◌, ◌&&◌,
  pair_eq, Result, err, ok, if◌then◌else◌, Dict, lookup, insert, or_fail,
}
use go_auto_mcp.Operator.{KeyRef, Upstream, Proxy, value_at}
use go_auto_mcp.Operator.Generator.{file_name}

abbrev pub Data : Type 0
Data = Option (Dict Text Text)

-- what Get answers
pub data Fetched : Type 0 where
  found : Data → Fetched
  not_found broken : Fetched

-- The API server over its states C. `put` is Create or Update, with a flag that tells that no error
-- came back; then Get gives the new data under that name, and elsewhere what it gave before.
-- `can_own` is whether SetControllerReference takes the proxy as the owner of a new ConfigMap.
pub record ConfigMapStore (C : Type 0) : Type 0 where
  pub get : Text × Text → C → Fetched
  pub put : Text × Text → Data → C → C × Bool
  pub can_own : Text × Text → Bool
  pub get-put :
      (key at : Text × Text) (data_map : Data) (c : C)
      → (put key data_map c).1 ≡ true
      → get at (put key data_map c).0 ≡ (if key == at then found data_map else get at c)

pub data ReconcileError : Type 0 where
  not_owned not_written not_read no_source no_key : ReconcileError

abbrev pub nil_map : Data → Dict Text Text
nil_map none = []
nil_map (some m) = m

-- success or an error, with the state of the store
abbrev pub Outcome : Type 0 → Type 0
Outcome C = Result ReconcileError Unit × C

module _ {C : Type 0} where
  abbrev pub written : C × Bool → Outcome C
  written (c, true) = (ok tt, c)
  written (c, false) = (err not_written, c)

  abbrev pub then_run : Outcome C → (C → Outcome C) → Outcome C
  then_run (err e, c) next = (err e, c)
  then_run (ok u, c) next = next c

abbrev pub has_value : Text → Text → Data → Bool
has_value key value none = false
has_value key value (some m) = value_at key m == value

-- reflect.DeepEqual of the data with a map of one entry
abbrev pub is_single : Text → Text → Data → Bool
is_single key value none = false
is_single key value (some []) = false
is_single key value (some ((k, v) ∷ [])) = k == key && v == value
is_single key value (some (e ∷ (f ∷ m))) = false

-- the value that a reference has in the upstream's namespace
abbrev pub source_value : KeyRef → Fetched → Result ReconcileError Text
source_value ref not_found = err no_source
source_value ref broken = err no_source
source_value ref (found data_map) = or_fail no_key (lookup ref.key (nil_map data_map))

abbrev pub overlay_ref : Option (Option KeyRef) → Option KeyRef
overlay_ref none = none
overlay_ref (some ref) = ref

module _ {C : Type 0} (store : ConfigMapStore C) where
  abbrev pub created : Text × Text → Data → C → Outcome C
  created name data_map c =
      if store.can_own name then written (store.put name data_map c) else (err not_owned, c)

  abbrev pub upsert_fetched : Text × Text → Text → Text → C → Fetched → Outcome C
  upsert_fetched name key value c not_found = created name (some ((key, value) ∷ [])) c
  upsert_fetched name key value c broken = (err not_read, c)
  upsert_fetched name key value c (found data_map) =
      if has_value key value data_map
      then (ok tt, c)
      else written (store.put name (some (insert key value (nil_map data_map))) c)

  -- upsertConfigMap
  unfoldable pub upsert_config_map : Text × Text → Text → Text → C → Outcome C
  upsert_config_map name key value c = upsert_fetched name key value c (store.get name c)

  abbrev pub reconcile_fetched : Text × Text → Text → C → Fetched → Outcome C
  reconcile_fetched name config c not_found =
      created name (some ((codes "config.yaml", config) ∷ [])) c
  reconcile_fetched name config c broken = (err not_read, c)
  reconcile_fetched name config c (found data_map) =
      if is_single (codes "config.yaml") config data_map
      then (ok tt, c)
      else written (store.put name (some ((codes "config.yaml", config) ∷ [])) c)

  -- reconcileConfigMap
  unfoldable pub reconcile_config_map : Proxy → Text → C → Outcome C
  reconcile_config_map proxy config c =
      let name : Text × Text = (proxy.namespace, proxy.name ++ codes "-config") in
      reconcile_fetched name config c (store.get name c)

  abbrev pub copy_value : Proxy → Text → Upstream → Result ReconcileError Text → C → Outcome C
  copy_value proxy suffix up (err e) c = (err e, c)
  copy_value proxy suffix up (ok value) c =
      upsert_config_map (proxy.namespace, proxy.name ++ suffix) (file_name up) value c

  -- reconcileUpstreamSpecCM and reconcileUpstreamOverlayCM, for their suffixes and references
  unfoldable pub copy_ref : Proxy → Text → Upstream → Option KeyRef → C → Outcome C
  unfolding upsert_config_map
  copy_ref proxy suffix up none c = (ok tt, c)
  copy_ref proxy suffix up (some ref) c =
      copy_value proxy suffix up (source_value ref (store.get (up.namespace, ref.name) c)) c

  unfoldable pub reconcile_upstream : Proxy → Upstream → C → Outcome C
  unfolding copy_ref
  reconcile_upstream proxy up c =
      if up.spec.kind == codes "command"
      then (ok tt, c)
      else then_run (copy_ref proxy (codes "-specs") up up.spec.openapi.config_map_ref c)
          (copy_ref proxy (codes "-overlays") up (overlay_ref up.spec.overlay))

  -- reconcileUpstreamConfigMaps
  unfoldable pub reconcile_upstreams : Proxy → List Upstream → C → Outcome C
  unfolding reconcile_upstream
  reconcile_upstreams proxy [] c = (ok tt, c)
  reconcile_upstreams proxy (up ∷ ups) c =
      then_run (reconcile_upstream proxy up c) (reconcile_upstreams proxy ups)
