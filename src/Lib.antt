-- ===== src/Lib.antt =====
-- mcp-auto turns OpenAPI specs into tools of an MCP server, and proxies the calls. For each
-- upstream, operations become tools with names and descriptions within limits; the tools of all
-- upstreams are put in one registry with groups that show a part of them; a background loop
-- fetches each spec again and tells the manager, which rebuilds the registry.
-- The files and the code:
-- - Prelude: what the parts share. Go strings that are compared whole are native strings, strings
--   that are walked are lists of code points; maps are association lists in which the first entry
--   of a key counts; an int is an integer of Integers.
-- - Naming: pkg/openapi/naming.go. Slug has Slugify, slugVerb, ToolBaseName and
--   sanitizeIdentifier, each regular expression as one pass over the text; Limit has PrefixedName
--   and TruncateDescription; Conflicts has DetectConflicts, with its three resolutions.
-- - Upstreams/Registry: pkg/upstream/registry.go, New and NewFromEntries with their loops, and
--   the lookups and dispatchers. A JSONPath is a function from a root node to the nodes it
--   selects, and jsonpath.NewPath is a parameter.
-- - Refresh: pkg/upstream/http/refresh.go, the loop of Start as a run over ticks. The manager,
--   the overlay merge and the pipeline that builds entries are parameters;
--   Manager/Update/Refreshed puts the manager itself in. The failure counter is an int32.
-- - Manager: pkg/mcp/manager.go. Apply has applyRegistryLocked and applyResourcesLocked over the
--   sdk's servers, which are the interface ServerOps; Update has UpdateUpstream, RemoveUpstream
--   and rebuildFromStateLocked. A Go map is visited in the order of its list. Calls has
--   DispatchForGroup with its cache, checkRateLimit, rateLimitKey and the handler's order of
--   steps, over a world that executors act on; Rebuild has Rebuild with its checks in their
--   order. Views has AuthRequired, ToolUpstreamName and the tools/list middleware. The mutex
--   makes each operation one step.
-- - Oauth: State has signedState and verifyState of pkg/oauth/callbackmux, over an interface for
--   base64, JSON and HMAC; Callback has Mux with RegisterProvider, AuthURL and HandleCallback;
--   Memory is pkg/session/memory; Session and Setup are pkg/auth/outbound/oauth2usersession,
--   Provider.Token with doRefresh, newProvider and resolveEndpoints; Login puts callback and
--   session over one store. Time is an argument, in seconds; a background refresh is a call of
--   doRefresh at a later time.
-- - Inbound: Peek has what the middlewares of pkg/auth/inbound read of a request and write for an
--   error; Gate has ValidatorMiddleware and DispatchMiddleware; Waived puts the manager's
--   AuthRequired behind them; Keys has the API keys and the checks of an introspection. A
--   JSON-RPC message is decoded by a parameter.
-- - Operator: pkg/operator/controller and pkg/operator/configgen over the records of
--   pkg/crd/v1alpha1. Annotations has serviceToMCPUpstream; Discovery has listUpstreams,
--   listAnnotatedServices and the functions that map an event to proxies, over a read-only view
--   of the cluster; Triggers and Discovered prove how they fit together; Prefixes has
--   detectPrefixConflicts; Generator has the upstreams of configgen; ConfigMaps has
--   upsertConfigMap and its callers over the API server's ConfigMaps.
-- - Http: Format has pkg/content/format.go and Errors pkg/content/error.go, over JSON values
--   whose texts are decoded and written by parameters, and jq programs as functions to the list
--   of their outputs; Dispatch has httpDispatchWithStatus of pkg/upstream/http/executor.go and
--   Breaker its ServeHTTP, with gobreaker as an interface; Sent proves which request is sent.
-- - Openapi: pkg/openapi/inputschema.go. Arguments has DeriveArgMapping, Schema has
--   DeriveInputSchema, paramSchemaFull and openAPISchemaToJSONSchema; a reference that does not
--   resolve is none, and the numbers of a schema are texts. Generator has GenerateTools of
--   pkg/openapi/generator.go with mergeParams, classifyParams and resolveToolUIConfig, without
--   the YAML nodes. Collected, Named and Agreed prove the names, Generator/Merged the merge,
--   Generator/Unique the names of the tools.
-- - Command: pkg/upstream/command. Build has BuildTools; Run has Def.Execute with buildCmd,
--   shellSafeValue and the results, over a process that is a parameter, and text/template as a
--   function that renders a text; Tokens has validateNonShellTokens, Expand has expandBraced,
--   Writer has limitWriter, and Quote has shellQuote with the rules by which a POSIX shell reads
--   a word. The loop of expandBraced has the length of the value and one as fuel, which is proved
--   to be enough. Texts are characters; in a limit and in the position of an error they are
--   bytes.
-- - Config: pkg/config/loader.go. Watch has NewLoader, Watch with its timer in milliseconds and
--   tryReload, whose steps run beside the loop and beside each other; Load and onLoad are
--   parameters, and the watcher is one that fsnotify could make. Defaults has
--   applyElementDefaults over the keys that the raw configuration has.
-- - Cache: pkg/cache/cache.go, ComputeKey. A value is what json.Unmarshal gives; the texts of its
--   scalars and of strings and the hash are parameters, and sorting is by insertion.
-- - Openapi/Jq: pkg/openapi/request_jq.go. Jq has GenerateRequestJq; Read has the rules by which
--   jq reads objects, fields and strings, as far as the generated expressions go, with the length
--   of the text as fuel, which is proved to be enough.
-- - Ratelimit: pkg/ratelimit/ratelimit.go: extractClientIP and the Enforcer. A limiter is a
--   parameter with the function that records a hit; the factories of the stores are given with
--   what they return.
-- Every other loop is over a list and needs no fuel. Strings in lower and upper case are ASCII,
-- which is what they are where the code changes case after its first substitution; method names
-- are HTTP's.
-- Not modelled: network and process I/O, the YAML, OpenAPI, JSONPath, MCP and telemetry
-- libraries, and logging; nor the rest of the pipeline of pkg/openapi (loading, overlays,
-- validation), the building of request URLs, scripts (pkg/upstream/script), the verification of
-- JWTs (pkg/auth/inbound/jwt), the script runtimes, transforms and the search index.
pub mod Cache
pub mod Command
pub mod Config
pub mod Http
pub mod Inbound
pub mod Manager
pub mod Naming
pub mod Oauth
pub mod Openapi
pub mod Operator
pub mod Prelude
pub mod Ratelimit
pub mod Refresh
pub mod Upstreams
