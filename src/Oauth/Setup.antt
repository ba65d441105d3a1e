-- ===== src/Oauth/Setup.antt =====
-- pkg/auth/outbound/oauth2usersession/oauth2usersession.go: how the strategy of an upstream is set
-- up from its configuration. OIDC discovery and the expansion of environment variables are
-- parameters.
use go_auto_mcp.Prelude.{
  check, check-ok, inr, inl, Result-cases, arith, ◌⊎◌, Bool, false, Option, none, some, List, [],
  ◌≡◌, refl, Text, codes, text_eq, ◌==◌, Result, err, ok, ◌>>=◌, >>=-eq-ok, if◌then◌else◌, lookup,
  lookup-insert, ok-injective, not,
}
use mathlib.Core.Path.{subst}
use go_auto_mcp.Oauth.{Provider}
use go_auto_mcp.Oauth.Callback.{Mux, register_provider}

-- config.OAuth2UserSessionConfig
pub record SessionConfig : Type 0 where
  pub provider : Text
  pub client_id : Text
  pub client_secret : Text
  pub issuer_url : Text
  pub auth_url : Text
  pub token_url : Text
  pub scopes : List Text
  pub callback_url : Text

-- what newProvider reads of config.OutboundAuthConfig; the first Boolean tells that there is a store
-- for tokens, the second that there is a registrar
pub record OutboundConfig : Type 0 where
  pub has_store : Bool
  pub has_registrar : Bool
  pub upstream : Text
  pub session : SessionConfig

pub data SetupError : Type 0 where
  no_store no_registrar no_upstream no_client_id no_callback_url : SetupError
  no_issuer no_auth_url no_token_url no_provider unknown_provider not_discovered : SetupError

abbrev Endpoints : Type 0
Endpoints = Text × Text

abbrev github : Endpoints
github = (
  codes "https://github.com/login/oauth/authorize",
  codes "https://github.com/login/oauth/access_token",
)

abbrev google : Endpoints
google =
    (codes "https://accounts.google.com/o/oauth2/auth", codes "https://oauth2.googleapis.com/token")

abbrev gitlab : Endpoints
gitlab = (codes "https://gitlab.com/oauth/authorize", codes "https://gitlab.com/oauth/token")

abbrev slack : Endpoints
slack =
    (codes "https://slack.com/oauth/v2/authorize", codes "https://slack.com/api/oauth.v2.access")

-- `if text == "" { return err }`
abbrev pub required : SetupError → Text → Result SetupError Unit
required e text = check e (not (text == []))

module _ (discover : Text → Option Endpoints) (expand : Text → Text) where
  abbrev discovered : Option Endpoints → Result SetupError Endpoints
  discovered none = err not_discovered
  discovered (some found) = ok found

  -- resolveEndpoints
  unfoldable pub resolve_endpoints : SessionConfig → Result SetupError Endpoints
  resolve_endpoints cfg =
      let name = cfg.provider in
      if name == codes "github"
      then ok github
      else if name == codes "google"
      then ok google
      else if name == codes "gitlab"
      then ok gitlab
      else if name == codes "slack"
      then ok slack
      else if name == codes "oidc"
      then (required no_issuer cfg.issuer_url >>= λ u. discovered (discover cfg.issuer_url))
      else if name == codes "oauth2"
      then (do
        _ ← required no_auth_url cfg.auth_url
        _ ← required no_token_url cfg.token_url
        ok (cfg.auth_url, cfg.token_url))
      else if name == []
      then err no_provider
      else err unknown_provider

  -- the checks and the resolution of newProvider, and the entry that it registers
  unfoldable pub checked_provider : OutboundConfig → Result SetupError Provider
  unfolding resolve_endpoints
  checked_provider cfg = do
    _ ← check no_store cfg.has_store
    _ ← check no_registrar cfg.has_registrar
    _ ← required no_upstream cfg.upstream
    _ ← required no_client_id cfg.session.client_id
    _ ← required no_callback_url cfg.session.callback_url
    (auth, token) ← resolve_endpoints cfg.session
    ok (record {
      auth_url = auth;
      token_url = token;
      client_id = cfg.session.client_id;
      client_secret = expand cfg.session.client_secret;
      scopes = cfg.session.scopes;
      redirect_url = cfg.session.callback_url;
    })

  -- newProvider, with the registrar's Mux
  unfoldable pub new_provider : OutboundConfig → Mux → Result SetupError Provider × Mux
  unfolding checked_provider
  new_provider cfg m = elim (checked_provider cfg) [
    | err e ↦ (err e, m)
    | ok entry ↦ (ok entry, register_provider cfg.upstream entry m)
  ]

  -- what a provider that is set up has of its configuration
  pub record Configured (cfg : OutboundConfig) (entry : Provider) : Type 0 where
    pub named : (cfg.upstream == []) ≡ false
    pub has_client : (entry.client_id == []) ≡ false
    pub has_callback : (entry.redirect_url == []) ≡ false
    pub endpoints : resolve_endpoints cfg.session ≡ ok (entry.auth_url, entry.token_url)

  required-ok : (e : SetupError) (text : Text) → required e text ≡ ok tt → (text == []) ≡ false
  required-ok e text h = ground (arith, check-ok e (not (text == [])) h)

  checked_provider-Configured :
      (cfg : OutboundConfig) (entry : Provider)
      → checked_provider cfg ≡ ok entry
      → Configured cfg entry
  unfolding checked_provider
  checked_provider-Configured cfg entry h =
      let (a, h_a, h1) = >>=-eq-ok (check no_store cfg.has_store) _ h in
      let (b, h_b, h2) = >>=-eq-ok (check no_registrar cfg.has_registrar) _ h1 in
      let (c, h_c, h3) = >>=-eq-ok (required no_upstream cfg.upstream) _ h2 in
      let (d, h_d, h4) = >>=-eq-ok (required no_client_id cfg.session.client_id) _ h3 in
      let (e, h_e, h5) = >>=-eq-ok (required no_callback_url cfg.session.callback_url) _ h4 in
      let ((auth, token), h_f, h6) = >>=-eq-ok (resolve_endpoints cfg.session) _ h5 in
      let same = ok-injective h6 in
      subst (Configured cfg) same (record {
        named = required-ok no_upstream cfg.upstream h_c;
        has_client = required-ok no_client_id cfg.session.client_id h_d;
        has_callback = required-ok no_callback_url cfg.session.callback_url h_e;
        endpoints = h_f;
      })

  -- A strategy that is set up has an upstream's name, a client, a callback address and the endpoints
  -- of its provider; the callback then finds it under this upstream, and every other upstream as
  -- before. One that is refused registers nothing.
  pub new_provider_registers :
      (cfg : OutboundConfig) (m : Mux) (at : Text)
      → ((e : SetupError) × (new_provider cfg m ≡ (err e, m)))
        ⊎ ((entry : Provider) × ((new_provider cfg m).0 ≡ ok entry)
            × Configured cfg entry
            × (lookup at (new_provider cfg m).1.providers
                ≡ (if cfg.upstream == at then some entry else lookup at m.providers)))
  unfolding new_provider register_provider
  new_provider_registers cfg m at = elim (Result-cases (checked_provider cfg)) [
    | inl (e, h) ↦ inl (e, rw (h, new_provider) refl)
    | inr (entry, h) ↦ inr (
      entry,
      rw (h, new_provider) refl,
      checked_provider-Configured cfg entry h,
      rw (h, new_provider) (lookup-insert cfg.upstream at entry m.providers),
    )
  ]
