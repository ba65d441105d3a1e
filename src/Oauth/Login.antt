-- ===== src/Oauth/Login.antt =====
-- pkg/oauth/callbackmux and pkg/auth/outbound/oauth2usersession together: a callback and the session
-- that follows it, over one store.
use go_auto_mcp.Prelude.{
  ℕ, true, false, Option, some, [], ◌≡◌, ap, ◌∙◌, Text, text_eq, ◌==◌, ◌||◌, Result, ok, lookup,
}
use go_auto_mcp.Oauth.{Token, TokenStore, Provider, NulFree}
use go_auto_mcp.Oauth.State.{Codec, signed_state}
use go_auto_mcp.Oauth.Callback.{Mux, handle_callback, login}
use go_auto_mcp.Oauth.Session.{session_token, session_token_after_save, bearer, outlives}

module _ {S W E : Type 0} (codec : Codec) (store : TokenStore S)
    (exchange : Provider → Text → W → Result Text Token × W) (link : Text → Text → Result E Text)
    (token_source : Token → ℕ → W → Result Text Token × W) where
  -- After a callback with the state of a user's link, a code that the registered provider exchanges
  -- and a store that takes the token, this user's session at the upstream gives the token's access
  -- token, until it expires.
  pub session_token_after_login :
      (m : Mux) (random : Option Text) (up subject code state : Text) (entry : Provider)
      (token : Token) (s : S) (w w' v : W) (now : ℕ)
      → lookup up m.providers ≡ some entry
      → signed_state codec m.hmac_key random up subject ≡ some state
      → (code == [] || state == []) ≡ false
      → exchange entry code w ≡ (ok token, w')
      → (store.save subject up token s).1 ≡ true
      → NulFree up
      → outlives token.expiry now ≡ true
      → (session_token store link token_source up
          (some subject)
          now
          (handle_callback codec store exchange m up code state s w).1
          v).0
        ≡ bearer token.access_token
  session_token_after_login m random up subject code state entry token s w w' v now registered
        signed present given saved clean valid =
      let (e, loads) =
        login codec store exchange m random up subject code state entry token s w w' subject up
          registered signed present given saved clean clean in
      ap (λ x. (session_token store link token_source up (some subject) now x.1 v).0) e
      ∙ session_token_after_save store link token_source up subject token now s v saved clean valid
