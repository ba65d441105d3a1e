-- ===== src/Oauth.antt =====
-- pkg/oauth/callbackmux, pkg/session/memory and pkg/auth/outbound/oauth2usersession: how a user
-- authorizes the proxy at an upstream. Strings that the code takes apart are texts; times are
-- seconds, and an expiry that is not there is Go's zero time.
pub mod State
pub mod Memory
pub mod Callback
pub mod Session
pub mod Setup
pub mod Login
mod Tests
use go_auto_mcp.Prelude.{
  List, ℕ, Bool, true, false, Option, none, some, ◌≡◌, Text, text_eq, ◌==◌, ◌&&◌, Result, err, ok,
  contains, nat_eq, if◌then◌else◌,
}

-- config.OAuthToken
pub record Token : Type 0 where
  pub access_token : Text
  pub refresh_token : Text
  pub expiry : Option ℕ
  pub token_type : Text

abbrev pub NulFree : Text → Type 0
NulFree t = contains 0 t ≡ false

-- config.OAuthTokenStore over the states S of the store. The Boolean of `save` tells that no error
-- came back; then a load finds the saved token under its subject and upstream, and elsewhere what
-- it found before.
pub record TokenStore (S : Type 0) : Type 0 where
  pub load : Text → Text → S → Result Text (Option Token)
  pub save : Text → Text → Token → S → S × Bool
  pub load-save :
      (subject up reader at : Text) (token : Token) (s : S)
      → NulFree up
      → NulFree at
      → (save subject up token s).1 ≡ true
      → load reader at (save subject up token s).0
        ≡ (if subject == reader && up == at then ok (some token) else load reader at s)

-- upstreamEntry, with the oauth2.Config that it holds
pub record Provider : Type 0 where
  pub auth_url : Text
  pub token_url : Text
  pub client_id : Text
  pub client_secret : Text
  pub scopes : List Text
  pub redirect_url : Text
