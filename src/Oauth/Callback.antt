-- ===== src/Oauth/Callback.antt =====
-- pkg/oauth/callbackmux/callbackmux.go: registered upstreams, authorization links, and the callback
-- that exchanges a code for a token. The exchange of x/oauth2 acts on the world W.
use go_auto_mcp.Prelude.{
  ◌∙◌, ℕ, Bool, true, false, Option, none, some, [], ◌≡◌, refl, Text, text_eq, text_beq_iff, ◌==◌,
  ◌&&◌, ◌||◌, Result, err, ok, nat_eq, if◌then◌else◌, Bool-cases, Dict, lookup, insert, inl, inr,
}
use go_auto_mcp.Oauth.{Token, TokenStore, Provider, NulFree}
use go_auto_mcp.Oauth.State.{
  Codec, StateError, signed_state, verify_state, verify_state-signed_state, Signed,
  verify_state-Signed,
}

-- Mux; the store that the callback saves to is passed beside it
pub record Mux : Type 0 where
  pub hmac_key : Text
  pub providers : Dict Text Provider

-- Mux.RegisterProvider
unfoldable pub register_provider : Text → Provider → Mux → Mux
register_provider up entry m = record m { providers = insert up entry m.providers }

-- what a callback is answered with
pub data Answer : Type 0 where
  no_store missing_parameter unknown_upstream save_failed success : Answer
  invalid_state : StateError → Answer
  exchange_failed : Text → Answer

unfoldable pub status : Answer → ℕ
status no_store = 503
status missing_parameter = 400
status (invalid_state e) = 400
status unknown_upstream = 404
status (exchange_failed e) = 502
status save_failed = 500
status success = 200

pub data LinkError : Type 0 where
  not_registered no_random : LinkError

module _ (codec : Codec) (auth_code_url : Provider → Text → Text) where
  -- Mux.AuthURL
  pub auth_url : Mux → Option Text → Text → Text → Result LinkError Text
  auth_url m random up subject = elim (lookup up m.providers) [
    | none ↦ err not_registered
    | some entry ↦ elim (signed_state codec m.hmac_key random up subject) [
      | none ↦ err no_random
      | some state ↦ ok (auth_code_url entry state)
    ]
  ]

module _ {S W : Type 0} (codec : Codec) (store : TokenStore S)
    (exchange : Provider → Text → W → Result Text Token × W) where
  abbrev pub save_answer : Bool → Answer
  save_answer true = success
  save_answer false = save_failed

  -- the token is saved if the exchange gave one
  abbrev pub save_exchanged : Text → Text → Result Text Token × W → S → Answer × S × W
  save_exchanged up subject (err e, w) s = (exchange_failed e, s, w)
  save_exchanged up subject (ok token, w) s =
      let (s', saved) = store.save subject up token s in (save_answer saved, s', w)

  abbrev pub exchange_code : Option Provider → Text → Text → Text → S → W → Answer × S × W
  exchange_code none up subject code s w = (unknown_upstream, s, w)
  exchange_code (some entry) up subject code s w =
      save_exchanged up subject (exchange entry code w) s

  abbrev pub verified : Mux → Result StateError Text → Text → Text → S → W → Answer × S × W
  verified m (err e) up code s w = (invalid_state e, s, w)
  verified m (ok subject) up code s w = exchange_code (lookup up m.providers) up subject code s w

  -- Mux.HandleCallback, with a store and without one
  unfoldable pub handle_callback : Mux → Text → Text → Text → S → W → Answer × S × W
  handle_callback m up code state s w =
      if code == [] || state == []
      then (missing_parameter, s, w)
      else verified m (verify_state codec m.hmac_key up state) up code s w

  unfoldable pub handle_callback_opt :
      Mux → Text → Text → Text → Option S → W → Answer × Option S × W
  unfolding handle_callback
  handle_callback_opt m up code state none w = (no_store, none, w)
  handle_callback_opt m up code state (some s) w =
      let (answer, s', w') = handle_callback m up code state s w in (answer, some s', w')

  -- The ends of a callback: nothing is saved, and the status tells that; or the token of this code
  -- is saved, for the subject that the state was signed for.
  pub data Ends (m : Mux) (up code state : Text) (s : S) (w : W) : Answer × S × W → Type 0 where
    refused :
        (answer : Answer) (w' : W)
        → (status answer == 200) ≡ false
        → (status answer == 500) ≡ false
        → Ends m up code state s w (answer, s, w')
    saves :
        (subject : Text) (entry : Provider) (token : Token) (w' : W)
        → Signed codec m.hmac_key up subject state
        → lookup up m.providers ≡ some entry
        → exchange entry code w ≡ (ok token, w')
        → Ends m up code state s w
            (save_answer (store.save subject up token s).1, (store.save subject up token s).0, w')

  exchanged-Ends :
      (m : Mux) (up code state subject : Text) (entry : Provider) (s : S) (w : W)
      → Signed codec m.hmac_key up subject state
      → lookup up m.providers ≡ some entry
      → (r : Result Text Token × W) → exchange entry code w ≡ r
      → Ends m up code state s w (save_exchanged up subject r s)
  unfolding status
  exchanged-Ends m up code state subject entry s w signed there (err e, w') h =
      refused (exchange_failed e) w' refl refl
  exchanged-Ends m up code state subject entry s w signed there (ok token, w') h =
      saves subject entry token w' signed there h

  found-Ends :
      (m : Mux) (up code state subject : Text) (s : S) (w : W)
      → Signed codec m.hmac_key up subject state
      → (found : Option Provider) → lookup up m.providers ≡ found
      → Ends m up code state s w (exchange_code found up subject code s w)
  unfolding status
  found-Ends m up code state subject s w signed none h = refused unknown_upstream w refl refl
  found-Ends m up code state subject s w signed (some entry) h =
      exchanged-Ends m up code state subject entry s w signed h (exchange entry code w) refl

  verified-Ends :
      (m : Mux) (up code state : Text) (s : S) (w : W) (r : Result StateError Text)
      → verify_state codec m.hmac_key up state ≡ r
      → Ends m up code state s w (verified m r up code s w)
  unfolding status
  verified-Ends m up code state s w (err e) h = refused (invalid_state e) w refl refl
  verified-Ends m up code state s w (ok subject) h =
      found-Ends m up code state subject s w
        (verify_state-Signed codec m.hmac_key up subject state h) (lookup up m.providers) refl

  -- A callback saves nothing and answers neither 200 nor 500; or its state is one that the key
  -- signed for this upstream and some subject, and it saves for this subject the token that the
  -- registered provider gave for the code, and answers 200 or 500 by how that went.
  pub handle_callback-Ends :
      (m : Mux) (up code state : Text) (s : S) (w : W)
      → Ends m up code state s w (handle_callback m up code state s w)
  unfolding handle_callback status
  handle_callback-Ends m up code state s w = elim (Bool-cases (code == [] || state == [])) [
    | inl missing ↦ rw (missing, handle_callback) (refused missing_parameter w refl refl)
    | inr present ↦
        rw (present, handle_callback)
          (verified-Ends m up code state s w (verify_state codec m.hmac_key up state) refl)
  ]

  -- A user comes back to the upstream's callback with the state of a link that was made for her and
  -- a code that the registered provider exchanges; when the store takes the token, the answer is a
  -- success, the token is loaded for her at this upstream, and all other tokens are as they were.
  pub login :
      (m : Mux) (random : Option Text) (up subject code state : Text) (entry : Provider)
      (token : Token) (s : S) (w w' : W) (reader at : Text)
      → lookup up m.providers ≡ some entry
      → signed_state codec m.hmac_key random up subject ≡ some state
      → (code == [] || state == []) ≡ false
      → exchange entry code w ≡ (ok token, w')
      → (store.save subject up token s).1 ≡ true
      → NulFree up
      → NulFree at
      → (handle_callback m up code state s w ≡ (success, (store.save subject up token s).0, w'))
        × (store.load reader at (store.save subject up token s).0
            ≡ (if subject == reader && up == at then ok (some token) else store.load reader at s))
  unfolding handle_callback
  login m random up subject code state entry token s w w' reader at registered signed present given
        saved clean here =
      let accepted = verify_state-signed_state codec m.hmac_key random up up subject state signed in
      let same = (text_beq_iff up up).1 refl in
      let ok_state : verify_state codec m.hmac_key up state ≡ ok subject = accepted ∙ simp same in
      (
        rw (present, handle_callback) (rw (ok_state) (rw registered (rw given (rw saved refl)))),
        store.load-save subject up reader at token s clean here saved,
      )
