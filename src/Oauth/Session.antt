-- ===== src/Oauth/Session.antt =====
-- pkg/auth/outbound/oauth2usersession/oauth2usersession.go: the access token of a user's session.
-- The token source of x/oauth2 acts on the world W, the registrar is the link that it makes, and a
-- background refresh is a step of its own, which a session asks for.
use go_auto_mcp.Prelude.{
  sym, ◌∙◌, ℕ, Bool, true, false, Option, none, some, [], ◌≡◌, refl, Text, text_eq, text_beq_iff,
  ◌==◌, ◌&&◌, Result, err, ok, nat_eq, if◌then◌else◌, Bool-cases, arith, ap, ◌⊎◌, inl, inr, ◌+◌,
  ltb,
}
use go_auto_mcp.Oauth.{Token, TokenStore, NulFree}

-- how Provider.Token ends
pub data Outcome (E : Type 0) : Type 0 where
  bearer : Text → Outcome E
  auth_required : Text → Outcome E
  load_failed refresh_failed : Text → Outcome E
  link_failed : E → Outcome E

-- `expiry.IsZero() || expiry.After(at)`
unfoldable pub outlives : Option ℕ → ℕ → Bool
outlives none at = true
outlives (some expiry) at = ltb at expiry

-- `if text == "" { text = other }`
abbrev pub or_else_text : Text → Text → Text
or_else_text text other = if text == [] then other else text

module _ {S W E : Type 0} (store : TokenStore S) (link : Text → Text → Result E Text)
    (token_source : Token → ℕ → W → Result Text Token × W) (up : Text) where
  -- the new token as it is kept: without a new refresh token, the old one stays
  unfoldable pub kept : Token → Token → Token
  kept old new = record new { refresh_token = or_else_text new.refresh_token old.refresh_token }

  abbrev pub keep_refreshed : Text → Token → Result Text Token × W → S → Result Text Token × S × W
  keep_refreshed subject old (err e, w) s = (err e, s, w)
  keep_refreshed subject old (ok new, w) s =
      (ok (kept old new), (store.save subject up (kept old new) s).0, w)

  -- Provider.doRefresh; a save that fails is logged
  unfoldable pub do_refresh : Text → Token → ℕ → S → W → Result Text Token × S × W
  do_refresh subject old now s w = keep_refreshed subject old (token_source old now w) s

  abbrev pub asked : Result E Text → Outcome E
  asked (err e) = link_failed e
  asked (ok url) = auth_required url

  unfoldable pub ask : Text → Outcome E
  ask subject = asked (link up subject)

  abbrev pub refreshed_outcome : Result Text Token → Outcome E
  refreshed_outcome (err e) = refresh_failed e
  refreshed_outcome (ok token) = bearer token.access_token

  abbrev pub refreshed : Result Text Token × S × W → Outcome E × Option Token × S × W
  refreshed (r, s, w) = (refreshed_outcome r, none, s, w)

  -- The outcome, the token to refresh in the background if there is one, and what became of the
  -- store and the world.
  unfoldable pub with_token : Text → Token → ℕ → S → W → Outcome E × Option Token × S × W
  unfolding outlives ask do_refresh
  with_token subject token now s w =
      if outlives token.expiry (now + 300)
      then (bearer token.access_token, none, s, w)
      else if outlives token.expiry now
      then (
        bearer token.access_token,
        (if token.refresh_token == [] then none else some token),
        s,
        w,
      )
      else if token.refresh_token == []
      then (ask subject, none, s, w)
      else refreshed (do_refresh subject token now s w)

  abbrev pub with_loaded :
      Text → Result Text (Option Token) → ℕ → S → W → Outcome E × Option Token × S × W
  with_loaded subject (err e) now s w = (load_failed e, none, s, w)
  with_loaded subject (ok none) now s w = (ask subject, none, s, w)
  with_loaded subject (ok (some token)) now s w = with_token subject token now s w

  -- subjectFromContext: without inbound authentication the subject is empty
  abbrev pub subject_of : Option Text → Text
  subject_of none = []
  subject_of (some subject) = subject

  -- Provider.Token
  unfoldable pub session_token : Option Text → ℕ → S → W → Outcome E × Option Token × S × W
  session_token info now s w =
      with_loaded (subject_of info) (store.load (subject_of info) up s) now s w

  -- where a bearer token comes from
  abbrev pub Source : Text → ℕ → S → W → Text → Type 0
  Source subject now s w text =
      (token : Token) × (store.load subject up s ≡ ok (some token))
      × (((outlives token.expiry now ≡ true) × (text ≡ token.access_token))
          ⊎ ((new : Token) × (outlives token.expiry now ≡ false)
              × ((token_source token now w).0 ≡ ok new)
              × (text ≡ new.access_token)))

  asked-bearer : (r : Result E Text) (text : Text) → asked r ≡ bearer text → ⊥
  asked-bearer (err e) text h = cc
  asked-bearer (ok url) text h = cc

  outlives_longer :
      (expiry : Option ℕ) (now k : ℕ)
      → outlives expiry (now + k) ≡ true
      → outlives expiry now ≡ true
  unfolding outlives
  outlives_longer none now k h = refl
  outlives_longer (some e) now k h = ground arith

  kept_access : (old new : Token) → (kept old new).access_token ≡ new.access_token
  unfolding kept
  kept_access old new = refl

  refreshed-Source :
      (subject : Text) (token : Token) (now : ℕ) (s : S) (w : W) (text : Text)
      → (r : Result Text Token × W) → (refreshed (keep_refreshed subject token r s)).0 ≡ bearer text
      → (new : Token) × (r.0 ≡ ok new) × (text ≡ new.access_token)
  unfolding kept
  refreshed-Source subject token now s w text (err e, w') h = absurd cc
  refreshed-Source subject token now s w text (ok new, w') h = (new, refl, cc)

  with_token-Source :
      (subject : Text) (token : Token) (now : ℕ) (s : S) (w : W) (text : Text)
      → store.load subject up s ≡ ok (some token)
      → (with_token subject token now s w).0 ≡ bearer text
      → Source subject now s w text
  unfolding with_token ask do_refresh
  with_token-Source subject token now s w text there h =
      elim (Bool-cases (outlives token.expiry (now + 300))) [
        | inl long ↦
            let e : bearer token.access_token ≡ bearer text = sym (simp (long, with_token)) ∙ h in
            (token, there, inl (outlives_longer token.expiry now 300 long, cc))
        | inr near ↦ elim (Bool-cases (outlives token.expiry now)) [
          | inl valid ↦
              let e : bearer token.access_token ≡ bearer text =
                sym (simp (near, valid, with_token)) ∙ h in
              (token, there, inl (valid, cc))
          | inr expired ↦ elim (Bool-cases (token.refresh_token == [])) [
            | inl bare ↦
                let e : ask subject ≡ bearer text =
                  sym (simp (near, expired, bare, with_token)) ∙ h in
                absurd (asked-bearer (link up subject) text e)
            | inr refreshes ↦
                let e : (refreshed (do_refresh subject token now s w)).0 ≡ bearer text =
                  sym (simp (near, expired, refreshes, with_token)) ∙ h in
                let (new, given, same) =
                  refreshed-Source subject token now s w text (token_source token now w) e in
                (token, there, inr (new, expired, given, same))
          ]
        ]
      ]

  loaded-Source :
      (subject : Text) (r : Result Text (Option Token)) (now : ℕ) (s : S) (w : W) (text : Text)
      → store.load subject up s ≡ r
      → (with_loaded subject r now s w).0 ≡ bearer text
      → Source subject now s w text
  unfolding ask
  loaded-Source subject (err e) now s w text there h = absurd cc
  loaded-Source subject (ok none) now s w text there h =
      absurd (asked-bearer (link up subject) text h)
  loaded-Source subject (ok (some token)) now s w text there h =
      with_token-Source subject token now s w text there h

  -- A session's bearer token is the stored one, for the user and this upstream, which has not
  -- expired; or it is the one that the token source has just given for the stored, expired one.
  pub session_token-bearer :
      (info : Option Text) (now : ℕ) (s : S) (w : W) (text : Text)
      → (session_token info now s w).0 ≡ bearer text
      → Source (subject_of info) now s w text
  unfolding session_token
  session_token-bearer info now s w text h =
      loaded-Source (subject_of info) (store.load (subject_of info) up s) now s w text refl h

  kept_same : (token : Token) → kept token token ≡ token
  unfolding kept
  kept_same token = elim (Bool-cases (token.refresh_token == [])) [
    | inl e ↦ simp (e, kept)
    | inr e ↦ simp (e, kept)
  ]

  same_load :
      (subject reader at : Text) (token : Token) (s : S)
      → store.load subject up s ≡ ok (some token)
      → (if subject == reader && up == at then ok (some token) else store.load reader at s)
        ≡ store.load reader at s
  same_load subject reader at token s there = elim (Bool-cases (subject == reader)) [
    | inr a ↦ simp a
    | inl a ↦ elim (Bool-cases (up == at)) [
      | inr b ↦ simp (a, b)
      | inl b ↦
          let same : subject ≡ reader = (text_beq_iff subject reader).0 a in
          let here : up ≡ at = (text_beq_iff up at).0 b in
          let moved = ap (λ x. store.load x up s) same ∙ ap (λ x. store.load reader x s) here in
          simp (a, b) (sym there ∙ moved)
    ]
  ]

  -- A token source that returns a token until it expires, up to its margin of ten seconds, makes a
  -- background refresh idle: while the stored token outlives the margin, no request is made, and
  -- every load is as before.
  pub do_refresh_idle :
      (subject : Text) (token : Token) (now : ℕ) (s : S) (w : W) (reader at : Text)
      → ((old : Token) (at : ℕ) (v : W)
          → (old.access_token == []) ≡ false
          → outlives old.expiry (at + 10) ≡ true
          → token_source old at v ≡ (ok old, v))
      → store.load subject up s ≡ ok (some token)
      → (token.access_token == []) ≡ false
      → outlives token.expiry (now + 10) ≡ true
      → (store.save subject up token s).1 ≡ true
      → NulFree up
      → NulFree at
      → ((do_refresh subject token now s w).2 ≡ w)
        × (store.load reader at (do_refresh subject token now s w).1 ≡ store.load reader at s)
  unfolding do_refresh
  do_refresh_idle subject token now s w reader at reuse there named fresh saved clean here =
      let given = reuse token now w named fresh in
      let e : do_refresh subject token now s w ≡ (ok token, (store.save subject up token s).0, w) =
        rw (given, do_refresh) (rw kept_same refl) in
      rw e (
        refl,
        store.load-save subject up reader at token s clean here saved
            ∙ same_load subject reader at token s there,
      )

  with_token-valid :
      (subject : Text) (token : Token) (now : ℕ) (s : S) (w : W)
      → outlives token.expiry now ≡ true
      → (with_token subject token now s w).0 ≡ bearer token.access_token
  unfolding with_token
  with_token-valid subject token now s w valid =
      elim (Bool-cases (outlives token.expiry (now + 300))) [
        | inl long ↦ simp (long, with_token)
        | inr near ↦ simp (near, valid, with_token)
      ]

  -- Right after a token was saved for a user, it is her session's bearer token, until it expires.
  pub session_token_after_save :
      (subject : Text) (token : Token) (now : ℕ) (s : S) (w : W)
      → (store.save subject up token s).1 ≡ true
      → NulFree up
      → outlives token.expiry now ≡ true
      → (session_token (some subject) now (store.save subject up token s).0 w).0
        ≡ bearer token.access_token
  unfolding session_token with_token
  session_token_after_save subject token now s w saved clean valid =
      let there : store.load subject up (store.save subject up token s).0 ≡ ok (some token) =
        store.load-save subject up subject up token s clean clean saved
        ∙ simp ((text_beq_iff subject subject).1 refl, (text_beq_iff up up).1 refl) in
      rw there (with_token-valid subject token now (store.save subject up token s).0 w valid)
