-- ===== src/Oauth/State.antt =====
-- pkg/oauth/callbackmux/callbackmux.go: the signed state parameter. Base64, JSON and HMAC-SHA256 are
-- the interface Codec; random bytes are an argument, which is not there when the source of
-- randomness fails.
use go_auto_mcp.Prelude.{
  or_fail, check, or_fail-ok, check-ok, ok-injective, ap, >>=-eq-ok, nat_beq_iff, ◌∙◌, sym, inr,
  inl, false, Option, none, some, [], ◌∷◌, ◌++◌, ◌≡◌, refl, Text, text_eq, text_beq_iff, ◌==◌,
  Result, err, ok, ◌>>=◌, contains, nat_eq, if◌then◌else◌, Bool-cases, Option-cases, arith,
}

-- statePayload
pub record Payload : Type 0 where
  pub upstream : Text
  pub subject : Text
  pub nonce : Text

-- `encode` and `decode` are base64.RawURLEncoding, whose alphabet has no dot; `marshal` and
-- `unmarshal` are encoding/json on a payload of valid strings; `mac` is HMAC-SHA256 under a key.
pub record Codec : Type 0 where
  pub encode : Text → Text
  pub decode : Text → Option Text
  pub decode-encode : (bytes : Text) → decode (encode bytes) ≡ some bytes
  pub encode_no_dot : (bytes : Text) → contains 46 (encode bytes) ≡ false
  pub marshal : Payload → Text
  pub unmarshal : Text → Option Payload
  pub unmarshal-marshal : (p : Payload) → unmarshal (marshal p) ≡ some p
  pub mac : Text → Text → Text

pub data StateError : Type 0 where
  malformed bad_signature invalid_signature bad_payload unparsed_payload other_upstream : StateError

-- strings.SplitN(state, ".", 2), which has two parts exactly if there is a dot
unfoldable pub split_dot : Text → Option (Text × Text)
split_dot [] = none
split_dot (c ∷ s) =
    let rest = split_dot s in
    if c == 46
    then some ([], s)
    else elim rest [ none ↦ none | some (before, after) ↦ some (c ∷ before, after) ]

module _ (codec : Codec) (key : Text) where
  open codec use {encode, decode, marshal, unmarshal, mac}

  -- Mux.signedState
  unfoldable pub signed_state : Option Text → Text → Text → Option Text
  signed_state none up subject = none
  signed_state (some random) up subject =
      let payload : Payload = record { upstream = up; subject = subject; nonce = encode random } in
      let encoded = encode (marshal payload) in some (encoded ++ 46 ∷ encode (mac key encoded))

  -- Mux.verifyState
  unfoldable pub verify_state : Text → Text → Result StateError Text
  unfolding split_dot
  verify_state up state = do
    (encoded, sig_encoded) ← or_fail malformed (split_dot state)
    sig ← or_fail bad_signature (decode sig_encoded)
    _ ← check invalid_signature (sig == mac key encoded)
    data_bytes ← or_fail bad_payload (decode encoded)
    payload ← or_fail unparsed_payload (unmarshal data_bytes)
    _ ← check other_upstream (payload.upstream == up)
    ok payload.subject

split_dot-append : (s t : Text) → contains 46 s ≡ false → split_dot (s ++ 46 ∷ t) ≡ some (s, t)
unfolding split_dot contains
split_dot-append [] t h = refl
split_dot-append (c ∷ s) t h = ground (arith, split_dot-append s t)

abbrev parts : Text → Text → Option (Text × Text)
parts before after = some (before, after)

-- A state splits into the text before its first dot, which has none, and the text behind it.
split_dot-join :
    (s before after : Text)
    → split_dot s ≡ some (before, after)
    → (s ≡ before ++ 46 ∷ after) × (contains 46 before ≡ false)
unfolding split_dot contains
split_dot-join [] before after h = absurd cc
split_dot-join (c ∷ s) before after h = elim (Bool-cases (c == 46)) [
  | inl dot ↦
      let here : parts [] s ≡ parts before after = sym (simp (dot, split_dot)) ∙ h in
      let first : before ≡ [] = cc in
      let c_dot : c ≡ 46 = (nat_beq_iff c 46).0 dot in (cc, simp (first, contains))
  | inr other ↦ elim (Option-cases (split_dot s)) [
    | inl e ↦
        let gone : none ≡ parts before after = sym (simp (other, e, split_dot)) ∙ h in absurd cc
    | inr ((b, t), e) ↦
        let here : parts (c ∷ b) t ≡ parts before after = sym (simp (other, e, split_dot)) ∙ h in
        let first : before ≡ c ∷ b = cc in
        let (joined, free) = split_dot-join s b t e in (cc, rw first (simp (other, free, contains)))
  ]
]

signed_for :
    (up at subject : Text)
    → (check other_upstream (up == at) >>= λ u. ok subject)
      ≡ (if up == at then ok subject else err other_upstream)
signed_for up at subject = elim (Bool-cases (up == at)) [ inl e ↦ simp e | inr e ↦ simp e ]

module _ (codec : Codec) (key : Text) where
  open codec use {encode, decode, marshal, unmarshal, mac}

  -- What a login signed for an upstream gives its subject back at that upstream's callback, and is
  -- refused at the callback of every other upstream.
  pub verify_state-signed_state :
      (random : Option Text) (up at subject state : Text)
      → signed_state codec key random up subject ≡ some state
      → verify_state codec key at state ≡ (if up == at then ok subject else err other_upstream)
  unfolding signed_state verify_state
  verify_state-signed_state none up at subject state h = absurd cc
  verify_state-signed_state (some random) up at subject state h =
      let payload : Payload = record { upstream = up; subject = subject; nonce = encode random } in
      let encoded = encode (marshal payload) in
      let sig = mac key encoded in
      let e : state ≡ encoded ++ 46 ∷ encode sig = cc in
      let split = split_dot-append encoded (encode sig) (codec.encode_no_dot (marshal payload)) in
      let same = (text_beq_iff sig sig).1 refl in
      rw e (
        rw (split, verify_state)
          (rw (codec.decode-encode sig, verify_state)
            (rw (same, verify_state)
              (rw (codec.decode-encode (marshal payload), verify_state)
                (rw (codec.unmarshal-marshal payload, verify_state) (signed_for up at subject))))))

module _ (codec : Codec) (key : Text) where
  open codec use {encode, decode, marshal, unmarshal, mac}

  -- A text is a state for a subject at an upstream: a payload of the two, a dot, and the code that
  -- the key gives the encoded payload.
  pub record Signed (up subject state : Text) : Type 0 where
    pub encoded : Text
    pub sig_encoded : Text
    pub bytes : Text
    pub payload : Payload
    pub joined : state ≡ encoded ++ 46 ∷ sig_encoded
    pub authentic : decode sig_encoded ≡ some (mac key encoded)
    pub decoded : decode encoded ≡ some bytes
    pub parsed : unmarshal bytes ≡ some payload
    pub for_upstream : payload.upstream ≡ up
    pub for_subject : payload.subject ≡ subject

  -- A state that is accepted for a subject carries a payload of this upstream and this subject, and
  -- the code of that payload under the key.
  pub verify_state-Signed :
      (up subject state : Text)
      → verify_state codec key up state ≡ ok subject
      → Signed up subject state
  unfolding verify_state
  verify_state-Signed up subject state h =
      let ((encoded, sig_encoded), split, h1) =
        >>=-eq-ok (or_fail malformed (split_dot state)) _ h in
      let (sig, decoded_sig, h2) = >>=-eq-ok (or_fail bad_signature (decode sig_encoded)) _ h1 in
      let (u, same, h3) = >>=-eq-ok (check invalid_signature (sig == mac key encoded)) _ h2 in
      let (bytes, decoded, h4) = >>=-eq-ok (or_fail bad_payload (decode encoded)) _ h3 in
      let (payload, parsed, h5) = >>=-eq-ok (or_fail unparsed_payload (unmarshal bytes)) _ h4 in
      let (v, mine, h6) = >>=-eq-ok (check other_upstream (payload.upstream == up)) _ h5 in
      let equal = (text_beq_iff sig (mac key encoded)).0 (check-ok _ _ same) in
      record {
        encoded = encoded;
        sig_encoded = sig_encoded;
        bytes = bytes;
        payload = payload;
        joined = (split_dot-join state encoded sig_encoded (or_fail-ok _ _ split)).0;
        authentic = or_fail-ok _ _ decoded_sig ∙ ap some equal;
        decoded = or_fail-ok _ _ decoded;
        parsed = or_fail-ok _ _ parsed;
        for_upstream = (text_beq_iff payload.upstream up).0 (check-ok _ _ mine);
        for_subject = ok-injective h6;
      }
