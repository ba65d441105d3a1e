-- ===== src/Oauth/Tests.antt =====
-- A login of one user at one upstream, with simple codes in place of base64, JSON and HMAC.
use go_auto_mcp.Prelude.{
  ◌∙◌, ◌-◌, ℕ, suc, zero, ◌+◌, false, Option, none, some, [], ◌∷◌, ◌++◌, ◌≡◌, refl, Text, codes,
  text_eq, text_beq, ◌==◌, ◌&&◌, Result, err, ok, contains, nat_eq, if◌then◌else◌, lookup, insert,
  length, ap, arith,
}
use go_auto_mcp.Oauth.{Token, Provider}
use go_auto_mcp.Oauth.State.{
  Codec, Payload, other_upstream, signed_state, verify_state, verify_state-signed_state,
}
use go_auto_mcp.Oauth.Memory.{memory_store, save, load, load-save, store_key}
use go_auto_mcp.Oauth.Callback.{Mux, Ends, handle_callback, handle_callback-Ends, login, success}
use go_auto_mcp.Oauth.Session.{session_token, do_refresh, do_refresh_idle, bearer, outlives}
use go_auto_mcp.Oauth.Login.{session_token_after_login}

-- codes from 47 on, so that none is a dot
shift : Text → Text
shift [] = []
shift (c ∷ s) = (c + 47) ∷ shift s

unshift : Text → Option Text
unshift [] = some []
unshift (c ∷ s) = elim (unshift s) [ none ↦ none | some t ↦ some ((c - 47) ∷ t) ]

unshift-shift : (s : Text) → unshift (shift s) ≡ some s
unfolding shift unshift
unshift-shift [] = refl
unshift-shift (c ∷ s) =
    rw (unshift-shift s) (let e : (c + 47) - 47 ≡ c = omega arith in ap (λ d. some (d ∷ s)) e)

no_dot : (s : Text) → contains 46 (shift s) ≡ false
unfolding shift contains
no_dot [] = refl
no_dot (c ∷ s) = ground (arith, no_dot s)

-- a text behind its length
read : ℕ → Text → Option (Text × Text)
read zero t = some ([], t)
read (suc n) [] = none
read (suc n) (c ∷ t) = elim (read n t) [ none ↦ none | some (s, rest) ↦ some (c ∷ s, rest) ]

read-append : (s t : Text) → read (length s) (s ++ t) ≡ some (s, t)
unfolding read
read-append [] t = refl
read-append (c ∷ s) t = rw (read-append s t) refl

write : Payload → Text
write p = length p.upstream ∷ (p.upstream ++ (length p.subject ∷ (p.subject ++ p.nonce)))

read_rest : Text → Option (Text × Text) → Option Payload
unfolding read
read_rest up none = none
read_rest up (some (subject, nonce)) =
    some (record { upstream = up; subject = subject; nonce = nonce })

read_mid : Option (Text × Text) → Option Payload
unfolding read_rest read
read_mid none = none
read_mid (some (up, [])) = none
read_mid (some (up, (n ∷ t))) = read_rest up (read n t)

unwrite : Text → Option Payload
unfolding read_mid read
unwrite [] = none
unwrite (n ∷ t) = read_mid (read n t)

unwrite-write : (p : Payload) → unwrite (write p) ≡ some p
unfolding unwrite write read_mid read_rest
unwrite-write p =
    ap read_mid (read-append p.upstream (length p.subject ∷ (p.subject ++ p.nonce)))
    ∙ ap (read_rest p.upstream) (read-append p.subject p.nonce)

abbrev codec : Codec
codec = record {
  encode = shift;
  decode = unshift;
  decode-encode = unshift-shift;
  encode_no_dot = no_dot;
  marshal = write;
  unmarshal = unwrite;
  unmarshal-marshal = unwrite-write;
  mac = λ key t. key ++ t;
}

abbrev key : Text
key = codes "k"

abbrev up : Text
up = codes "pets"

abbrev ann : Text
ann = codes "ann"

abbrev bob : Text
bob = codes "bob"

abbrev code : Text
code = codes "c0de"

abbrev token : Token
token = record {
  access_token = codes "a";
  refresh_token = codes "r";
  expiry = some 1000;
  token_type = codes "bearer";
}

abbrev stale : Token
stale = record token { expiry = some 5 }

abbrev entry : Provider
entry = record {
  auth_url = codes "https://a";
  token_url = codes "https://t";
  client_id = codes "id";
  client_secret = [];
  scopes = [];
  redirect_url = codes "https://cb";
}

abbrev mux : Mux
mux = record { hmac_key = key; providers = (up, entry) ∷ [] }

-- a provider that counts the codes that it exchanges
abbrev exchange : Provider → Text → ℕ → Result Text Token × ℕ
exchange p c w = (ok token, suc w)

abbrev payload : Payload
payload = record { upstream = up; subject = ann; nonce = shift [] }

abbrev state : Text
state = shift (write payload) ++ 46 ∷ shift (key ++ shift (write payload))

verify_state-signed_state_example :
    verify_state codec key up state ≡ (if up == up then ok ann else err other_upstream)
verify_state-signed_state_example =
    verify_state-signed_state codec key (some []) up up ann state (unfold signed_state in refl)

load-save_example :
    load bob up (save ann up token [])
    ≡ (if ann == bob && up == up then some token else load bob up [])
load-save_example =
    load-save ann up bob up token [] (unfold contains in refl) (unfold contains in refl)

handle_callback-Ends_example :
    Ends codec memory_store exchange mux up code state [] 0
      (handle_callback codec memory_store exchange mux up code state [] 0)
handle_callback-Ends_example =
    handle_callback-Ends codec memory_store exchange mux up code state [] 0

login_example :
    (handle_callback codec memory_store exchange mux up code state [] 0
      ≡ (success, save ann up token [], 1))
    × (memory_store.load bob up (save ann up token [])
        ≡ (if ann == bob && up == up then ok (some token) else memory_store.load bob up []))
unfolding text_beq shift write
login_example =
    login codec memory_store exchange mux (some []) up ann code state entry token [] 0 1 bob up
      (unfold lookup text_beq in refl) (unfold signed_state in refl) refl refl refl
      (unfold contains in refl) (unfold contains in refl)

abbrev link : Text → Text → Result Text Text
link at subject = ok (codes "https://a/login")

-- a token source that gives a token back until ten seconds before it expires
abbrev source : Token → ℕ → ℕ → Result Text Token × ℕ
source old now w = if outlives old.expiry (now + 10) then (ok old, w) else (ok token, suc w)

session_token_after_login_example :
    (session_token memory_store link source up
      (some ann)
      7
      (handle_callback codec memory_store exchange mux up code state [] 0).1
      3).0
    ≡ bearer (codes "a")
unfolding text_beq shift write
session_token_after_login_example =
    session_token_after_login codec memory_store exchange link source mux (some []) up ann code
      state entry token [] 0 1 3 7 (unfold lookup in refl) (unfold signed_state in refl) refl refl
      refl (unfold contains in refl) (unfold outlives in refl)

do_refresh_idle_example :
    ((do_refresh memory_store link source up ann token 800 (save ann up token []) 0).2 ≡ 0)
    × (memory_store.load ann up
          (do_refresh memory_store link source up ann token 800 (save ann up token []) 0).1
        ≡ memory_store.load ann up (save ann up token []))
do_refresh_idle_example =
    do_refresh_idle memory_store link source up ann token 800 (save ann up token []) 0 ann up
      (λ old at v named fresh. simp fresh)
      (unfold load save store_key lookup insert text_beq in refl)
      (unfold text_beq shift write in refl) (unfold outlives text_beq in refl) refl
      (unfold contains in refl) (unfold contains in refl)
