-- ===== src/Oauth/Memory.antt =====
-- pkg/session/memory/memory.go: the store that keeps tokens in a map. The lock makes each operation
-- one step; the copies that Save and Load make are values here.
use go_auto_mcp.Prelude.{
  ◌∙◌, contains-append, lookup-erase, Bool, true, false, Option, none, some, [], ◌∷◌, ◌++◌, ◌≡◌,
  refl, Text, text_eq, text_beq_iff, ◌==◌, ◌&&◌, Result, ok, contains, nat_eq, if◌then◌else◌, arith,
  Dict, lookup, insert, erase, lookup-insert, ap,
}
use go_auto_mcp.Oauth.{Token, TokenStore, NulFree}

-- storeKey
unfoldable pub store_key : Text → Text → Text
store_key subject up = subject ++ 0 ∷ up

abbrev pub Tokens : Type 0
Tokens = Dict Text Token

-- Store.Save
unfoldable pub save : Text → Text → Token → Tokens → Tokens
unfolding store_key
save subject up token s = insert (store_key subject up) token s

-- Store.Load, which gives no error
unfoldable pub load : Text → Text → Tokens → Option Token
unfolding store_key
load subject up s = lookup (store_key subject up) s

-- Store.Delete
unfoldable pub delete : Text → Text → Tokens → Tokens
unfolding store_key
delete subject up s = erase (store_key subject up) s

holds_nul : (t at up : Text) → up ≡ t ++ 0 ∷ at → NulFree up → ⊥
unfolding contains
holds_nul t at up e h =
    let there = contains-append 0 t (0 ∷ at) in ground (arith, there, ap (contains 0) e)

-- Whatever the subjects, keys agree only for the same subject and upstream, since the names of
-- upstreams have no NUL character.
store_key-injective :
    (s t up at : Text) → NulFree up → NulFree at → s ++ 0 ∷ up ≡ t ++ 0 ∷ at → (s ≡ t) × (up ≡ at)
store_key-injective [] [] up at h k e = (refl, cc)
store_key-injective [] (c ∷ t) up at h k e = absurd (holds_nul t at up (cc) h)
store_key-injective (c ∷ s) [] up at h k e = absurd (holds_nul s up at (cc) k)
store_key-injective (c ∷ s) (d ∷ t) up at h k e =
    let (same, upstreams) = store_key-injective s t up at h k cc in (cc, upstreams)

store_key-beq :
    (s t up at : Text)
    → NulFree up
    → NulFree at
    → (store_key s up == store_key t at) ≡ (s == t && up == at)
unfolding store_key
store_key-beq s t up at h k =
    let keys = text_beq_iff (s ++ 0 ∷ up) (t ++ 0 ∷ at) in
    let injective = store_key-injective s t up at h k in
    ground (arith, keys, injective, text_beq_iff s t, text_beq_iff up at)

-- What a user saves for an upstream is loaded for that user at that upstream and for nobody else,
-- and every other token stays.
pub load-save :
    (subject up reader at : Text) (token : Token) (s : Tokens)
    → NulFree up
    → NulFree at
    → load reader at (save subject up token s)
      ≡ (if subject == reader && up == at then some token else load reader at s)
unfolding load save
load-save subject up reader at token s h k = rw (
  lookup-insert (store_key subject up) (store_key reader at) token s,
  store_key-beq subject reader up at h k,
)

pub load-delete :
    (subject up reader at : Text) (s : Tokens)
    → NulFree up
    → NulFree at
    → load reader at (delete subject up s)
      ≡ (if subject == reader && up == at then none else load reader at s)
unfolding load delete
load-delete subject up reader at s h k = rw (
  lookup-erase (store_key subject up) (store_key reader at) s,
  store_key-beq subject reader up at h k,
)

pub ok-if :
    {E A : Type 0} (b : Bool) (x y : A)
    → (let r : Result E A = ok (if b then x else y) in r) ≡ (if b then ok x else ok y)
ok-if true x y = refl
ok-if false x y = refl

-- The map is a token store.
abbrev pub memory_store : TokenStore Tokens
memory_store = record {
  load = λ subject up s. ok (load subject up s);
  save = λ subject up token s. (save subject up token s, true);
  load-save = λ subject up reader at token s h k saved.
      ap ok (load-save subject up reader at token s h k)
      ∙ ok-if (subject == reader && up == at) (some token) (load reader at s);
}
