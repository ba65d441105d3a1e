-- ===== src/Ratelimit/Known.antt =====
-- pkg/ratelimit/ratelimit.go: the enforcer knows exactly the configured limits.
use go_auto_mcp.Prelude.{
  ◌≡◌, refl, ap, ◌∙◌, sym, false, Option, none, some, [], ◌∷◌, String, string_eq, ◌==◌,
  if◌then◌else◌, Dict, lookup, insert, lookup-insert, lookup_absent, keys, contains, Distinct,
  Bool-cases, inl, inr,
}
use go_auto_mcp.Ratelimit.{RateLimitConfig, Rate, rate_of, Enforcer, add_limits}

-- the entry that a later map puts over an earlier one
abbrev pub over : {A : Type 0} → Option A → Option A → Option A
over none o = o
over (some a) o = some a

over-insert :
    {A : Type 0} (key name : String) (v : A) (cs m : Dict String A)
    → contains key (keys cs) ≡ false
    → over (lookup name cs) (lookup name (insert key v m))
      ≡ over (if key == name then some v else lookup name cs) (lookup name m)
unfolding lookup
over-insert key name v cs m absent =
    let later = lookup-insert key name v m in
    let none_there = lookup_absent key cs absent in
    elim (Bool-cases (key == name)) [
      | inl same ↦
          let there : lookup name cs ≡ none =
            ap (λ k. lookup k cs) (sym ((string_eq.beq_iff key name).0 same)) ∙ none_there in
          simp (later, same, there)
      | inr other ↦ simp (later, other)
    ]

module _ {S L : Type 0} (new_limiter : S → Rate → L) where
  configs-add_limits :
      (store : S) (cs : Dict String RateLimitConfig) (e : Enforcer L) (name : String)
      → Distinct (keys cs)
      → lookup name (add_limits new_limiter store cs e).configs
        ≡ over (lookup name cs) (lookup name e.configs)
  unfolding add_limits lookup
  configs-add_limits store [] e name d = refl
  configs-add_limits store ((key, c) ∷ cs) e name (absent, d) =
      configs-add_limits store cs
        (record {
          limiters = insert key (new_limiter store (rate_of c)) e.limiters;
          configs = insert key c e.configs;
        })
        name d
      ∙ over-insert key name c cs e.configs absent

  -- the limiters of the configured limits
  abbrev made : S → Dict String RateLimitConfig → Dict String L
  made store [] = []
  made store ((key, c) ∷ cs) = (key, new_limiter store (rate_of c)) ∷ made store cs

  keys-made : (store : S) (cs : Dict String RateLimitConfig) → keys (made store cs) ≡ keys cs
  keys-made store [] = refl
  keys-made store ((key, c) ∷ cs) = ap (λ ks. key ∷ ks) (keys-made store cs)

  limiters-add_limits :
      (store : S) (cs : Dict String RateLimitConfig) (e : Enforcer L) (name : String)
      → Distinct (keys cs)
      → lookup name (add_limits new_limiter store cs e).limiters
        ≡ over (lookup name (made store cs)) (lookup name e.limiters)
  unfolding add_limits lookup
  limiters-add_limits store [] e name d = refl
  limiters-add_limits store ((key, c) ∷ cs) e name (absent, d) =
      limiters-add_limits store cs
        (record {
          limiters = insert key (new_limiter store (rate_of c)) e.limiters;
          configs = insert key c e.configs;
        })
        name d
      ∙ over-insert key name (new_limiter store (rate_of c)) (made store cs) e.limiters
          (ap (contains key) (keys-made store cs) ∙ absent)

  over-none : {A : Type 0} (o : Option A) → over o none ≡ o
  over-none none = refl
  over-none (some a) = refl

  -- With a store, there is a limiter, of its configuration, for each configured limit and for no
  -- other.
  pub limits_known :
      (store : S) (cs : Dict String RateLimitConfig) (name : String)
      → Distinct (keys cs)
      → (let e = add_limits new_limiter store cs (record { limiters = []; configs = [] }) in
          (lookup name e.configs ≡ lookup name cs)
          × (lookup name e.limiters ≡ lookup name (made store cs)))
  unfolding lookup
  limits_known store cs name d = (
    configs-add_limits store cs (record { limiters = []; configs = [] }) name d
        ∙ over-none (lookup name cs),
    limiters-add_limits store cs (record { limiters = []; configs = [] }) name d
        ∙ over-none (lookup name (made store cs)),
  )
