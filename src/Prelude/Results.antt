-- ===== src/Prelude/Results.antt =====
-- Go's `(value, error)` results: a value or an error.
use mathlib.Core.Path.{◌≡◌, refl, ap}
use mathlib.Core.Bool.{Bool, true, false}
use mathlib.Core.Option.{Option, none, some}
use mathlib.Core.Logic.{◌⊎◌, inl, inr}

pub data Result (Error Value : Type 0) : Type 0 where
  err : Error → Result Error Value
  ok : Value → Result Error Value

infixl 5 ◌>>=◌
abbrev pub ◌>>=◌ : {E A B : Type 0} → Result E A → (A → Result E B) → Result E B
err failure >>= next = err failure
ok value >>= next = next value

module _ {E A B : Type 0} where
  -- What a chain that succeeded went through.
  pub >>=-eq-ok :
      (first : Result E A) (next : A → Result E B) {out : B}
      → (first >>= next) ≡ ok out
      → (mid : A) × (first ≡ ok mid) × (next mid ≡ ok out)
  >>=-eq-ok (err failure) next h = cc
  >>=-eq-ok (ok value) next h = (value, refl, h)

module _ {E A : Type 0} where
  pub ok-injective : {a b : A} → (let x : Result E A = ok a in x) ≡ ok b → a ≡ b
  ok-injective h = cc

  pub Result-cases : (r : Result E A) → ((e : E) × (r ≡ err e)) ⊎ ((a : A) × (r ≡ ok a))
  Result-cases (err e) = inl (e, refl)
  Result-cases (ok a) = inr (a, refl)

  pub err-ne-ok : {e : E} {a : A} → (let x : Result E A = err e in x) ≡ ok a → ⊥
  err-ne-ok h = cc

-- `if value == nil { return err }`
abbrev pub or_fail : {E A : Type 0} → E → Option A → Result E A
or_fail e none = err e
or_fail e (some a) = ok a

-- `if !test { return err }`
abbrev pub check : {E : Type 0} → E → Bool → Result E Unit
check e true = ok tt
check e false = err e

pub or_fail-ok : {E A : Type 0} (e : E) (o : Option A) {a : A} → or_fail e o ≡ ok a → o ≡ some a
or_fail-ok e none h = absurd (err-ne-ok h)
or_fail-ok e (some b) h = ap some (ok-injective h)

pub check-ok : {E : Type 0} (e : E) (test : Bool) → check e test ≡ ok tt → test ≡ true
check-ok e true h = refl
check-ok e false h = absurd (err-ne-ok h)
