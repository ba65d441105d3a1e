-- ===== src/Prelude/Maps.antt =====
-- A Go map as an association list: the first entry of a key is its value.
use mathlib.Core.Path.{◌≡◌, refl}
use mathlib.Core.Bool.{false, ◌||◌}
use mathlib.Core.Option.{Option, none, some}
use mathlib.Core.List.{List, [], ◌∷◌}
use native.Mathlib.Omega.{arith}
use go_auto_mcp.Prelude.Tests.{if◌then◌else◌}
use go_auto_mcp.Prelude.Equality.{Eq, ◌==◌}
use go_auto_mcp.Prelude.Members.{contains, Distinct}

abbrev pub Dict {ℓ κ} : Type ℓ → Type κ → Type (ℓ ⊔ κ)
Dict K V = List (K × V)

module _ {ℓ κ} {K : Type ℓ} {V : Type κ} ⦃e : Eq K⦄ where
  -- `v, ok := m[k]`
  unfoldable pub lookup : K → Dict K V → Option V
  lookup k [] = none
  lookup k ((key, v) ∷ m) = if key == k then some v else lookup k m

  -- `m[k] = v`
  unfoldable pub insert : K → V → Dict K V → Dict K V
  insert k v [] = (k, v) ∷ []
  insert k v ((key, old) ∷ m) = if key == k then (k, v) ∷ m else (key, old) ∷ insert k v m

  -- `delete(m, k)`
  unfoldable pub erase : K → Dict K V → Dict K V
  erase k [] = []
  erase k ((key, old) ∷ m) = let rest = erase k m in if key == k then rest else (key, old) ∷ rest

  pub lookup-insert :
      (k at : K) (v : V) (m : Dict K V)
      → lookup at (insert k v m) ≡ (if k == at then some v else lookup at m)
  unfolding lookup insert
  lookup-insert k at v [] = refl
  lookup-insert k at v ((key, old) ∷ m) =
      let rest = lookup-insert k at v m in
      ground (arith, rest, e.beq_iff k at, e.beq_iff key k, e.beq_iff key at)

  pub lookup-erase :
      (k j : K) (m : Dict K V) → lookup j (erase k m) ≡ (if k == j then none else lookup j m)
  unfolding lookup erase
  lookup-erase k j [] = ground arith
  lookup-erase k j ((i, w) ∷ m) =
      ground (arith, lookup-erase k j m, e.beq_iff i k, e.beq_iff i j, e.beq_iff k j)

module _ {ℓ κ} {K : Type ℓ} {V : Type κ} ⦃e : Eq K⦄ where
  -- The keys that are there, each once if the map was built by `insert`.
  abbrev pub keys : Dict K V → List K
  keys [] = []
  keys ((k, v) ∷ m) = k ∷ keys m

  pub contains-keys-insert :
      (k j : K) (v : V) (m : Dict K V)
      → contains j (keys (insert k v m)) ≡ (k == j || contains j (keys m))
  unfolding insert contains
  contains-keys-insert k j v [] = refl
  contains-keys-insert k j v ((i, w) ∷ m) =
      ground (arith, contains-keys-insert k j v m, e.beq_iff i k, e.beq_iff i j, e.beq_iff k j)

  pub insert-Distinct :
      (k : K) (v : V) (m : Dict K V) → Distinct (keys m) → Distinct (keys (insert k v m))
  unfolding insert contains
  insert-Distinct k v [] h = (refl, tt)
  insert-Distinct k v ((i, w) ∷ m) h =
      ground (
        arith,
        insert-Distinct k v m h.1,
        contains-keys-insert k i v m,
        e.beq_iff i k,
        e.beq_iff k i,
      )

  pub lookup_absent : (k : K) (m : Dict K V) → contains k (keys m) ≡ false → lookup k m ≡ none
  unfolding lookup contains
  lookup_absent k [] h = refl
  lookup_absent k ((i, w) ∷ m) h = ground (arith, lookup_absent k m)
