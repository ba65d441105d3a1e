-- ===== src/Cache/Order.antt =====
-- pkg/cache/cache.go: sorting by keys that differ gives one order.
use go_auto_mcp.Prelude.{◌≡◌, ◌≢◌, refl, true, false, List, [], ◌∷◌, Text, text_eq, nat_eq, arith}
use go_auto_mcp.Cache.{less, insert_key}

less_asym : (s t : Text) → less s t ≡ true → less t s ≡ false
unfolding less
less_asym [] [] h = refl
less_asym [] (d ∷ t) h = refl
less_asym (c ∷ s) [] h = absurd cc
less_asym (c ∷ s) (d ∷ t) h = ground (arith, less_asym s t)

less_trans : (s t u : Text) → less s t ≡ true → less t u ≡ true → less s u ≡ true
unfolding less
less_trans [] [] u h k = absurd cc
less_trans [] (d ∷ t) [] h k = absurd cc
less_trans [] (d ∷ t) (e ∷ u) h k = refl
less_trans (c ∷ s) [] u h k = absurd cc
less_trans (c ∷ s) (d ∷ t) [] h k = absurd cc
less_trans (c ∷ s) (d ∷ t) (e ∷ u) h k = ground (arith, less_trans s t u)

-- of two texts that differ one is less
less_total : (s t : Text) → s ≢ t → less s t ≡ false → less t s ≡ true
unfolding less
less_total [] [] ne h = absurd (ne refl)
less_total [] (d ∷ t) ne h = absurd cc
less_total (c ∷ s) [] ne h = refl
less_total (c ∷ s) (d ∷ t) ne h =
    let rest = λ (e : c ≡ d) (k : less s t ≡ false). less_total s t (λ q. ne (λ i. e i ∷ q i)) k in
    ground (arith, rest)

pub insert_swap :
    (k l v w : Text) (ps : List (Text × Text))
    → k ≢ l
    → insert_key k v (insert_key l w ps) ≡ insert_key l w (insert_key k v ps)
unfolding insert_key
insert_swap k l v w [] ne =
    let lk = less_total k l ne in let kl = less_asym k l in ground (arith, lk, kl)
insert_swap k l v w ((m, x) ∷ ps) ne =
    let lk = less_total k l ne in
    let kl = less_asym k l in
    let mlk = less_trans m l k in
    let mkl = less_trans m k l in
    let rest = insert_swap k l v w ps ne in ground (arith, lk, kl, mlk, mkl, rest)
