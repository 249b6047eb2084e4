-- ===== src/Advertising/Slices.antt =====
-- What `copy_from_slice` and the single stores leave in an output array.
use ch58x_hal.Base.{ℕ, zero, suc, ◌+◌, ◌≤◌, ◌<◌, ◌≡◌, refl, ap}
use ch58x_hal.Base.{arith, List, [], ◌∷◌, ◌++◌, length, take, set}
use ch58x_hal.Advertising.Legacy.{write_at}

pub length-write_at : (xs : List ℕ) (k : ℕ) (vs : List ℕ) → length (write_at xs k vs) ≡ length xs
length-write_at [] k vs = refl
length-write_at (x ∷ xs) (suc k) vs = ap suc (length-write_at xs k vs)
length-write_at (x ∷ xs) zero [] = refl
length-write_at (x ∷ xs) zero (v ∷ vs) = ap suc (length-write_at xs 0 vs)

-- Up to the end of what was written: the array before, then the values.
pub take-write_at :
    (xs : List ℕ) (k : ℕ) (vs : List ℕ) (n : ℕ)
    → n ≡ k + length vs
    → n ≤ length xs
    → take n (write_at xs k vs) ≡ take k xs ++ vs
take-write_at [] k [] zero e le = ap (λ (j : ℕ). take j [] ++ []) {x = 0} (omega arith)
take-write_at [] k (v ∷ vs) zero e le = absurd (omega arith)
take-write_at [] k vs (suc n) e le = absurd (omega arith)
take-write_at (x ∷ xs) (suc k) vs zero e le = absurd (omega arith)
take-write_at (x ∷ xs) (suc k) vs (suc n) e le =
    ap (◌∷◌ x) (take-write_at xs k vs n (omega arith) (omega arith))
take-write_at (x ∷ xs) zero [] zero e le = refl
take-write_at (x ∷ xs) zero [] (suc n) e le = absurd (omega arith)
take-write_at (x ∷ xs) zero (v ∷ vs) zero e le = absurd (omega arith)
take-write_at (x ∷ xs) zero (v ∷ vs) (suc n) e le =
    ap (◌∷◌ v) (take-write_at xs 0 vs n (omega arith) (omega arith))

pub take-set :
    (xs : List ℕ) (k v : ℕ) → k < length xs → take (suc k) (set xs k v) ≡ take k xs ++ (v ∷ [])
take-set [] k v lt = absurd (omega arith)
take-set (x ∷ xs) zero v lt = refl
take-set (x ∷ xs) (suc k) v lt = ap (◌∷◌ x) (take-set xs k v (omega arith))
