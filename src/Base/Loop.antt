-- ===== src/Base/Loop.antt =====
-- A counted loop, and its invariant rule.
use Prim.Native.Nat.{ℕ, zero, suc}

-- `for k in i..i + n { s = body(k, s) }`, by the rounds that are left.
abbrev pub for_range {ℓ} : {State : Type ℓ} → ℕ → ℕ → (ℕ → State → State) → State → State
for_range zero index body state = state
for_range (suc left) index body state = for_range left (suc index) body (body index state)

-- What every round keeps holds at the end.
pub for_range_keeps {ℓ κ} :
    {S : Type ℓ} (P : S → Type κ) (body : ℕ → S → S) (n i : ℕ) (s : S)
    → ((k : ℕ) (t : S) → P t → P (body k t))
    → P s
    → P (for_range n i body s)
for_range_keeps P body zero i s keep h = h
for_range_keeps P body (suc n) i s keep h =
    for_range_keeps P body n (suc i) (body i s) keep (keep i s h)
