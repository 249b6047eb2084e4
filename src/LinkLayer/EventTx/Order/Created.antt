-- ===== src/LinkLayer/EventTx/Order/Created.antt =====
-- The states that the constructors of `ConnectionEventTxState` make.
use ch58x_hal.Base.{ℕ, ◌≤◌, ◌≡◌, refl, ap, subst, ◌∙◌, inl, inr, arith}
use ch58x_hal.Base.{none, some, List, [], ◌∷◌, length}
use ch58x_hal.Base.{if◌then◌else◌, ok, ◌==◌, Result-cases}
use ch58x_hal.LinkLayer.EventTx.State.{
  slot0, TxState, max_payloads, from_owner_tokens, new_with_owner_tokens, with_empty_retry,
}
use ch58x_hal.LinkLayer.EventTx.Completing.{}
use ch58x_hal.LinkLayer.EventTx.Order.Runs.{Run, padded, IsRun}

abbrev pub start : TxState → Run
start s = record { state = s; acknowledged = [] }

fresh-IsRun :
    (owners : List ℕ)
    → length owners ≤ max_payloads
    → IsRun owners (start (from_owner_tokens (padded owners) (length owners)))
unfolding from_owner_tokens
fresh-IsRun [] h = record { queue = omega arith; in_order = refl; count = refl; tokens = refl }
fresh-IsRun (w ∷ []) h = record {
  queue = record {
    count_le = omega arith;
    next_le = omega arith;
    staged = (refl, refl);
    owned_first = refl;
    owned_second = tt;
    held = tt;
    pending = tt;
  };
  in_order = refl;
  count = refl;
  tokens = refl;
}
fresh-IsRun (w ∷ x ∷ ws) h = record {
  queue = record {
    count_le = h;
    next_le = ground arith;
    staged = (ground arith, inl (refl, refl));
    owned_first = refl;
    owned_second = refl;
    held = tt;
    pending = tt;
  };
  in_order = refl;
  count = refl;
  tokens = refl;
}

new_with_owner_tokens_inv :
    (owners : List ℕ) (s : TxState)
    → new_with_owner_tokens owners ≡ ok s
    → (length owners ≤ max_payloads) × (from_owner_tokens (padded owners) (length owners) ≡ s)
unfolding new_with_owner_tokens
new_with_owner_tokens_inv owners s e = ground arith

pub created-IsRun :
    (owners : List ℕ) (s : TxState) → new_with_owner_tokens owners ≡ ok s → IsRun owners (start s)
created-IsRun owners s e =
    let made = new_with_owner_tokens_inv owners s e in
    subst (λ t. IsRun owners (start t)) made.1 (fresh-IsRun owners made.0)

-- The states of `with_empty_retry`: the Empty PDU is outstanding in slot 0, and payload 0 is staged
-- in slot 1.
resumed : List ℕ → TxState → TxState
resumed owners state = record state {
  slots = record { first = none; second = state.slots.first };
  next_payload_id = if length owners == 0 then 0 else 1;
  outstanding = some (record { slot = slot0; token = none });
}

resumed-IsRun_fresh :
    (owners : List ℕ)
    → length owners ≤ max_payloads
    → IsRun owners (start (resumed owners (from_owner_tokens (padded owners) (length owners))))
unfolding resumed from_owner_tokens
resumed-IsRun_fresh [] h = record {
  queue = record {
    count_le = omega arith;
    next_le = omega arith;
    staged = refl;
    owned_first = tt;
    owned_second = tt;
    held = (refl, tt, inr refl);
    pending = tt;
  };
  in_order = refl;
  count = refl;
  tokens = refl;
}
resumed-IsRun_fresh (w ∷ []) h = record {
  queue = record {
    count_le = omega arith;
    next_le = omega arith;
    staged = (refl, refl);
    owned_first = tt;
    owned_second = refl;
    held = (refl, tt, inl refl);
    pending = tt;
  };
  in_order = refl;
  count = refl;
  tokens = refl;
}
resumed-IsRun_fresh (w ∷ x ∷ ws) h = record {
  queue = record {
    count_le = h;
    next_le = ground arith;
    staged = (refl, ground arith);
    owned_first = tt;
    owned_second = refl;
    held = (refl, tt, inl refl);
    pending = tt;
  };
  in_order = refl;
  count = refl;
  tokens = refl;
}

with_empty_retry_inv :
    (owners : List ℕ) (s : TxState)
    → with_empty_retry owners ≡ ok s
    → (t : TxState) × (new_with_owner_tokens owners ≡ ok t) × (resumed owners t ≡ s)
unfolding with_empty_retry resumed
with_empty_retry_inv owners s e = elim (Result-cases (new_with_owner_tokens owners)) [
  | inl (t, f) ↦ (t, f, ground arith)
  | inr (x, f) ↦ absurd (ground arith)
]

pub resumed-IsRun :
    (owners : List ℕ) (s : TxState) → with_empty_retry owners ≡ ok s → IsRun owners (start s)
resumed-IsRun owners s e =
    let (t, made, same) = with_empty_retry_inv owners s e in
    let inv = new_with_owner_tokens_inv owners t made in
    subst (λ u. IsRun owners (start u)) (ap (resumed owners) inv.1 ∙ same)
      (resumed-IsRun_fresh owners inv.0)
