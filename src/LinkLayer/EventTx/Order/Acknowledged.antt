-- ===== src/LinkLayer/EventTx/Order/Acknowledged.antt =====
-- Any sequence of calls of `ConnectionEventTxState` acknowledges the payloads in their order.
use ch58x_hal.Base.{ℕ, ◌≡◌, ◌⊎◌, inl, inr}
use ch58x_hal.Base.{List, [], length, take}
use ch58x_hal.Base.{ok}
use ch58x_hal.LinkLayer.EventTx.State.{TxState, new_with_owner_tokens, with_empty_retry}
use ch58x_hal.LinkLayer.EventTx.Completing.{}
use ch58x_hal.LinkLayer.EventTx.Order.Runs.{Call, run, run-IsRun}
use ch58x_hal.LinkLayer.EventTx.Order.Created.{start, created-IsRun, resumed-IsRun}

-- The owners of the acknowledged tokens are, after any calls, the first of those that were given,
-- each once and in their order. It holds with fresh slots and with an outstanding Empty PDU; also
-- if selections, completions and aborts come in any order, and with stale decisions.
pub acknowledged_in_order :
    (owners : List ℕ) (s : TxState) (calls : List Call)
    → (new_with_owner_tokens owners ≡ ok s) ⊎ (with_empty_retry owners ≡ ok s)
    → let acknowledged = (run (record { state = s; acknowledged = [] }) calls).acknowledged in
      acknowledged ≡ take (length acknowledged) owners
acknowledged_in_order owners s calls (inl e) =
    (run-IsRun owners calls (start s) (created-IsRun owners s e)).in_order
acknowledged_in_order owners s calls (inr e) =
    (run-IsRun owners calls (start s) (resumed-IsRun owners s e)).in_order
