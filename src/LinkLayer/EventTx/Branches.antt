-- ===== src/LinkLayer/EventTx/Branches.antt =====
-- What `select` returns on each of its branches.
use ch58x_hal.Base.{◌≡◌, Bool, true, false, none, some, ok, err}
use ch58x_hal.LinkLayer.EventTx.State.{
  Decision, Outstanding, TxState, put, ack_without_outstanding_response,
  response_plan_already_pending,
}
use ch58x_hal.LinkLayer.EventTx.Select.{select, choose, retry}

pub select_pending :
    (s : TxState) (ack : Bool) (d : Decision)
    → s.planned ≡ some d
    → select s ack ≡ err response_plan_already_pending
unfolding select
select_pending s ack d e = simp e

module _ (s : TxState) (free : s.planned ≡ none) where
  pub select_unexpected :
      s.outstanding ≡ none → select s true ≡ err ack_without_outstanding_response
  unfolding select
  select_unexpected e = simp (free, e)

  pub select_idle :
      s.outstanding ≡ none
      → let d = choose s s.slots s.last_released_slot none false none in
        select s false ≡ ok (record s { planned = some d }, d)
  unfolding select
  select_idle e = simp (free, e)

  pub select_repeat :
      (o : Outstanding)
      → s.outstanding ≡ some o
      → select s false ≡ ok (record s { planned = some (retry s o) }, retry s o)
  unfolding select
  select_repeat o e = simp (free, e)

  pub select_advance :
      (o : Outstanding)
      → s.outstanding ≡ some o
      → let d = choose s (put o.slot none s.slots) o.slot (some o.slot) true o.token in
        select s true
        ≡ ok (
          record s {
            outstanding = none;
            slots = put o.slot none s.slots;
            last_released_slot = o.slot;
            planned = some d;
          },
          d,
        )
  unfolding select
  select_advance o e = simp (free, e)
