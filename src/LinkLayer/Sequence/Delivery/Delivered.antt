-- ===== src/LinkLayer/Sequence/Delivery/Delivered.antt =====
-- What each end accepts, in order, and that the exchange goes on.
use ch58x_hal.Base.{ℕ, ◌+◌, ◌≤◌, ◌<◌, ◌≡◌}
use ch58x_hal.Base.{arith, Bool, true, false, List, All}
use ch58x_hal.LinkLayer.Sequence.{response_header}
use ch58x_hal.LinkLayer.Sequence.Header.{observe_reads}
use ch58x_hal.LinkLayer.Sequence.Delivery.Link.{
  Endpoint, send, receive, Turn, turn, turns, fresh, first,
}
use ch58x_hal.LinkLayer.Sequence.Delivery.Linked.{
  Agrees, receiver-IsSequence, header_reads, count_after, accepts, acknowledges, IsStaged,
  turns-IsLinked, fresh-IsLinked,
}

-- Whatever is transmitted and lost in whatever order after the connection is set up, each end has
-- accepted exactly the first payloads of the other, each once and in order, and the sender has seen
-- all of them acknowledged but at most the last.
pub delivered_in_order :
    (ts : List Turn)
    → All IsStaged ts
    → let l = turns fresh ts in
      (m : ℕ) × (n : ℕ) × (l.peripheral.received ≡ first m)
      × (l.central.received ≡ first n)
      × (l.central.acked ≤ m)
      × (m ≤ l.central.acked + 1)
      × (l.peripheral.acked ≤ n)
      × (n ≤ l.peripheral.acked + 1)
delivered_in_order ts p =
    let v = turns-IsLinked fresh ts p fresh-IsLinked in
    (
      v.to_peripheral, v.to_central, v.down.in_order, v.up.in_order, v.down.acked_le,
      v.down.le_acked, v.up.acked_le, v.up.le_acked,
    )

-- An answer of an end that has accepted the outstanding payload acknowledges it.
acked_by :
    (k n : ℕ) (s h : Endpoint) (b : ℕ) (y : Bool)
    → Agrees k s h
    → Agrees n h s
    → b < 256
    → k ≡ s.acked + 1
    → (receive s (send h b y)).acked ≡ s.acked + 1
unfolding receive send
acked_by k n s h b y down up fits e = ground (
  arith,
  header_reads n k h s b y up down fits,
  observe_reads s.sequence (response_header h.sequence b y)
      (receiver-IsSequence n k h s b y up down fits),
  down.sends,
)

module _ (m n : ℕ) (s r : Endpoint) (a b : ℕ) (x y : Bool) (down : Agrees m s r) (up : Agrees n r s)
    (fits_a : a < 256) (fits_b : b < 256) where
  abbrev heard : Endpoint
  heard = receive r (send s a x)

  abbrev heard_count : ℕ
  heard_count = count_after m n s r a x down up fits_a

  heard_down : Agrees heard_count s heard
  heard_down = accepts m n s r a x down up fits_a

  heard_up : Agrees n heard s
  heard_up = acknowledges m n s r a x down up fits_a

  heard_count_next : heard_count ≡ s.acked + 1
  heard_count_next = ground (arith, down.acked_le, down.le_acked)

  acked-receive : (receive s (send heard b y)).acked ≡ s.acked + 1
  acked-receive = acked_by heard_count n s heard b y heard_down heard_up fits_b heard_count_next

-- A PDU of the Central that arrives and an answer that arrives advance the Central by one payload,
-- whatever was lost before.
pub exchange_progress :
    (ts : List Turn) (a b : ℕ) (x y : Bool)
    → All IsStaged ts
    → a < 256
    → b < 256
    → let l = turns fresh ts in
      (turn
        (turn l (record { from_central = true; staged = a; more = x; lost = false }))
        (record { from_central = false; staged = b; more = y; lost = false })).central.acked
      ≡ l.central.acked + 1
unfolding turn
exchange_progress ts a b x y p fits_a fits_b =
    let l = turns fresh ts in
    let v = turns-IsLinked fresh ts p fresh-IsLinked in
    acked-receive v.to_peripheral v.to_central l.central l.peripheral a b x y v.down v.up fits_a
      fits_b
