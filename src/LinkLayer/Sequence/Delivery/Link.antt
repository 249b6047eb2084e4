-- ===== src/LinkLayer/Sequence/Delivery/Link.antt =====
-- Two ends of a link that follow `DataSequenceState`, over a channel that loses PDUs. The peer of the
-- Peripheral is modelled by the same state and headers.
use ch58x_hal.Base.{ℕ, zero, suc}
use ch58x_hal.Base.{Bool, true, false, List, [], ◌∷◌, ◌++◌, if◌then◌else◌}
use ch58x_hal.LinkLayer.Sequence.{DataSequenceState, new, observe, response_header}
use ch58x_hal.LinkLayer.Sequence.Header.{}

-- `acked` counts the payloads whose acknowledgement was seen, so it is the index of the payload
-- that is sent next or again; `received` holds the indices of the accepted payloads.
pub record Endpoint : Type 0 where
  pub sequence : DataSequenceState
  pub acked : ℕ
  pub received : List ℕ

pub record Pdu : Type 0 where
  pub header : ℕ
  pub payload : ℕ

unfoldable pub send : Endpoint → ℕ → Bool → Pdu
send e staged more = record { header = response_header e.sequence staged more; payload = e.acked }

unfoldable pub receive : Endpoint → Pdu → Endpoint
receive e pdu =
    let (sequence, seen) = observe e.sequence pdu.header in
    record {
      sequence = sequence;
      acked = if seen.acknowledged_transmit then suc e.acked else e.acked;
      received = if seen.accepted_receive then e.received ++ (pdu.payload ∷ []) else e.received;
    }

pub record Link : Type 0 where
  pub central : Endpoint
  pub peripheral : Endpoint

-- One transmission; a PDU that is lost, or whose CRC fails, is not observed.
pub record Turn : Type 0 where
  pub from_central : Bool
  pub staged : ℕ
  pub more : Bool
  pub lost : Bool

unfoldable pub deliver : Bool → ℕ → Bool → Link → Link
deliver true staged more l = record l {
  peripheral = receive l.peripheral (send l.central staged more);
}
deliver false staged more l = record l {
  central = receive l.central (send l.peripheral staged more);
}

unfoldable pub turn : Link → Turn → Link
unfolding deliver
turn l t = if t.lost then l else deliver t.from_central t.staged t.more l

unfoldable pub turns : Link → List Turn → Link
turns l [] = l
turns l (t ∷ ts) = turns (turn l t) ts

unfoldable pub fresh : Link
unfolding new
fresh = record { central = endpoint; peripheral = endpoint }
  where
    endpoint : Endpoint
    endpoint = record { sequence = new 0 0; acked = 0; received = [] }

-- 0, 1, …, n - 1.
abbrev pub first : ℕ → List ℕ
first zero = []
first (suc n) = first n ++ (n ∷ [])
