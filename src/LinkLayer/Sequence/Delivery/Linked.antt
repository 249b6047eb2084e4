-- ===== src/LinkLayer/Sequence/Delivery/Linked.antt =====
-- What the two ends keep true, whatever is lost.
use ch58x_hal.Base.{ℕ, suc, ◌+◌, ◌%◌, ◌≤◌, ◌<◌, ◌≡◌, refl, ◌∙◌, inl, inr}
use ch58x_hal.Base.{arith, Bool, true, false, List, [], ◌∷◌, All, if◌then◌else◌, ◌==◌, Bool-cases}
use ch58x_hal.LinkLayer.Sequence.{new, response_header}
use ch58x_hal.LinkLayer.Sequence.Header.{
  IsSequence, response_header_fields, observe_reads, nesn, sn,
}
use ch58x_hal.LinkLayer.Sequence.Delivery.Link.{
  Endpoint, send, receive, Link, Turn, deliver, turn, turns, fresh, first,
}

-- The receiver has accepted the sender's first `count` payloads, each once and in order, and is at
-- most one payload ahead of what the sender knows; the sequence numbers are the counts' parities.
pub record Agrees (count : ℕ) (sender receiver : Endpoint) : Type 0 where
  pub in_order : receiver.received ≡ first count
  pub acked_le : sender.acked ≤ count
  pub le_acked : count ≤ sender.acked + 1
  pub sends : sender.sequence.transmit_sn ≡ sender.acked % 2
  pub expects : receiver.sequence.expected_sn ≡ count % 2

module _ (m n : ℕ) (s r : Endpoint) (staged : ℕ) (more : Bool) (down : Agrees m s r)
    (up : Agrees n r s) (fits : staged < 256) where
  abbrev pub header : ℕ
  header = response_header s.sequence staged more

  sender-IsSequence : IsSequence s.sequence
  sender-IsSequence = omega (arith, down.sends, up.expects)

  pub receiver-IsSequence : IsSequence r.sequence
  receiver-IsSequence = omega (arith, up.sends, down.expects)

  pub header_reads : (nesn header ≡ n % 2) × (sn header ≡ s.acked % 2)
  header_reads =
      let fields = response_header_fields s.sequence staged more sender-IsSequence fits in
      (fields.0 ∙ up.expects, fields.1 ∙ down.sends)

  -- The receiver's count after the PDU has come in: it is new exactly if the sender had nothing
  -- outstanding that was accepted.
  abbrev pub count_after : ℕ
  count_after = if s.acked == m then suc m else m

  received_after : (receive r (send s staged more)).received ≡ first count_after
  unfolding receive send
  received_after = ground (arith, header_reads, observe_reads r.sequence header receiver-IsSequence)

  pub accepts : Agrees count_after s (receive r (send s staged more))
  unfolding receive send
  accepts = record {
    in_order = received_after;
    acked_le = ground arith;
    le_acked = ground arith;
    sends = down.sends;
    expects = ground (arith, header_reads, observe_reads r.sequence header receiver-IsSequence);
  }

  pub acknowledges : Agrees n (receive r (send s staged more)) s
  unfolding receive send
  acknowledges = record {
    in_order = up.in_order;
    acked_le = ground (arith, header_reads, observe_reads r.sequence header receiver-IsSequence);
    le_acked = ground (arith, header_reads, observe_reads r.sequence header receiver-IsSequence);
    sends = ground (arith, header_reads, observe_reads r.sequence header receiver-IsSequence);
    expects = up.expects;
  }

pub record IsLinked (l : Link) : Type 0 where
  pub to_peripheral : ℕ
  pub to_central : ℕ
  pub down : Agrees to_peripheral l.central l.peripheral
  pub up : Agrees to_central l.peripheral l.central

deliver-IsLinked :
    (from_central : Bool) (staged : ℕ) (more : Bool) (l : Link)
    → staged < 256
    → IsLinked l
    → IsLinked (deliver from_central staged more l)
unfolding deliver
deliver-IsLinked true staged more l fits v = record {
  to_peripheral =
      count_after v.to_peripheral v.to_central l.central l.peripheral staged more v.down v.up fits;
  to_central = v.to_central;
  down = accepts v.to_peripheral v.to_central l.central l.peripheral staged more v.down v.up fits;
  up =
      acknowledges v.to_peripheral v.to_central l.central l.peripheral staged more v.down v.up fits;
}
deliver-IsLinked false staged more l fits v = record {
  to_peripheral = v.to_peripheral;
  to_central =
      count_after v.to_central v.to_peripheral l.peripheral l.central staged more v.up v.down fits;
  down =
      acknowledges v.to_central v.to_peripheral l.peripheral l.central staged more v.up v.down fits;
  up = accepts v.to_central v.to_peripheral l.peripheral l.central staged more v.up v.down fits;
}

turn-IsLinked : (l : Link) (t : Turn) → t.staged < 256 → IsLinked l → IsLinked (turn l t)
unfolding turn
turn-IsLinked l t fits v = elim (Bool-cases t.lost) [
  | inl gone ↦ simp gone v
  | inr came ↦ simp came (deliver-IsLinked t.from_central t.staged t.more l fits v)
]

abbrev pub IsStaged : Turn → Type 0
IsStaged t = t.staged < 256

pub turns-IsLinked :
    (l : Link) (ts : List Turn) → All IsStaged ts → IsLinked l → IsLinked (turns l ts)
unfolding turns
turns-IsLinked l [] p v = v
turns-IsLinked l (t ∷ ts) p v = turns-IsLinked (turn l t) ts p.1 (turn-IsLinked l t p.0 v)

pub fresh-IsLinked : IsLinked fresh
unfolding fresh new
fresh-IsLinked = record {
  to_peripheral = 0;
  to_central = 0;
  down = record {
    in_order = refl;
    acked_le = omega arith;
    le_acked = omega arith;
    sends = refl;
    expects = refl;
  };
  up = record {
    in_order = refl;
    acked_le = omega arith;
    le_acked = omega arith;
    sends = refl;
    expects = refl;
  };
}
