-- ===== src/Backend/Acl/Heard.antt =====
-- What the peer says in an event about the frame that was sent before it, read from the octets.
use ch58x_hal.Base.{ℕ, ◌/◌, ◌%◌, ◌≡◌, refl, ap, ap₂}
use ch58x_hal.Base.{
  arith, Bool, true, false, not, ◌&&◌, ◌||◌, Option, none, some, List, ◌∷◌, length,
}
use ch58x_hal.Base.{ltb, leb, ◌==◌, ◌!=◌, if◌then◌else◌, bit_and, ◌>>>◌}
use ch58x_hal.Base.Bits.Mask.{and-low}
use ch58x_hal.LinkLayer.Sequence.{acknowledges_transmit_owner}
use ch58x_hal.Backend.Connection.{ActiveConnection}
use ch58x_hal.Backend.Control.{no_frame}
use ch58x_hal.Backend.Event.{Exchange}
use ch58x_hal.Backend.Acl.Moves.{Steady}

-- The header of a PDU of at most 27 octets that is there in full and has a valid LLID.
abbrev pub pdu_header : List ℕ → Option ℕ
pdu_header (header ∷ size ∷ body) =
    if leb size 27 && (header % 4 != 0 && leb size (length body)) then some header else none
pdu_header _ = none

-- Nothing is heard from an exchange that fails or has a wrong CRC.
abbrev pub heard_header : Option Exchange → Option ℕ
heard_header none = none
heard_header (some x) = if x.crc_ok then pdu_header x.payload else none

-- The NESN bit asks for another PDU than that of `sn`.
abbrev pub confirms : ℕ → Option ℕ → Bool
confirms sn none = false
confirms sn (some header) = header / 4 % 2 != sn

-- A frame stands at the start of the event, and has been sent before.
abbrev pub is_outstanding : ActiveConnection → Bool
is_outstanding c = not (no_frame c.tx_frame) && not c.tx_frame_fresh

abbrev pub is_confirmed : ActiveConnection → Option ℕ → Bool
is_confirmed c header = is_outstanding c && confirms c.transmit_sn header

-- In an event that gives `x` the peer acknowledges the frame that `c` has sent before.
abbrev pub is_acknowledged : ActiveConnection → Option Exchange → Bool
is_acknowledged c x = is_confirmed c (heard_header x)

nesn_lem : (header : ℕ) → bit_and (header >>> 2) 1 ≡ header / 4 % 2
nesn_lem header = and-low 1 (header / 4)

-- The code's test, for a connection with the same number.
pub acknowledges_lem :
    (header sn : ℕ) (outstanding : Bool)
    → acknowledges_transmit_owner header sn outstanding false
      ≡ (outstanding && confirms sn (some header))
unfolding acknowledges_transmit_owner
acknowledges_lem header sn true = ap (λ (n : ℕ). n != sn) (nesn_lem header)
acknowledges_lem header sn false = refl

module _ (header size : ℕ) (body : List ℕ) where
  llid : bit_and header 0x03 ≡ header % 4
  llid = and-low 2 header

  pub refused_header :
      (ltb 27 size || bit_and header 0x03 == 0) ≡ true → pdu_header (header ∷ size ∷ body) ≡ none
  refused_header e = ground (arith, e, llid)

  pub short_header : ltb (length body) size ≡ true → pdu_header (header ∷ size ∷ body) ≡ none
  short_header e = ground (arith, e)

  pub whole_header :
      (ltb 27 size || bit_and header 0x03 == 0) ≡ false
      → ltb (length body) size ≡ false
      → pdu_header (header ∷ size ∷ body) ≡ some header
  whole_header e f = ground (arith, e, f, llid)

pub is_acknowledged-Steady :
    (c d : ActiveConnection) (x : Option Exchange)
    → Steady c d
    → is_acknowledged d x ≡ is_acknowledged c x
is_acknowledged-Steady c d x s =
    ap₂ (λ a b. a && b) (ap₂ (λ a b. not a && not b) (ap no_frame s.tx_frame) s.fresh)
      (ap (λ (sn : ℕ). confirms sn (heard_header x)) s.transmit_sn)
