-- ===== src/LinkLayer/Sequence/Header.antt =====
-- What `response_header` writes is what `observe` reads.
use ch58x_hal.Base.{ℕ, zero, suc, ◌+◌, ◌*◌, ◌/◌, ◌%◌, ◌^◌, ◌-◌, ◌≤◌, ◌<◌, ◌≡◌, refl}
use ch58x_hal.Base.{arith, Bool, true, false, ◌&&◌, ◌==◌, ◌!=◌, if◌then◌else◌}
use ch58x_hal.Base.{bit_xor, all_below, all_below_sound}
use ch58x_hal.Base.Bits.Mask.{and-low, and-bit}
use ch58x_hal.LinkLayer.Sequence.{
  DataSequenceState, observe, response_header, encryption_start_headers,
}

abbrev pub IsBit : ℕ → Type 0
IsBit n = n ≤ 1

abbrev pub IsSequence : DataSequenceState → Type 0
IsSequence s = IsBit s.transmit_sn × IsBit s.expected_sn

pub nesn : ℕ → ℕ
nesn header = header / 4 % 2

pub sn : ℕ → ℕ
sn header = header / 8 % 2

pub more_data_bit : ℕ → ℕ
more_data_bit header = header / 16 % 2

-- Every other field: LLID and the three reserved bits.
pub other_fields : ℕ → ℕ
other_fields header = header % 4 + header / 32 * 32

abbrev state : ℕ → ℕ → DataSequenceState
state t e = record { transmit_sn = t; expected_sn = e }

abbrev pub digit : Bool → ℕ
digit b = if b then 1 else 0

fields_hold : ℕ → ℕ → Bool → ℕ → Bool
fields_hold t e more staged =
    let header = response_header (state t e) staged more in
    nesn header == e
    && (sn header == t
        && (more_data_bit header == digit more && other_fields header == other_fields staged))

abbrev Fields : ℕ → ℕ → Bool → ℕ → Type 0
Fields t e more staged =
    let header = response_header (state t e) staged more in
    (nesn header ≡ e)
    × (sn header ≡ t)
    × (more_data_bit header ≡ digit more)
    × (other_fields header ≡ other_fields staged)

Fields-read :
    (t e : ℕ) (more : Bool) (staged : ℕ)
    → fields_hold t e more staged ≡ true
    → Fields t e more staged
unfolding fields_hold
Fields-read t e more staged h = ground arith

fields_table :
    (t e : ℕ) (more : Bool) → IsBit t → IsBit e → all_below 256 (fields_hold t e more) ≡ true
unfolding all_below fields_hold response_header nesn sn more_data_bit other_fields
fields_table zero zero true p q = refl
fields_table zero zero false p q = refl
fields_table zero (suc zero) true p q = refl
fields_table zero (suc zero) false p q = refl
fields_table (suc zero) zero true p q = refl
fields_table (suc zero) zero false p q = refl
fields_table (suc zero) (suc zero) true p q = refl
fields_table (suc zero) (suc zero) false p q = refl
fields_table zero (suc (suc e)) more p q = absurd (omega arith)
fields_table (suc zero) (suc (suc e)) more p q = absurd (omega arith)
fields_table (suc (suc t)) e more p q = absurd (omega arith)

-- A response carries the sequence numbers of the state and the MD bit that was asked for, and the
-- staged header's other fields.
pub response_header_fields :
    (s : DataSequenceState) (staged : ℕ) (more : Bool)
    → IsSequence s
    → staged < 256
    → let header = response_header s staged more in
      (nesn header ≡ s.expected_sn)
      × (sn header ≡ s.transmit_sn)
      × (more_data_bit header ≡ digit more)
      × (other_fields header ≡ other_fields staged)
response_header_fields s staged more p h =
    Fields-read s.transmit_sn s.expected_sn more staged
      (all_below_sound 256 _ staged (fields_table s.transmit_sn s.expected_sn more p.0 p.1) h)

flip : (a : ℕ) → IsBit a → bit_xor a 1 ≡ 1 - a
flip zero p = refl
flip (suc zero) p = refl
flip (suc (suc a)) p = absurd (omega arith)

-- The two tests that `observe` makes, and what each does to the state.
pub observe_reads :
    (s : DataSequenceState) (header : ℕ)
    → IsSequence s
    → let r = observe s header in
      (r.1.acknowledged_transmit ≡ (nesn header != s.transmit_sn))
      × (r.1.accepted_receive ≡ (sn header == s.expected_sn))
      × (r.1.peer_more_data ≡ (more_data_bit header == 1))
      × (r.0.transmit_sn
          ≡ (if nesn header != s.transmit_sn then 1 - s.transmit_sn else s.transmit_sn))
      × (r.0.expected_sn
          ≡ (if sn header == s.expected_sn then 1 - s.expected_sn else s.expected_sn))
unfolding observe nesn sn more_data_bit
observe_reads s header p = ground (
  arith,
  and-low 1 (header / 2 ^ 2),
  and-low 1 (header / 2 ^ 3),
  and-bit 4 header,
  flip s.transmit_sn p.0,
  flip s.expected_sn p.1,
)

pub observe-IsSequence :
    (s : DataSequenceState) (header : ℕ) → IsSequence s → IsSequence (observe s header).0
observe-IsSequence s header p = ground (arith, observe_reads s header p)

-- The Central's precomputed header of the encryption start acknowledges the outstanding PDU and is
-- accepted, and the Peripheral's is the control header that answers it afterwards.
pub encryption_start_headers_agree :
    (s : DataSequenceState)
    → IsSequence s
    → let headers = encryption_start_headers s.transmit_sn s.expected_sn in
      let seen = observe s headers.0 in
      (seen.1.acknowledged_transmit ≡ true)
      × (seen.1.accepted_receive ≡ true)
      × (response_header seen.0 0x03 false ≡ headers.1)
unfolding observe response_header encryption_start_headers
encryption_start_headers_agree s p = table s.transmit_sn s.expected_sn p.0 p.1
  where
    table :
        (t e : ℕ)
        → IsBit t
        → IsBit e
        → let s : DataSequenceState = record { transmit_sn = t; expected_sn = e } in
          let headers = encryption_start_headers t e in
          let seen = observe s headers.0 in
          (seen.1.acknowledged_transmit ≡ true)
          × (seen.1.accepted_receive ≡ true)
          × (response_header seen.0 0x03 false ≡ headers.1)
    table zero zero p q = (refl, refl, refl)
    table zero (suc zero) p q = (refl, refl, refl)
    table (suc zero) zero p q = (refl, refl, refl)
    table (suc zero) (suc zero) p q = (refl, refl, refl)
    table t e p q = absurd (omega arith)
