-- ===== src/LinkLayer/Sequence.antt =====
-- The sequence numbers of a data channel: `DataSequenceState` and the acknowledgement tests of
-- crates/ble-controller/src/link_layer.rs.
pub mod Header
pub mod Delivery
use ch58x_hal.Base.{ℕ, ◌-◌, Bool, true, false, not, ◌&&◌, ◌||◌, ◌==◌, ◌!=◌, if◌then◌else◌}
use ch58x_hal.Base.{bit_and, bit_or, bit_xor, ◌<<<◌, ◌>>>◌, has_bits}

abbrev pub data_header_nesn : ℕ
data_header_nesn = 1 <<< 2

abbrev pub data_header_sn : ℕ
data_header_sn = 1 <<< 3

abbrev pub data_header_md : ℕ
data_header_md = 1 <<< 4

abbrev pub data_header_sequence_mask : ℕ
data_header_sequence_mask = bit_or data_header_nesn data_header_sn

unfoldable pub acknowledges_outstanding_transmit : ℕ → ℕ → Bool → Bool
acknowledges_outstanding_transmit peer_header transmit_sn outstanding_at_event_entry =
    outstanding_at_event_entry && bit_and (peer_header >>> 2) 1 != transmit_sn

unfoldable pub acknowledges_transmit_owner : ℕ → ℕ → Bool → Bool → Bool
acknowledges_transmit_owner peer_header transmit_sn outstanding_at_event_entry
      received_after_primary_transmit =
    (outstanding_at_event_entry || received_after_primary_transmit)
    && bit_and (peer_header >>> 2) 1 != transmit_sn

pub record DataSequenceState : Type 0 where
  pub transmit_sn : ℕ
  pub expected_sn : ℕ

pub record DataSequenceObservation : Type 0 where
  pub acknowledged_transmit : Bool
  pub accepted_receive : Bool
  pub peer_more_data : Bool

unfoldable pub new : ℕ → ℕ → DataSequenceState
new transmit_sn expected_sn = record {
  transmit_sn = bit_and transmit_sn 1;
  expected_sn = bit_and expected_sn 1;
}

unfoldable pub observe : DataSequenceState → ℕ → DataSequenceState × DataSequenceObservation
observe s peer_header =
    let peer_nesn = bit_and (peer_header >>> 2) 1 in
    let peer_sn = bit_and (peer_header >>> 3) 1 in
    let acknowledged = peer_nesn != s.transmit_sn in
    let accepted = peer_sn == s.expected_sn in
    (
      record {
        transmit_sn = if acknowledged then bit_xor s.transmit_sn 1 else s.transmit_sn;
        expected_sn = if accepted then bit_xor s.expected_sn 1 else s.expected_sn;
      },
      record {
        acknowledged_transmit = acknowledged;
        accepted_receive = accepted;
        peer_more_data = has_bits peer_header data_header_md;
      },
    )

-- `!mask` on an octet is `255 - mask`.
unfoldable pub response_header : DataSequenceState → ℕ → Bool → ℕ
response_header s staged_header more_data =
    let kept = bit_and staged_header (255 - bit_or data_header_sequence_mask data_header_md) in
    let header = bit_or (bit_or kept (s.expected_sn <<< 2)) (s.transmit_sn <<< 3) in
    if more_data then bit_or header data_header_md else header

unfoldable pub connection_event_may_continue : Bool → Bool → Bool
connection_event_may_continue local_more_data peer_more_data = local_more_data || peer_more_data

-- (the Central's header, the Peripheral's header)
unfoldable pub encryption_start_headers : ℕ → ℕ → ℕ × ℕ
encryption_start_headers peripheral_transmit_sn peripheral_expected_sn =
    let llid_control : ℕ = 0x03 in
    (
      bit_or (bit_or llid_control (bit_xor peripheral_transmit_sn 1 <<< 2))
          (peripheral_expected_sn <<< 3),
      bit_or (bit_or llid_control (bit_xor peripheral_expected_sn 1 <<< 2))
          (bit_xor peripheral_transmit_sn 1 <<< 3),
    )
