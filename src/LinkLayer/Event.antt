-- ===== src/LinkLayer/Event.antt =====
-- The end of a connection event and its trace record: crates/ble-controller/src/link_layer.rs, lines
-- 472 to 635.
pub mod Closing
pub mod Trace
use ch58x_hal.Base.{ℕ, ◌+◌, ◌-◌, ◌*◌, ◌/◌, ◌%◌, ◌^◌, Bool, true, false, not, ◌&&◌, ◌||◌}
use ch58x_hal.Base.{
  List, [], ◌∷◌, if◌then◌else◌, ◌==◌, bit_or, u32, ◌<<<◌, ◌>>>◌, Option, none, some,
}
use ch58x_hal.LinkLayer.Sequence.{connection_event_may_continue}

pub data CloseReason : Type 0 where
  continue both_md_clear deadline radio_timeout invalid_crc : CloseReason
  invalid_mic resource_limit protocol_error : CloseReason

-- `close_reason as u32`.
abbrev pub reason_code : CloseReason → ℕ
reason_code continue = 0
reason_code both_md_clear = 1
reason_code deadline = 2
reason_code radio_timeout = 3
reason_code invalid_crc = 4
reason_code invalid_mic = 5
reason_code resource_limit = 6
reason_code protocol_error = 7

pub record TraceRecord : Type 0 where
  pub event_counter : ℕ
  pub channel : ℕ
  pub leg_index : ℕ
  pub timestamp_us : ℕ
  pub lle_status : ℕ
  pub bb_status : ℕ
  pub peer_header : ℕ
  pub response_header : ℕ
  pub received_len : ℕ
  pub response_slot : ℕ
  pub crc_ok : Bool
  pub acknowledged_transmit : Bool
  pub accepted_receive : Bool
  pub peer_more_data : Bool
  pub response_transmitted : Bool
  pub close_reason : CloseReason

-- `bool as u32`.
abbrev pub bool_as : Bool → ℕ
bool_as true = 1
bool_as false = 0

unfoldable pub encode_flags : TraceRecord → ℕ
encode_flags r =
    bit_or
      (bit_or
        (bit_or
          (bit_or (bit_or (bool_as r.crc_ok) (bool_as r.acknowledged_transmit <<< 1))
            (bool_as r.accepted_receive <<< 2))
          (bool_as r.peer_more_data <<< 3))
        (bool_as r.response_transmitted <<< 4))
      (reason_code r.close_reason <<< 8)

unfoldable pub encode : TraceRecord → List ℕ
encode r =
    bit_or (bit_or r.event_counter (r.channel <<< 16)) (r.leg_index <<< 24)
    ∷ u32 r.timestamp_us
    ∷ u32 (r.timestamp_us >>> 32)
    ∷ r.lle_status
    ∷ r.bb_status
    ∷ bit_or (bit_or (bit_or r.peer_header (r.response_header <<< 8)) (r.received_len <<< 16))
        (r.response_slot <<< 24)
    ∷ encode_flags r
    ∷ []

-- `none` is the failed assertion that the capacity is not zero.
unfoldable pub connection_event_trace_slot : ℕ → ℕ → Option ℕ
connection_event_trace_slot sequence capacity =
    if capacity == 0 then none else some (sequence % capacity)

unfoldable pub committed_response_header : ℕ → ℕ → Bool → ℕ
committed_response_header staged_header response_header response_transmitted =
    if response_transmitted then response_header else staged_header

pub record DecisionInput : Type 0 where
  pub crc_ok : Bool
  pub mic_ok : Bool
  pub local_more_data : Bool
  pub peer_more_data : Bool
  pub before_deadline : Bool
  pub resources_available : Bool

unfoldable pub response_advertises_more_data : Bool → Bool → Bool → Bool → Bool → Bool
response_advertises_more_data more_payloads require_final_ack response_has_owner response_is_retry
      resources_available =
    resources_available
    && (more_payloads || (require_final_ack && (response_has_owner && not response_is_retry)))

unfoldable pub connection_event_decision : DecisionInput → CloseReason
connection_event_decision input =
    if not input.crc_ok
    then invalid_crc
    else if not input.mic_ok
    then invalid_mic
    else if not input.before_deadline
    then deadline
    else if not (connection_event_may_continue input.local_more_data input.peer_more_data)
    then both_md_clear
    else if not input.resources_available
    then resource_limit
    else continue
