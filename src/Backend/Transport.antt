-- ===== src/Backend/Transport.antt =====
-- The packets between host and controller: crates/ch58x-ble/src/controller.rs. A packet is its kind
-- and the octets in use, `bytes[..len]`. A channel of packets is the list of what went through it:
-- a full one makes the sender wait, and nothing is dropped.
use ch58x_hal.Base.{ℕ, ◌+◌, ◌-◌, List, [], ◌∷◌, ◌++◌, length, ltb, not, if◌then◌else◌}
use ch58x_hal.Base.{Result, ok, err, u8, u16, u16_to_le, ◌>>>◌}
use ch58x_hal.Hci.{event_enabled}

abbrev pub hci_packet_capacity : ℕ
hci_packet_capacity = 64

-- `bt_hci::PacketKind`.
pub data PacketKind : Type 0 where
  cmd acl_data sync_data event_packet iso_data : PacketKind

pub record Packet : Type 0 where
  pub kind : PacketKind
  pub bytes : List ℕ

pub data TransportError : Type 0 where
  packet_too_large malformed_packet : TransportError

unfoldable pub from_bytes : PacketKind → List ℕ → Result Packet TransportError
from_bytes kind bytes =
    if ltb hci_packet_capacity (length bytes)
    then err packet_too_large
    else ok (record { kind = kind; bytes = bytes })

-- The static masks, and the packets that the host is sent, in order.
pub record Host : Type 0 where
  pub event_mask : ℕ
  pub le_event_mask : ℕ
  pub sent : List Packet

abbrev pub send_controller_packet : Packet → Host → Host
send_controller_packet packet h = record h { sent = h.sent ++ (packet ∷ []) }

unfoldable pub event : ℕ → List ℕ → Host → Host × Result (Unit {0}) TransportError
event event_code parameters h =
    if ltb (hci_packet_capacity - 2) (length parameters)
    then (h, err packet_too_large)
    else if not (event_enabled h.event_mask h.le_event_mask event_code parameters)
    then (h, ok tt)
    else (
      send_controller_packet
          (record { kind = event_packet; bytes = event_code ∷ u8 (length parameters) ∷ parameters })
          h,
      ok tt,
    )

-- The `unwrap` of a packet that fits; one that does not would stop the program.
abbrev unwrap_send : Result Packet TransportError → Host → Host
unwrap_send (ok packet) h = send_controller_packet packet h
unwrap_send (err e) h = h

unfoldable pub command_complete : ℕ → ℕ → List ℕ → Host → Host
unfolding from_bytes
command_complete opcode status return_data h =
    unwrap_send
      (from_bytes event_packet
        (0x0e ∷ u8 (4 + length return_data) ∷ 1 ∷ (u16_to_le opcode ++ (status ∷ return_data))))
      h

unfoldable pub command_status : ℕ → ℕ → Host → Host
unfolding from_bytes
command_status opcode status h =
    unwrap_send
      (from_bytes event_packet (0x0f ∷ 0x04 ∷ status ∷ 0x01 ∷ u8 opcode ∷ u8 (opcode >>> 8) ∷ [])) h

unfoldable pub send_acl : ℕ → List ℕ → Host → Host × Result (Unit {0}) TransportError
send_acl handle_and_flags payload h =
    if ltb hci_packet_capacity (length payload + 4) then (h, err packet_too_large) else (
      send_controller_packet
          (record {
            kind = acl_data;
            bytes = u16_to_le handle_and_flags ++ (u16_to_le (u16 (length payload)) ++ payload);
          })
          h,
      ok tt,
    )

unfoldable pub completed_acl : ℕ → ℕ → Host → Host
completed_acl handle count h = (event 0x13 (1 ∷ (u16_to_le handle ++ u16_to_le count)) h).0
