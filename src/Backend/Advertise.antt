-- ===== src/Backend/Advertise.antt =====
-- An advertising event: `advertising_event` of crates/ch58x-ble/src/link_layer.rs, up to the loop of the
-- connection that it may start, and what follows that loop.
pub mod Connecting
use ch58x_hal.Base.{
  ℕ, ◌+◌, Bool, true, false, not, ◌&&◌, ◌||◌, Option, none, some, List, [], ◌∷◌, at, replicate,
}
use ch58x_hal.Base.{◌==◌, if◌then◌else◌, bit_and, Result, ok, err}
use ch58x_hal.LinkLayer.AccessAddress.{adv_access_address}
use ch58x_hal.Advertising.Address.{max_legacy_adv_pdu_len}
use ch58x_hal.Advertising.Legacy.{build_adv_ind, build_scan_rsp, is_scan_request}
use ch58x_hal.Advertising.Connection.{ConnectInd, ConnectIndParseError, parse_connect_ind_detailed}
use ch58x_hal.Radio.{Error}
use ch58x_hal.Backend.Transport.{PacketKind, cmd, Packet, Host}
use ch58x_hal.Backend.Connection.{ActiveConnection, new}
use ch58x_hal.Backend.Emit.{emit_connection_complete}
use ch58x_hal.Backend.Commands.{Advertiser, Runner, adv_crc_init, handle_command}
use ch58x_hal.Backend.Run.{Link}

-- The arguments of `Radio::advertising_exchange`.
pub record AdvertisingCall : Type 0 where
  pub channel : ℕ
  pub timeout_us : ℕ
  pub pdu : List ℕ
  pub scan_response : List ℕ
  pub address : List ℕ

pub record Received : Type 0 where
  pub payload : List ℕ
  pub crc_ok : Bool
  pub timestamp_us : ℕ

abbrev pub Listener : Type 0
Listener = AdvertisingCall → Option Received

-- What wakes the runner while no connection is up.
pub data IdleWake : Type 0 where
  host_sent : Packet → IdleWake
  interval_over : Listener → ℕ → IdleWake

-- What follows a channel: the next one, the end of the event, or a connection.
pub data Outcome (Random : Type 0) : Type 0 where
  next_slot finished : Outcome Random
  connected : Link Random → Outcome Random

abbrev pub is_connect_ind : List ℕ → Bool
is_connect_ind [] = false
is_connect_ind (header ∷ rest) = bit_and header 0x0f == 0x05

abbrev pub slots_of : List Bool → List (ℕ × Bool)
slots_of (a ∷ b ∷ c ∷ rest) = (37, a) ∷ (38, b) ∷ (39, c) ∷ []
slots_of _ = []

-- The runner after a turn of `run`, or the connection that the turn starts.
abbrev pub Idle : Type 0 → Type 0
Idle Random = Runner Random × Host × Outcome Random

module _ {Random : Type 0} where
  unfoldable pub begin_connection : Runner Random → ActiveConnection → Host → Link Random
  unfolding emit_connection_complete
  begin_connection r c h = record {
    runner = record r {
      access_address = c.request.access_address;
      crc_init = c.request.crc_init;
      advertiser = record r.advertiser { enabled = false };
    };
    connection = c;
    host = emit_connection_complete c h;
  }

  -- What follows `run_connection`.
  unfoldable pub end_connection : Link Random → Runner Random
  end_connection l = record l.runner {
    access_address = adv_access_address;
    crc_init = adv_crc_init;
  }

  abbrev pub created : Runner Random → Host → Result ActiveConnection Error → Outcome Random
  created r h (ok c) = connected (begin_connection r c h)
  created r h (err e) = finished

  abbrev pub parsed :
      Runner Random → Host → ℕ → ℕ → Result ConnectInd ConnectIndParseError → Outcome Random
  parsed r h end_us now (ok request) = created r h (new request end_us now)
  parsed r h end_us now (err e) = next_slot

  -- `now` is the clock's reading in `ActiveConnection::new`.
  unfoldable pub on_advertising_packet : Option Received → ℕ → Runner Random → Host → Outcome Random
  unfolding is_scan_request parse_connect_ind_detailed new begin_connection
  on_advertising_packet none now r h = next_slot
  on_advertising_packet (some received) now r h =
      if is_scan_request received.payload r.advertiser.address
      then next_slot
      else if not (is_connect_ind received.payload)
      then next_slot
      else if not received.crc_ok
      then next_slot
      else parsed r h received.timestamp_us now
          (parse_connect_ind_detailed received.payload r.advertiser.address)

  abbrev pub call_of : Runner Random → ℕ → AdvertisingCall
  call_of r channel = record {
    channel = channel;
    timeout_us = 500;
    pdu =
        build_adv_ind r.advertiser.address r.advertiser.ad_data
          (replicate max_legacy_adv_pdu_len 0);
    scan_response =
        build_scan_rsp r.advertiser.address r.advertiser.scan_response
          (replicate max_legacy_adv_pdu_len 0);
    address = r.advertiser.address.bytes;
  }

  abbrev pub slot_after : Outcome Random → Outcome Random → Outcome Random
  slot_after next_slot rest = rest
  slot_after finished rest = finished
  slot_after (connected l) rest = connected l

  -- The loop over the channels with their flags.
  unfoldable pub advertise_on :
      List (ℕ × Bool) → Listener → ℕ → Runner Random → Host → Outcome Random
  unfolding on_advertising_packet build_adv_ind build_scan_rsp
  advertise_on [] radio now r h = finished
  advertise_on ((channel, on) ∷ slots) radio now r h =
      let rest = advertise_on slots radio now r h in
      if not on || not r.advertiser.enabled
      then rest
      else slot_after (on_advertising_packet (radio (call_of r channel)) now r h) rest

  unfoldable pub advertising_event : Listener → ℕ → Runner Random → Host → Outcome Random
  unfolding advertise_on
  advertising_event radio now r h = advertise_on (slots_of r.advertiser.channels) radio now r h

  abbrev packet_of :
      (Random → Random × List ℕ) → PacketKind → List ℕ → Runner Random → Host → Runner Random × Host
  packet_of fill_bytes cmd bytes r h = handle_command fill_bytes false bytes r h
  packet_of fill_bytes _ bytes r h = (r, h)

  -- An ACL packet is dropped while no connection is up.
  unfoldable pub handle_host_packet :
      (Random → Random × List ℕ) → Packet → Runner Random → Host → Runner Random × Host
  unfolding handle_command
  handle_host_packet fill_bytes packet r h = packet_of fill_bytes packet.kind packet.bytes r h

  -- The interval runs only while advertising is on.
  unfoldable pub idle_turn :
      (Random → Random × List ℕ) → IdleWake → Runner Random → Host → Idle Random
  unfolding handle_host_packet advertising_event
  idle_turn fill_bytes (host_sent packet) r h =
      let (r', h') = handle_host_packet fill_bytes packet r h in (r', h', finished)
  idle_turn fill_bytes (interval_over radio now) r h =
      (r, h, (if r.advertiser.enabled then advertising_event radio now r h else finished))
