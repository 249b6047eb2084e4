-- ===== src/Backend/Advertise/Connecting.antt =====
-- A connection that an advertising event starts.
use ch58x_hal.Base.{ℕ, ◌≤◌, ◌≡◌, refl, subst}
use ch58x_hal.Base.{arith, Bool, true, false, not, ◌||◌, Option, none, some, List, [], ◌∷◌}
use ch58x_hal.Base.{Result, ok, err, if_both}
use ch58x_hal.LinkLayer.Timing.{connection_timing_is_valid}
use ch58x_hal.LinkLayer.ChannelSelection.{ChannelSelection1}
use ch58x_hal.LinkLayer.ChannelSelection
use ch58x_hal.Advertising.Address.{DeviceAddress}
use ch58x_hal.Advertising.Legacy.{is_scan_request}
use ch58x_hal.Advertising.Connection.{
  ConnectInd, ConnectIndParseError, timing_of, parse_connect_ind_detailed,
}
use ch58x_hal.Radio.{Error}
use ch58x_hal.Backend.Transport.{Host}
use ch58x_hal.Backend.Connection.{new_for, new, with_channels, connection_handle}
use ch58x_hal.Backend.Schedule.Skipping.{IsScheduled}
use ch58x_hal.Backend.Commands.{Runner}
use ch58x_hal.Backend.Run.{Link}
use ch58x_hal.Backend.Advertise.{
  Listener, Received, Outcome, next_slot, finished, connected, begin_connection, created, parsed,
  is_connect_ind, on_advertising_packet, call_of, slot_after, advertise_on, slots_of,
  advertising_event,
}

accepted_timing :
    (packet : List ℕ) (address : DeviceAddress) (request : ConnectInd)
    → parse_connect_ind_detailed packet address ≡ ok request
    → timing_of request ≡ true
unfolding parse_connect_ind_detailed
accepted_timing packet address request e = ground arith

interval_ge : (request : ConnectInd) → timing_of request ≡ true → 6 ≤ request.interval
unfolding timing_of connection_timing_is_valid
interval_ge request v = ground arith

-- What holds of a connection that has just started.
pub record IsStarted {Random : Type 0} (l : Link Random) : Type 0 where
  pub quiet : l.runner.advertiser.enabled ≡ false
  pub address : l.runner.access_address ≡ l.connection.request.access_address
  pub crc : l.runner.crc_init ≡ l.connection.request.crc_init
  pub timing : timing_of l.connection.request ≡ true
  pub scheduled : IsScheduled l.connection

module _ {Random : Type 0} where
  abbrev Starts : Outcome Random → Type 0
  Starts (connected l) = IsStarted l
  Starts finished = Unit {0}
  Starts next_slot = Unit {0}

  created-Starts :
      (r : Runner Random) (h : Host) (request : ConnectInd) (end_us now : ℕ)
      (channels : Result ChannelSelection1 Error)
      → ChannelSelection.new request.channel_map request.hop_increment ≡ channels
      → timing_of request ≡ true
      → Starts (created r h (with_channels connection_handle request end_us now channels))
  unfolding begin_connection ChannelSelection.new
  created-Starts r h request end_us now (err e) same v = tt
  created-Starts r h request end_us now (ok channels) same v = record {
    quiet = refl;
    address = refl;
    crc = refl;
    timing = v;
    scheduled = record {
      interval = interval_ge request v;
      update = refl;
      map = refl;
      phase = ground (arith, same);
    };
  }

  parsed-Starts :
      (r : Runner Random) (h : Host) (end_us now : ℕ) (p : Result ConnectInd ConnectIndParseError)
      → ((request : ConnectInd) → p ≡ ok request → timing_of request ≡ true)
      → Starts (parsed r h end_us now p)
  unfolding new new_for
  parsed-Starts r h end_us now (err e) v = tt
  parsed-Starts r h end_us now (ok request) v =
      created-Starts r h request end_us now
        (ChannelSelection.new request.channel_map request.hop_increment) refl (v request refl)

  packet-Starts :
      (received : Option Received) (now : ℕ) (r : Runner Random) (h : Host)
      → Starts (on_advertising_packet received now r h)
  unfolding on_advertising_packet
  packet-Starts none now r h = tt
  packet-Starts (some received) now r h =
      if_both Starts (is_scan_request received.payload r.advertiser.address) tt (
        if_both Starts (not (is_connect_ind received.payload)) tt (
          if_both Starts (not received.crc_ok) tt (
            parsed-Starts r h received.timestamp_us now
              (parse_connect_ind_detailed received.payload r.advertiser.address)
              (accepted_timing received.payload r.advertiser.address))))

  after-Starts : (o rest : Outcome Random) → Starts o → Starts rest → Starts (slot_after o rest)
  after-Starts next_slot rest s t = t
  after-Starts finished rest s t = tt
  after-Starts (connected l) rest s t = s

  advertise_on-Starts :
      (slots : List (ℕ × Bool)) (radio : Listener) (now : ℕ) (r : Runner Random) (h : Host)
      → Starts (advertise_on slots radio now r h)
  unfolding advertise_on
  advertise_on-Starts [] radio now r h = tt
  advertise_on-Starts ((channel, on) ∷ slots) radio now r h =
      if_both Starts (not on || not r.advertiser.enabled) (advertise_on-Starts slots radio now r h)
        (after-Starts (on_advertising_packet (radio (call_of r channel)) now r h)
          (advertise_on slots radio now r h) (packet-Starts (radio (call_of r channel)) now r h)
          (advertise_on-Starts slots radio now r h))

  -- If an advertising event starts a connection, advertising is off, the radio uses the access
  -- address and the CRC value of the connection, whose timing is valid; and its schedule satisfies
  -- what the handling of missed events needs.
  pub advertising_event_connects :
      (radio : Listener) (now : ℕ) (r : Runner Random) (h : Host) (l : Link Random)
      → advertising_event radio now r h ≡ connected l
      → IsStarted l
  unfolding advertising_event
  advertising_event_connects radio now r h l e =
      subst Starts e (advertise_on-Starts (slots_of r.advertiser.channels) radio now r h)
