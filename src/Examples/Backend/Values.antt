-- ===== src/Examples/Backend/Values.antt =====
-- A connection, its host and a radio.
use ch58x_hal.Base.{ℕ, ◌≡◌, refl, true, Option, some, [], ◌∷◌, ok}
use ch58x_hal.LinkLayer.ChannelSelection.{ChannelSelection1, used_table}
use ch58x_hal.LinkLayer.ChannelSelection
use ch58x_hal.LinkLayer.ControlPdu.{data_channel_map_is_valid}
use ch58x_hal.Llcp.Procedure
use ch58x_hal.Advertising.Connection.{ConnectInd}
use ch58x_hal.Backend.Transport.{Packet, acl_data, Host}
use ch58x_hal.Backend.Connection.{ActiveConnection, started, new_for}
use ch58x_hal.Backend.Event.{Radio, Exchange}

abbrev pub request : ConnectInd
request = record {
  initiator_address = 1 ∷ 2 ∷ 3 ∷ 4 ∷ 5 ∷ 0xc6 ∷ [];
  initiator_address_random = true;
  access_address = 0x50655d4a;
  crc_init = 0x123456;
  window_size = 2;
  window_offset = 3;
  interval = 24;
  latency = 0;
  supervision_timeout = 300;
  channel_map = 0xff ∷ 0xff ∷ 0xff ∷ 0xff ∷ 0x1f ∷ [];
  hop_increment = 7;
  sleep_clock_accuracy = 5;
}

abbrev pub channels : ChannelSelection1
channels = record {
  map = request.channel_map;
  used = (used_table request.channel_map).0;
  used_len = (used_table request.channel_map).1;
  hop = 7;
  last_unmapped = 0;
}

abbrev pub connection : ActiveConnection
connection = started 1 request 50_000 50_100 channels

pub connection_made : new_for 1 request 50_000 50_100 ≡ ok connection
unfolding new_for ChannelSelection.new data_channel_map_is_valid Procedure.new
connection_made = refl

abbrev pub host : Host
host = record { event_mask = 0x1fffffffffff; le_event_mask = 0x1f; sent = [] }

-- Two octets for the peer.
abbrev pub greeting : Packet
greeting = record { kind = acl_data; bytes = 0x01 ∷ 0x00 ∷ 0x02 ∷ 0x00 ∷ 0x68 ∷ 0x69 ∷ [] }

-- The peer answers with an Empty PDU of this header.
abbrev pub answer : ℕ → ℕ → Option Exchange
answer header at_us = some (record {
  transmitted = true;
  crc_ok = true;
  payload = header ∷ 0 ∷ [];
  rssi_dbm = 0xc4;
  timestamp_us = at_us;
})

abbrev pub answers : ℕ → ℕ → Radio
answers header at_us call = answer header at_us
