-- ===== src/Examples/Backend/Traffic.antt =====
-- A packet of the host on its way to the peer.
use ch58x_hal.Base.{
  ℕ, ◌+◌, ◌≡◌, ◌⊎◌, refl, true, false, Option, none, some, List, [], ◌∷◌, err, is_some,
}
use ch58x_hal.LinkLayer.Sequence.{acknowledges_transmit_owner}
use ch58x_hal.LinkLayer.ChannelSelection
use ch58x_hal.Radio
use ch58x_hal.Llcp.Procedure
use ch58x_hal.Llcp.Timers.{on_connection_event}
use ch58x_hal.Hci.{event_enabled}
use ch58x_hal.Backend.Transport.{Packet, event_packet, completed_acl, event}
use ch58x_hal.Backend.Connection.{ActiveConnection, PendingData, acl, no_pdu}
use ch58x_hal.Backend.Schedule.{
  next_channel, receive_close, take_receive_timeout, synchronize, apply_instants, apply_channel_map,
  apply_connection_update, window_widening_us,
}
use ch58x_hal.LinkLayer.Timing
use ch58x_hal.Backend.Queue.{queue_acl, acl_data_of, refresh_transmit_sequence_header}
use ch58x_hal.Backend.Control.{promote_priority_control_if_idle, local_procedure_active}
use ch58x_hal.Backend.Frame.{
  select_transmitted, ensure_frame, build_transmit_frame, refresh_frame, release_transmitted,
  settle_transmit,
}
use ch58x_hal.Backend.Event.{
  connection_event, stage, apply_and_tell, note_transmitted, sent_terminate, acknowledge, accept,
  on_packet, on_payload,
}
use ch58x_hal.Backend.Acl.Heard.{is_acknowledged}
use ch58x_hal.Backend.Acl.Queueing.{IsQueue, Placed, is_acl_packet, refusal, queue_acl_placed}
use ch58x_hal.Backend.Acl.Eventful.{Waits, Releases}
use ch58x_hal.Backend.Acl.Staging.{IsSending}
use ch58x_hal.Backend.Acl.Event.{MayEnd, connection_event_goes}
use ch58x_hal.Backend.Acl.Session.{Action, submit, hold, Session}
use ch58x_hal.Examples.Backend.Values.{channels, connection, host, greeting, answer}

abbrev clock : ℕ → ℕ
clock k = 90_000 + k

abbrev opening : Session
opening = record { connection = connection; host = host; taken = []; confirmed = [] }

abbrev greeting_data : PendingData
greeting_data = record { bytes = 0x68 ∷ 0x69 ∷ []; llid = 2; owner_token = 1 }

-- The event that returns the credit.
abbrev credit : Packet
credit = record { kind = event_packet; bytes = 0x13 ∷ 5 ∷ 1 ∷ 0x01 ∷ 0x00 ∷ 0x01 ∷ 0x00 ∷ [] }

-- The packet is queued, sent in the first event and acknowledged in the second.
abbrev second : Action
second = hold (answer 0x0d 120_000) clock

abbrev events : List Action
events = hold (answer 0x01 90_000) clock ∷ second ∷ []

abbrev actions : List Action
actions = submit greeting ∷ events

-- Queued.
abbrev queued : Session
queued = record opening {
  connection = record connection { pending = some greeting_data; next_acl_owner_token = 2 };
  taken = greeting_data ∷ [];
}

-- Sent.
abbrev sent : Session
sent = record queued {
  connection = record queued.connection {
    channels = record channels { last_unmapped = 7 };
    next_anchor = 119_920;
    last_sync_anchor = 89_920;
    receive_window_size_us = 0;
    event_counter = 1;
    supervision_deadline = 3_090_001;
    expected_sn = 1;
    transmitted = acl;
    tx_frame = 0x02 ∷ 0x02 ∷ 0x68 ∷ 0x69 ∷ [];
    last_rssi = 0xc4;
  };
}

-- Acknowledged.
abbrev closing : Session
closing = record sent {
  connection = record sent.connection {
    channels = record channels { last_unmapped = 14 };
    next_anchor = 149_920;
    last_sync_anchor = 119_920;
    event_counter = 2;
    transmit_sn = 1;
    expected_sn = 0;
    pending = none;
    transmitted = no_pdu;
    tx_frame = [];
  };
  host = record host { sent = credit ∷ [] };
  confirmed = greeting_data ∷ [];
}

-- The connection at the end of the second event.
abbrev second_end : ActiveConnection
second_end = record closing.connection { next_anchor = 119_920; event_counter = 1 }

second_event :
    connection_event (λ call. answer 0x0d 120_000) clock sent.connection host
    ≡ some (second_end, closing.host, none)
unfolding connection_event apply_and_tell apply_instants apply_channel_map apply_connection_update
    on_connection_event next_channel receive_close take_receive_timeout stage
    promote_priority_control_if_idle select_transmitted ensure_frame build_transmit_frame
    refresh_frame refresh_transmit_sequence_header note_transmitted sent_terminate
    local_procedure_active on_payload on_packet acknowledges_transmit_owner acknowledge accept
    release_transmitted settle_transmit completed_acl event synchronize window_widening_us
    Timing.window_widening_us ChannelSelection.next_channel event_enabled Procedure.new Radio.new
second_event = refl

sent-IsSending : IsSending sent.connection
sent-IsSending = record { frame = refl; carrying = refl }

abbrev no_reason : Option ℕ
no_reason = none

connection_event_goes_example :
    ((Waits sent.connection host second_end closing.host
        × ((is_acknowledged sent.connection (answer 0x0d 120_000) ≡ false)
            ⊎ ((is_some no_reason ≡ true)
                × MayEnd sent.connection (apply_and_tell sent.connection (clock 0) host).2)))
      ⊎ (Releases sent.connection host second_end closing.host
          × (is_acknowledged sent.connection (answer 0x0d 120_000) ≡ true)))
    × (IsSending second_end ⊎ (is_some no_reason ≡ true))
connection_event_goes_example =
    connection_event_goes (answer 0x0d 120_000) clock sent.connection second_end host closing.host
      no_reason sent-IsSending second_event

connection-IsQueue : IsQueue connection
connection-IsQueue = record { packed_slots = refl; four = refl }

queue_acl_placed_example :
    ((is_acl_packet connection greeting ≡ true)
      × Placed connection (acl_data_of connection greeting) (queue_acl connection greeting))
    ⊎ ((is_acl_packet connection greeting ≡ false)
        × (queue_acl connection greeting ≡ (connection, err (refusal greeting))))
queue_acl_placed_example = queue_acl_placed connection greeting connection-IsQueue
