-- ===== src/Backend/Emit.antt =====
-- The events that the link layer sends to the host:
-- crates/ch58x-ble/src/link_layer/hci.rs. `let _ =` drops the result of `event`.
use ch58x_hal.Base.{ℕ, List, [], ◌∷◌, ◌++◌, u16_to_le}
use ch58x_hal.Advertising.Connection.{ConnectInd}
use ch58x_hal.Base.{if◌then◌else◌}
use ch58x_hal.Backend.Transport.{Host, event}
use ch58x_hal.Backend.Connection.{ActiveConnection, hci_success}

-- Interval, latency and supervision timeout.
abbrev timing_octets : ConnectInd → List ℕ
timing_octets r = u16_to_le r.interval ++ (u16_to_le r.latency ++ u16_to_le r.supervision_timeout)

unfoldable pub emit_connection_complete : ActiveConnection → Host → Host
unfolding event
emit_connection_complete c h =
    (event 0x3e
      (0x01
        ∷ hci_success
        ∷ (u16_to_le c.handle
            ++ (0x01
                ∷ (if c.request.initiator_address_random then 1 else 0)
                ∷ (c.request.initiator_address
                    ++ (timing_octets c.request ++ (c.request.sleep_clock_accuracy ∷ []))))))
      h).0

unfoldable pub emit_disconnection : ActiveConnection → ℕ → Host → Host
unfolding event
emit_disconnection c reason h =
    (event 0x05 (hci_success ∷ (u16_to_le c.handle ++ (reason ∷ []))) h).0

abbrev pub update_parameters : ActiveConnection → ℕ → List ℕ
update_parameters c status = 0x03 ∷ status ∷ (u16_to_le c.handle ++ timing_octets c.request)

unfoldable pub emit_connection_update_result : ActiveConnection → ℕ → Host → Host
unfolding event
emit_connection_update_result c status h = (event 0x3e (update_parameters c status) h).0

unfoldable pub emit_connection_update_complete : ActiveConnection → Host → Host
unfolding emit_connection_update_result
emit_connection_update_complete c h = emit_connection_update_result c hci_success h
