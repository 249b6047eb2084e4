-- ===== src/Radio/Dma.antt =====
-- The length policy of the DMA banks and their layout: crates/ch58x-ble/src/radio_dma_policy.rs,
-- radio_phy.rs and radio_rx_status.rs.
use ch58x_hal.Base.{
  ℕ, zero, suc, ◌+◌, ◌-◌, ◌≤◌, ◌<◌, ◌≡◌, ◌↔◌, ap, ◌∙◌, arith, Bool, true, false, ◌&&◌, ◌||◌, ◌*◌,
  ◌<<<◌, bit_and, u32,
}
use ch58x_hal.Base.{
  List, [], ◌∷◌, length, replicate, length-replicate, take, drop, ltb, ◌==◌, if◌then◌else◌,
}
use ch58x_hal.Advertising.Legacy.{write_at}
use ch58x_hal.Advertising.Slices.{take-write_at}

abbrev rf_dma_buffer_len : ℕ
rf_dma_buffer_len = 64

abbrev ll_header_len : ℕ
ll_header_len = 2

abbrev max_legacy_adv_wire_len : ℕ
max_legacy_adv_wire_len = ll_header_len + 37

abbrev max_data_wire_len : ℕ
max_data_wire_len = ll_header_len + 27

pub data ReceiveLengthPolicy : Type 0 where
  accepted : ℕ → ReceiveLengthPolicy
  physical_dma_overflow unsupported_capability : ReceiveLengthPolicy

unfoldable pub classify_received_length : Bool → ℕ → ReceiveLengthPolicy
classify_received_length advertising payload_len =
    let wire_len = ll_header_len + payload_len in
    if ltb rf_dma_buffer_len wire_len
    then physical_dma_overflow
    else if ltb (if advertising then max_legacy_adv_wire_len else max_data_wire_len) wire_len
    then unsupported_capability
    else accepted wire_len

unfoldable pub legacy_request_payload_len_is_valid : ℕ → ℕ → Bool
legacy_request_payload_len_is_valid pdu_type payload_len =
    (pdu_type == 0x03 && payload_len == 12) || (pdu_type == 0x05 && payload_len == 34)

-- The buffer afterwards; `buffer[..packet.len()]` panics on a longer packet.
unfoldable pub encode_transmit_buffer : List ℕ → List ℕ → List ℕ
encode_transmit_buffer buffer packet = write_at (replicate (length buffer) 0) 0 packet

-- The countdowns of CH585 on LE 1M; the packet has its header of two octets.
unfoldable pub tx_1m_countdown : ℕ → ℕ
tx_1m_countdown packet_len = ((u32 packet_len + 2) * 8 + 0xee) <<< 1

unfoldable pub rx_1m_capture_countdown : ℕ → ℕ
rx_1m_capture_countdown max_packet_len = ((u32 max_packet_len + 5) <<< 4) + 0x3c

unfoldable pub rx_to_tx_timing : ℕ → ℕ
rx_to_tx_timing received_len = 0x76

-- What the capture interrupt writes to clear its own bit of the status.
unfoldable pub capture_ack : ℕ → ℕ
capture_ack status = bit_and status (1 <<< 6)

abbrev most : Bool → ℕ
most advertising = if advertising then 37 else 27

-- A received packet is accepted exactly when its payload is within the capability of its kind, and is
-- an overflow exactly when it exceeds the bank; a legacy request of a valid length is accepted on the
-- advertising channels.
pub received_length_policy :
    (advertising : Bool) (payload_len : ℕ)
    → ((classify_received_length advertising payload_len ≡ accepted (payload_len + 2))
        ↔ (payload_len ≤ most advertising))
      × ((classify_received_length advertising payload_len ≡ physical_dma_overflow)
          ↔ (64 < payload_len + 2))
      × ((pdu_type : ℕ)
          → legacy_request_payload_len_is_valid pdu_type payload_len ≡ true
          → classify_received_length true payload_len ≡ accepted (payload_len + 2))
unfolding classify_received_length legacy_request_payload_len_is_valid
received_length_policy true payload_len = (
  ((λ h. ground arith), (λ h. ground arith)),
  ((λ h. ground arith), (λ h. ground arith)),
  (λ pdu_type h. ground arith),
)
received_length_policy false payload_len = (
  ((λ h. ground arith), (λ h. ground arith)),
  ((λ h. ground arith), (λ h. ground arith)),
  (λ pdu_type h. ground arith),
)

drop-write_at :
    (n : ℕ) (packet : List ℕ)
    → length packet ≤ n
    → drop (length packet) (write_at (replicate n 0) 0 packet) ≡ replicate (n - length packet) 0
drop-write_at zero [] le = ap (λ (k : ℕ). replicate k 0) {x = 0} {y = 0 - 0} (omega arith)
drop-write_at (suc n) [] le =
    ap (λ (k : ℕ). replicate k 0) {x = suc n} {y = suc n - 0} (omega arith)
drop-write_at zero (v ∷ vs) le = absurd (omega arith)
drop-write_at (suc n) (v ∷ vs) le =
    drop-write_at n vs (omega arith)
    ∙ ap (λ (k : ℕ). replicate k 0) {y = suc n - length (v ∷ vs)} (omega arith)

-- The bank holds the packet followed by zeros, whatever it held before, for a packet that fits it.
pub encode_transmit_buffer_layout :
    (buffer packet : List ℕ)
    → length packet ≤ length buffer
    → (take (length packet) (encode_transmit_buffer buffer packet) ≡ packet)
      × (drop (length packet) (encode_transmit_buffer buffer packet)
          ≡ replicate (length buffer - length packet) 0)
unfolding encode_transmit_buffer
encode_transmit_buffer_layout buffer packet le = (
  take-write_at (replicate (length buffer) 0) 0 packet (length packet) (omega arith)
      (omega (arith, length-replicate {A = ℕ} (length buffer) 0)),
  drop-write_at (length buffer) packet le,
)
