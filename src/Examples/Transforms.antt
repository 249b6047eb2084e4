-- ===== src/Examples/Transforms.antt =====
-- The CRC, the whitening and the radio's arithmetic on concrete values.
use ch58x_hal.Base.{ℕ, ◌+◌, ◌≤◌, ◌<◌, ◌≡◌, ◌↔◌, refl, arith, true}
use ch58x_hal.Base.{List, [], ◌∷◌}
use ch58x_hal.Phy.Crc.Burst.{crc24_detects_bursts}
use ch58x_hal.Phy.Whitening.{apply}
use ch58x_hal.Phy.Whitening.Core.{init, whiten_core, apply-whiten_core}
use ch58x_hal.Radio.Dma

crc24_detects_bursts_example : ◌≡◌ {A = List ℕ} (0x01 ∷ 0x02 ∷ []) (0x01 ∷ 0x02 ∷ [])
crc24_detects_bursts_example =
    crc24_detects_bursts (0x40 ∷ []) (0x01 ∷ 0x02 ∷ []) (0x01 ∷ 0x02 ∷ []) (0xaa ∷ []) 0x555555
      (omega arith, (omega arith, tt)) (omega arith, (omega arith, tt)) refl (omega arith) refl

apply-whiten_core_example : apply 23 (0x12 ∷ 0x34 ∷ []) ≡ whiten_core (init 23) (0x12 ∷ 0x34 ∷ [])
apply-whiten_core_example = apply-whiten_core 23 (0x12 ∷ 0x34 ∷ [])

received_length_policy_example :
    ((Dma.classify_received_length true 34 ≡ Dma.accepted (34 + 2)) ↔ (34 ≤ 37))
    × ((Dma.classify_received_length true 34 ≡ Dma.physical_dma_overflow) ↔ (64 < 34 + 2))
    × ((pdu_type : ℕ)
        → Dma.legacy_request_payload_len_is_valid pdu_type 34 ≡ true
        → Dma.classify_received_length true 34 ≡ Dma.accepted (34 + 2))
received_length_policy_example = Dma.received_length_policy true 34

-- The register values that the tests of the driver name.
hardware_vectors :
    (Dma.capture_ack 0x60 ≡ 0x40)
    × (Dma.capture_ack 0x20 ≡ 0)
    × (Dma.tx_1m_countdown 31 ≡ 1_004)
    × (Dma.rx_1m_capture_countdown 37 ≡ 0x2dc)
    × (Dma.rx_1m_capture_countdown 27 ≡ 0x23c)
    × (Dma.rx_to_tx_timing 27 ≡ 0x76)
unfolding Dma.capture_ack Dma.tx_1m_countdown Dma.rx_1m_capture_countdown Dma.rx_to_tx_timing
hardware_vectors = (refl, refl, refl, refl, refl, refl)
