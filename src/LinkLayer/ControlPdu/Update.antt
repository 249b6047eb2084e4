-- ===== src/LinkLayer/ControlPdu/Update.antt =====
-- `LL_CONNECTION_UPDATE_IND`: what an accepted payload says.
use ch58x_hal.Base.{ℕ, ◌+◌, ◌*◌, ◌≤◌, ◌<◌, ◌≡◌, ◌↔◌, subst, sym, ap, ◌∙◌}
use ch58x_hal.Base.{arith, true, false, List, [], ◌∷◌, ◌++◌, length, at, All}
use ch58x_hal.Base.{u16_to_le, IsByte, ok}
use ch58x_hal.LinkLayer.Timing.{classify_instant, connection_timing_is_valid}
use ch58x_hal.LinkLayer.ControlPdu.Parameters.{u16_to_le_from_le}
use ch58x_hal.LinkLayer.ControlPdu.{
  ConnectionUpdateInd, update_fields, update_is_valid, parse_connection_update, is_passed,
}

-- The ranges of the Core specification.
pub record IsTiming (window_size window_offset interval latency supervision_timeout : ℕ)
    : Type 0 where
  pub window_pos : 1 ≤ window_size
  pub window_le : window_size ≤ 8
  pub window_lt : window_size < interval
  pub offset_le : window_offset ≤ interval
  pub interval_ge : 6 ≤ interval
  pub interval_le : interval ≤ 3200
  pub latency_le : latency ≤ 499
  pub timeout_ge : 10 ≤ supervision_timeout
  pub timeout_le : supervision_timeout ≤ 3200
  pub timeout_gt : 2 * (latency + 1) * interval < supervision_timeout * 8

-- The test of the timing fields decides the ranges, the product in the last included.
connection_timing_is_valid_iff :
    (w o i l t : ℕ) → (connection_timing_is_valid w o i l t ≡ true) ↔ IsTiming w o i l t
unfolding connection_timing_is_valid
connection_timing_is_valid_iff w o i l t = (there, back)
  where
    there : connection_timing_is_valid w o i l t ≡ true → IsTiming w o i l t
    there h = ground arith

    back : IsTiming w o i l t → connection_timing_is_valid w o i l t ≡ true
    back h = ground arith

-- The layout of the PDU.
pub encode : ConnectionUpdateInd → List ℕ
encode u =
    0x00
    ∷ (u.window_size
        ∷ (u16_to_le u.window_offset
            ++ (u16_to_le u.interval
                ++ (u16_to_le u.latency
                    ++ (u16_to_le u.supervision_timeout ++ u16_to_le u.instant)))))

encode-update_fields :
    (payload : List ℕ)
    → length payload ≡ 12
    → at payload 0 ≡ 0
    → All IsByte payload
    → encode (update_fields payload) ≡ payload
unfolding encode
encode-update_fields (o ∷ a ∷ b ∷ c ∷ d ∷ e ∷ f ∷ g ∷ h ∷ i ∷ j ∷ k ∷ []) l z bs = λ t.
    zero_opcode t
    ∷ (a
        ∷ (u16_to_le_from_le b c bs.1.1.0 bs.1.1.1.0 t
            ++ (u16_to_le_from_le d e bs.1.1.1.1.0 bs.1.1.1.1.1.0 t
                ++ (u16_to_le_from_le f g bs.1.1.1.1.1.1.0 bs.1.1.1.1.1.1.1.0 t
                    ++ (u16_to_le_from_le h i bs.1.1.1.1.1.1.1.1.0 bs.1.1.1.1.1.1.1.1.1.0 t
                        ++ u16_to_le_from_le j k bs.1.1.1.1.1.1.1.1.1.1.0 bs.1.1.1.1.1.1.1.1.1.1.1.0
                            t)))))
  where
    zero_opcode : 0x00 ≡ o
    zero_opcode = sym z
encode-update_fields _ l z bs = absurd (omega arith)

parse_inv :
    (payload : List ℕ) (event_counter : ℕ) (u : ConnectionUpdateInd)
    → parse_connection_update payload event_counter ≡ ok u
    → (length payload ≡ 12)
      × (at payload 0 ≡ 0)
      × (update_fields payload ≡ u)
      × (update_is_valid (update_fields payload) ≡ true)
      × (is_passed (classify_instant event_counter (update_fields payload).instant) ≡ false)
unfolding parse_connection_update
parse_inv payload event_counter u e = ground arith

-- A payload of octets that is accepted as a connection update is the encoding of the result; the
-- result's timing is in the ranges of the specification and its instant has not passed.
pub parse_connection_update_accepts :
    (payload : List ℕ) (event_counter : ℕ) (u : ConnectionUpdateInd)
    → All IsByte payload
    → parse_connection_update payload event_counter ≡ ok u
    → (encode u ≡ payload)
      × IsTiming u.window_size u.window_offset u.interval u.latency u.supervision_timeout
      × (is_passed (classify_instant event_counter u.instant) ≡ false)
unfolding update_is_valid
parse_connection_update_accepts payload event_counter u bs e =
    let inv = parse_inv payload event_counter u e in
    (
      ap encode (sym inv.2) ∙ encode-update_fields payload inv.0 inv.1 bs,
      subst
          (λ (v : ConnectionUpdateInd).
            IsTiming v.window_size v.window_offset v.interval v.latency v.supervision_timeout)
          inv.2
          ((connection_timing_is_valid_iff (update_fields payload).window_size
              (update_fields payload).window_offset (update_fields payload).interval
              (update_fields payload).latency (update_fields payload).supervision_timeout).0
            inv.3),
      subst
          (λ (v : ConnectionUpdateInd).
            is_passed (classify_instant event_counter v.instant) ≡ false)
          inv.2 inv.4,
    )
