-- ===== src/LinkLayer/ControlPdu/Parameters.antt =====
-- `ConnectionParamPdu`: what is written is read back, and what is read would be written the same.
use ch58x_hal.Base.{ℕ, zero, suc, ◌*◌, ◌^◌, ◌<◌, ◌≡◌, refl, sym, ap, ap₂, ◌∙◌}
use ch58x_hal.Base.{arith, List, [], ◌∷◌, ◌++◌, length, at, take, drop, All}
use ch58x_hal.Base.{
  if◌then◌else◌, ==_refl, u16_from_le, u16_to_le, u16_from_le_to_le, IsByte, Result, ok, err,
}
use ch58x_hal.LinkLayer.ControlPdu.{
  ConnectionParamPdu, ControlPduError, invalid_parameters, parameters_are_valid, chunks,
  param_fields, parse_param, write_offsets, write,
}

abbrev pub IsU16 : ℕ → Type 0
IsU16 n = n < 2 ^ 16

-- Every field fits its type, and there are six offsets.
pub record Fits (p : ConnectionParamPdu) : Type 0 where
  pub interval_min : IsU16 p.interval_min
  pub interval_max : IsU16 p.interval_max
  pub latency : IsU16 p.latency
  pub supervision_timeout : IsU16 p.supervision_timeout
  pub preferred_periodicity : IsByte p.preferred_periodicity
  pub reference_event_count : IsU16 p.reference_event_count
  pub offsets : All IsU16 p.offsets
  pub six : length p.offsets ≡ 6

chunks-write_offsets :
    (offsets : List ℕ) → All IsU16 offsets → chunks (write_offsets offsets) ≡ offsets
chunks-write_offsets [] h = refl
chunks-write_offsets (o ∷ os) h = ap₂ ◌∷◌ (u16_from_le_to_le o h.0) (chunks-write_offsets os h.1)

length-write_offsets : (offsets : List ℕ) → length (write_offsets offsets) ≡ 2 * length offsets
length-write_offsets [] = omega arith
length-write_offsets (o ∷ os) = omega (arith, length-write_offsets os)

take_all {ℓ} : {A : Type ℓ} (n : ℕ) (xs : List A) → length xs ≡ n → take n xs ≡ xs
take_all zero [] h = refl
take_all (suc n) [] h = refl
take_all zero (x ∷ xs) h = absurd (omega arith)
take_all (suc n) (x ∷ xs) h = ap (◌∷◌ x) (take_all n xs (omega arith))

module _ (p : ConnectionParamPdu) (opcode : ℕ) (f : Fits p) where
  length-write : length (write p opcode) ≡ 24
  unfolding write
  length-write = omega (arith, length-write_offsets p.offsets, f.six)

  offsets_read : chunks (take 12 (drop 12 (write p opcode))) ≡ p.offsets
  unfolding write
  offsets_read =
      ap chunks (
        take_all 12 (write_offsets p.offsets)
          (omega (arith, length-write_offsets p.offsets, f.six)))
      ∙ chunks-write_offsets p.offsets f.offsets

  param_fields-write : param_fields (write p opcode) ≡ p
  unfolding write
  param_fields-write = λ i. record {
    interval_min = u16_from_le_to_le p.interval_min f.interval_min i;
    interval_max = u16_from_le_to_le p.interval_max f.interval_max i;
    latency = u16_from_le_to_le p.latency f.latency i;
    supervision_timeout = u16_from_le_to_le p.supervision_timeout f.supervision_timeout i;
    preferred_periodicity = p.preferred_periodicity;
    reference_event_count = u16_from_le_to_le p.reference_event_count f.reference_event_count i;
    offsets = offsets_read i;
  }

abbrev checked : ConnectionParamPdu → ℕ → Result ConnectionParamPdu ControlPduError
checked p event_counter =
    if parameters_are_valid p event_counter then ok p else err invalid_parameters

parse_param-checked :
    (payload : List ℕ) (opcode event_counter : ℕ)
    → length payload ≡ 24
    → at payload 0 ≡ opcode
    → parse_param payload opcode event_counter ≡ checked (param_fields payload) event_counter
unfolding parse_param
parse_param-checked payload opcode event_counter h k = simp (h, k, ==_refl)

-- Reading a parameter PDU that `write` has made gives back the parameters if they are valid, and
-- rejects them if they are not.
pub parse_param-write :
    (p : ConnectionParamPdu) (opcode event_counter : ℕ)
    → Fits p
    → parse_param (write p opcode) opcode event_counter
      ≡ (if parameters_are_valid p event_counter then ok p else err invalid_parameters)
parse_param-write p opcode event_counter f =
    parse_param-checked (write p opcode) opcode event_counter (length-write p opcode f)
      (unfold write in refl)
    ∙ ap (λ (q : ConnectionParamPdu). checked q event_counter) (param_fields-write p opcode f)

pub u16_to_le_from_le : (a b : ℕ) → IsByte a → IsByte b → u16_to_le (u16_from_le a b) ≡ a ∷ b ∷ []
u16_to_le_from_le a b p q = ap₂ (λ (x y : ℕ). x ∷ y ∷ []) (omega arith) (omega arith)

write_offsets-chunks :
    (n : ℕ) (xs : List ℕ) → length xs ≡ 2 * n → All IsByte xs → write_offsets (chunks xs) ≡ xs
write_offsets-chunks n [] h b = refl
write_offsets-chunks n (x ∷ []) h b = absurd (omega arith)
write_offsets-chunks zero (x ∷ y ∷ xs) h b = absurd (omega arith)
write_offsets-chunks (suc n) (x ∷ y ∷ xs) h b =
    ap₂ ◌++◌ (u16_to_le_from_le x y b.0 b.1.0) (write_offsets-chunks n xs (omega arith) b.1.1)

write-param_fields :
    (payload : List ℕ)
    → length payload ≡ 24
    → All IsByte payload
    → write (param_fields payload) (at payload 0) ≡ payload
unfolding write
write-param_fields (o ∷ a ∷ b ∷ c ∷ d ∷ e ∷ f ∷ g ∷ h ∷ i ∷ j ∷ k ∷ rest) l bs = λ t.
    o
    ∷ (u16_to_le_from_le a b bs.1.0 bs.1.1.0 t
        ++ (u16_to_le_from_le c d bs.1.1.1.0 bs.1.1.1.1.0 t
            ++ (u16_to_le_from_le e f bs.1.1.1.1.1.0 bs.1.1.1.1.1.1.0 t
                ++ (u16_to_le_from_le g h bs.1.1.1.1.1.1.1.0 bs.1.1.1.1.1.1.1.1.0 t
                    ++ (i
                        ∷ (u16_to_le_from_le j k bs.1.1.1.1.1.1.1.1.1.1.0 bs.1.1.1.1.1.1.1.1.1.1.1.0
                              t
                            ++ last t))))))
  where
    last : write_offsets (chunks (take 12 rest)) ≡ rest
    last =
        ap (λ (xs : List ℕ). write_offsets (chunks xs)) (take_all 12 rest (omega arith))
        ∙ write_offsets-chunks 6 rest (omega arith) bs.1.1.1.1.1.1.1.1.1.1.1.1
write-param_fields _ l bs = absurd (omega arith)

parse_param_inv :
    (payload : List ℕ) (opcode event_counter : ℕ) (p : ConnectionParamPdu)
    → parse_param payload opcode event_counter ≡ ok p
    → (length payload ≡ 24) × (at payload 0 ≡ opcode) × (param_fields payload ≡ p)
unfolding parse_param
parse_param_inv payload opcode event_counter p e = ground arith

-- A payload of octets that is accepted is what `write` makes of the result.
pub write-parse_param :
    (payload : List ℕ) (opcode event_counter : ℕ) (p : ConnectionParamPdu)
    → All IsByte payload
    → parse_param payload opcode event_counter ≡ ok p
    → write p opcode ≡ payload
write-parse_param payload opcode event_counter p b e =
    let inv = parse_param_inv payload opcode event_counter p e in
    ap₂ write (sym inv.2) (sym inv.1) ∙ write-param_fields payload inv.0 b
