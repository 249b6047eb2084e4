-- ===== src/Advertising/Advertisement.antt =====
-- The advertising PDUs: what is built is read back.
use ch58x_hal.Base.{ℕ, zero, suc, ◌+◌, ◌-◌, ◌≤◌, ◌<◌, ◌≡◌, refl, sym, ap, ap₂, ◌∙◌}
use ch58x_hal.Base.{
  some, Option, arith, List, [], ◌∷◌, ◌++◌, length, at, take, set, u8, bit_and, bit_or, ◌<<<◌,
}
use ch58x_hal.Base.{length-set, length-take, ok, if◌then◌else◌}
use ch58x_hal.Base.Bits.Mask.{and-low}
use ch58x_hal.Advertising.Address.{AddressKind, public_kind, random_kind, is_random, DeviceAddress}
use ch58x_hal.Advertising.Legacy.{
  LegacyAdvertisement, pdu_layout, address_kind, parse_legacy_advertisement, write_at,
  AdvertisingData, as_bytes, advertising_pdu, build_adv_ind, build_scan_rsp, advertisement_at,
}
use ch58x_hal.Advertising.Slices.{length-write_at, take-write_at}
use ch58x_hal.Advertising.Data.{IsData}

two_started :
    (output : List ℕ) (a b : ℕ) → 2 ≤ length output → take 2 (set (set output 0 a) 1 b) ≡ a ∷ b ∷ []
two_started [] a b le = absurd (omega arith)
two_started (x ∷ []) a b le = absurd (omega arith)
two_started (x ∷ y ∷ xs) a b le = refl

length-as_bytes : (d : AdvertisingData) → IsData d → length (as_bytes d) ≡ d.len
unfolding as_bytes
length-as_bytes d h = omega (arith, length-take d.len d.bytes, h.size, h.len_le)

-- The octets of an advertising PDU.
advertising_pdu_octets :
    (header : ℕ) (address : DeviceAddress) (d : AdvertisingData) (output : List ℕ)
    → length address.bytes ≡ 6
    → IsData d
    → length output ≡ 39
    → advertising_pdu header address d output ≡ header ∷ (6 + d.len) ∷ (address.bytes ++ as_bytes d)
unfolding advertising_pdu
advertising_pdu_octets header address d output six h size =
    take-write_at (write_at started 2 address.bytes) 8 (as_bytes d) (2 + (6 + d.len))
      (omega (arith, length-as_bytes d h))
      (omega (arith, length-write_at started 2 address.bytes, started_size, h.len_le))
    ∙ ap (λ (xs : List ℕ). xs ++ as_bytes d)
        (take-write_at started 2 address.bytes 8 (omega (arith, six)) (omega (arith, started_size))
          ∙ ap (λ (xs : List ℕ). xs ++ address.bytes)
              (two_started output header (u8 (6 + d.len)) (omega (arith, size))))
    ∙ ap (λ (n : ℕ). header ∷ n ∷ (address.bytes ++ as_bytes d)) (omega (arith, h.len_le))
  where
    started : List ℕ
    started = set (set output 0 header) 1 (u8 (6 + d.len))

    started_size : length started ≡ 39
    started_size =
        length-set (set output 0 header) 1 (u8 (6 + d.len)) ∙ length-set output 0 header ∙ size

abbrev read : ℕ → DeviceAddress → List ℕ → LegacyAdvertisement
read event_type address ad_data = record {
  event_type = event_type;
  address = address;
  ad_data = ad_data;
}

take_all : (n : ℕ) (xs : List ℕ) → length xs ≡ n → take n xs ≡ xs
take_all zero [] e = refl
take_all zero (x ∷ xs) e = absurd (omega arith)
take_all (suc n) [] e = absurd (omega arith)
take_all (suc n) (x ∷ xs) e = ap (◌∷◌ x) (take_all n xs (omega arith))

low_six : (n : ℕ) → n < 64 → bit_and n 0x3f ≡ n
low_six n lt = and-low 6 n ∙ omega arith

parse_tests :
    (packet : List ℕ) (n : ℕ)
    → length packet ≡ n + 2
    → 6 ≤ n
    → n ≤ 37
    → bit_and (at packet 1) 0x3f ≡ n
    → parse_legacy_advertisement packet
      ≡ advertisement_at (pdu_layout (bit_and (at packet 0) 0x0f) n) packet n
unfolding parse_legacy_advertisement
parse_tests packet n size low high e = simp (e, size) (ground arith)

-- What is read from an undirected PDU of at most 31 octets of data.
parse_octets :
    (header event_type : ℕ) (kind : AddressKind) (bytes rest : List ℕ)
    → pdu_layout (bit_and header 0x0f) (6 + length rest) ≡ some (event_type, 8)
    → address_kind header ≡ kind
    → length bytes ≡ 6
    → length rest ≤ 31
    → parse_legacy_advertisement (header ∷ (6 + length rest) ∷ (bytes ++ rest))
      ≡ ok (read event_type (record { bytes = bytes; kind = kind }) rest)
parse_octets header event_type kind (a ∷ b ∷ c ∷ d ∷ e ∷ f ∷ []) rest layout k six le =
    parse_tests packet (6 + length rest) (omega arith) (omega arith) (omega arith)
      (low_six (6 + length rest) (omega arith))
    ∙ ap (λ (o : Option (ℕ × ℕ)). advertisement_at o packet (6 + length rest)) layout
    ∙ ap₂
        (λ (kd : AddressKind) (xs : List ℕ).
          ok (read event_type (record { bytes = a ∷ b ∷ c ∷ d ∷ e ∷ f ∷ []; kind = kd }) xs))
        k (take_all (6 + length rest + 2 - 8) rest (omega arith))
  where
    packet : List ℕ
    packet = header ∷ (6 + length rest) ∷ a ∷ b ∷ c ∷ d ∷ e ∷ f ∷ rest
parse_octets header event_type kind _ rest layout k six le = absurd (omega arith)

abbrev adv_ind_header : AddressKind → ℕ
adv_ind_header kind = if is_random kind then 1 <<< 6 else 0x00

abbrev scan_rsp_header : AddressKind → ℕ
scan_rsp_header kind = bit_or 0x04 (if is_random kind then 1 <<< 6 else 0)

adv_ind_layout :
    (kind : AddressKind) (n : ℕ) → pdu_layout (bit_and (adv_ind_header kind) 0x0f) n ≡ some (0, 8)
unfolding pdu_layout
adv_ind_layout public_kind n = refl
adv_ind_layout random_kind n = refl

adv_ind_kind : (kind : AddressKind) → address_kind (adv_ind_header kind) ≡ kind
adv_ind_kind public_kind = refl
adv_ind_kind random_kind = refl

scan_rsp_layout :
    (kind : AddressKind) (n : ℕ) → pdu_layout (bit_and (scan_rsp_header kind) 0x0f) n ≡ some (4, 8)
unfolding pdu_layout
scan_rsp_layout public_kind n = refl
scan_rsp_layout random_kind n = refl

scan_rsp_kind : (kind : AddressKind) → address_kind (scan_rsp_header kind) ≡ kind
scan_rsp_kind public_kind = refl
scan_rsp_kind random_kind = refl

module _ (address : DeviceAddress) (d : AdvertisingData) (output : List ℕ)
    (six : length address.bytes ≡ 6) (h : IsData d) (size : length output ≡ 39) where
  parse_built :
      (header event_type : ℕ)
      → pdu_layout (bit_and header 0x0f) (6 + length (as_bytes d)) ≡ some (event_type, 8)
      → address_kind header ≡ address.kind
      → parse_legacy_advertisement (advertising_pdu header address d output)
        ≡ ok (read event_type address (as_bytes d))
  parse_built header event_type layout k =
      ap parse_legacy_advertisement (
        advertising_pdu_octets header address d output six h size
        ∙ ap (λ (n : ℕ). header ∷ (6 + n) ∷ (address.bytes ++ as_bytes d))
            (sym (length-as_bytes d h)))
      ∙ parse_octets header event_type address.kind address.bytes (as_bytes d) layout k six
          (omega (arith, length-as_bytes d h, h.len_le))

  -- A built ADV_IND is read back as an ADV_IND, a built SCAN_RSP as a SCAN_RSP, with the same address,
  -- kind included, and the same data, for any address of six octets and any content of the output
  -- array.
  pub parse_legacy_advertisement-build :
      (parse_legacy_advertisement (build_adv_ind address d output)
        ≡ ok (record { event_type = 0; address = address; ad_data = as_bytes d }))
      × (parse_legacy_advertisement (build_scan_rsp address d output)
          ≡ ok (record { event_type = 4; address = address; ad_data = as_bytes d }))
  unfolding build_adv_ind build_scan_rsp
  parse_legacy_advertisement-build = (
    parse_built (adv_ind_header address.kind) 0
        (adv_ind_layout address.kind (6 + length (as_bytes d))) (adv_ind_kind address.kind),
    parse_built (scan_rsp_header address.kind) 4
        (scan_rsp_layout address.kind (6 + length (as_bytes d))) (scan_rsp_kind address.kind),
  )
