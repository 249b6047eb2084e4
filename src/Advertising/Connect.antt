-- ===== src/Advertising/Connect.antt =====
-- `CONNECT_IND`: what is built is read back.
use ch58x_hal.Base.{ℕ, ◌+◌, ◌*◌, ◌/◌, ◌%◌, ◌^◌, ◌≤◌, ◌<◌, ◌≡◌, refl, sym, ap, ◌∙◌}
use ch58x_hal.Base.{
  some, arith, Bool, true, false, List, [], ◌∷◌, ◌++◌, length, u8, bit_and, bit_or, ◌<<<◌, ◌>>>◌,
}
use ch58x_hal.Base.{replicate, bytes_eq, bytes_eq_refl, bytes_eq_sound, ok, if◌then◌else◌}
use ch58x_hal.Base.{u16_to_le, u32_to_le, u32_from_le, u16_from_le_to_le, has_bits}
use ch58x_hal.Base.Bits.Mask.{and-low, or_above}
use ch58x_hal.LinkLayer.ControlPdu.{data_channel_map_is_valid}
use ch58x_hal.LinkLayer.AccessAddress.{data_access_address_is_valid}
use ch58x_hal.Advertising.Address.{AddressKind, public_kind, random_kind, is_random, DeviceAddress}
use ch58x_hal.Advertising.Connection.{
  ConnectInd, timing_of, may_be_built, connect_ind_pdu, build_connect_ind, connect_ind_fields,
  checked_fields, parse_connect_ind_detailed, parse_connect_ind, without_detail, bool_eq,
}

-- The fields fit their types, and the initial CRC its three octets.
pub record Fits (c : ConnectInd) : Type 0 where
  pub access_address : c.access_address < 2 ^ 32
  pub crc_init : c.crc_init < 2 ^ 24
  pub window_offset : c.window_offset < 2 ^ 16
  pub interval : c.interval < 2 ^ 16
  pub latency : c.latency < 2 ^ 16
  pub supervision_timeout : c.supervision_timeout < 2 ^ 16
  pub channel_map : length c.channel_map ≡ 5

abbrev header_of : AddressKind → AddressKind → ℕ
header_of initiator advertiser =
    bit_or (bit_or 0x05 (if is_random initiator then 1 <<< 6 else 0))
      (if is_random advertiser then 1 <<< 7 else 0)

-- The payload, octet by octet.
abbrev payload_of : List ℕ → List ℕ → ConnectInd → List ℕ
payload_of initiator advertiser c =
    initiator
    ++ (advertiser
        ++ (u32_to_le c.access_address
            ++ (u8 c.crc_init
                ∷ u8 (c.crc_init >>> 8)
                ∷ u8 (c.crc_init >>> 16)
                ∷ c.window_size
                ∷ (u16_to_le c.window_offset
                    ++ (u16_to_le c.interval
                        ++ (u16_to_le c.latency
                            ++ (u16_to_le c.supervision_timeout
                                ++ (c.channel_map
                                    ++ (bit_or c.hop_increment (u8 (c.sleep_clock_accuracy <<< 5))
                                        ∷ [])))))))))

abbrev address : List ℕ → AddressKind → DeviceAddress
address bytes kind = record { bytes = bytes; kind = kind }

connect_ind_pdu_octets :
    (ib ab cm : List ℕ) (ik ak : AddressKind) (c : ConnectInd)
    → length ib ≡ 6
    → length ab ≡ 6
    → length cm ≡ 5
    → connect_ind_pdu
        (address ib ik)
        (address ab ak)
        (record c { channel_map = cm })
        (replicate 36 0)
      ≡ header_of ik ak ∷ 34 ∷ payload_of ib ab (record c { channel_map = cm })
unfolding connect_ind_pdu
connect_ind_pdu_octets (i0 ∷ i1 ∷ i2 ∷ i3 ∷ i4 ∷ i5 ∷ []) (a0 ∷ a1 ∷ a2 ∷ a3 ∷ a4 ∷ a5 ∷ [])
      (m0 ∷ m1 ∷ m2 ∷ m3 ∷ m4 ∷ []) ik ak c p q r =
    refl
connect_ind_pdu_octets (i0 ∷ i1 ∷ i2 ∷ i3 ∷ i4 ∷ i5 ∷ []) (a0 ∷ a1 ∷ a2 ∷ a3 ∷ a4 ∷ a5 ∷ []) _ ik ak
      c p q r =
    absurd (omega arith)
connect_ind_pdu_octets (i0 ∷ i1 ∷ i2 ∷ i3 ∷ i4 ∷ i5 ∷ []) _ cm ik ak c p q r = absurd (omega arith)
connect_ind_pdu_octets _ ab cm ik ak c p q r = absurd (omega arith)

header_tests :
    (ik ak : AddressKind)
    → (bit_and (header_of ik ak) 0x0f ≡ 0x05)
      × (has_bits (header_of ik ak) (1 <<< 6) ≡ is_random ik)
header_tests public_kind public_kind = (refl, refl)
header_tests public_kind random_kind = (refl, refl)
header_tests random_kind public_kind = (refl, refl)
header_tests random_kind random_kind = (refl, refl)

parse_octets :
    (ib ab cm : List ℕ) (ik ak : AddressKind) (c : ConnectInd)
    → length ib ≡ 6
    → length ab ≡ 6
    → length cm ≡ 5
    → parse_connect_ind_detailed
        (header_of ik ak ∷ 34 ∷ payload_of ib ab (record c { channel_map = cm }))
        (address ab ak)
      ≡ checked_fields
          (connect_ind_fields (header_of ik ak) (payload_of ib ab (record c { channel_map = cm })))
unfolding parse_connect_ind_detailed
parse_octets (i0 ∷ i1 ∷ i2 ∷ i3 ∷ i4 ∷ i5 ∷ []) (a0 ∷ a1 ∷ a2 ∷ a3 ∷ a4 ∷ a5 ∷ [])
      (m0 ∷ m1 ∷ m2 ∷ m3 ∷ m4 ∷ []) ik ak c p q r =
    simp ((header_tests ik ak).0, bytes_eq_refl (a0 ∷ a1 ∷ a2 ∷ a3 ∷ a4 ∷ a5 ∷ []))
parse_octets (i0 ∷ i1 ∷ i2 ∷ i3 ∷ i4 ∷ i5 ∷ []) (a0 ∷ a1 ∷ a2 ∷ a3 ∷ a4 ∷ a5 ∷ []) _ ik ak c p q r =
    absurd (omega arith)
parse_octets (i0 ∷ i1 ∷ i2 ∷ i3 ∷ i4 ∷ i5 ∷ []) _ cm ik ak c p q r = absurd (omega arith)
parse_octets _ ab cm ik ak c p q r = absurd (omega arith)

-- What the tests of the builder say.
record Accepted (initiator : DeviceAddress) (c : ConnectInd) : Type 0 where
  initiator_address : bytes_eq c.initiator_address initiator.bytes ≡ true
  initiator_random : bool_eq c.initiator_address_random (is_random initiator.kind) ≡ true
  access_address : data_access_address_is_valid c.access_address false ≡ true
  hop_ge : 5 ≤ c.hop_increment
  hop_le : c.hop_increment ≤ 16
  accuracy_le : c.sleep_clock_accuracy ≤ 7
  timing : timing_of c ≡ true
  channel_map : data_channel_map_is_valid c.channel_map ≡ true

accepted :
    (initiator : DeviceAddress) (c : ConnectInd)
    → may_be_built initiator c ≡ true
    → Accepted initiator c
unfolding may_be_built
accepted initiator c h = ground arith

bool_eq_sound : (a b : Bool) → bool_eq a b ≡ true → b ≡ a
bool_eq_sound true b h = h
bool_eq_sound false true h = absurd (ground arith)
bool_eq_sound false false h = refl

crc_back :
    (crc : ℕ)
    → crc < 2 ^ 24
    → bit_or (bit_or (u8 crc) (u8 (crc >>> 8) <<< 8)) (u8 (crc >>> 16) <<< 16) ≡ crc
crc_back crc lt =
    ap (λ (t : ℕ). bit_or t (u8 (crc >>> 16) * 2 ^ 16))
      (or_above 8 (u8 crc) (u8 (crc >>> 8)) (omega arith))
    ∙ or_above 16 (u8 crc + u8 (crc >>> 8) * 2 ^ 8) (u8 (crc >>> 16)) (omega arith)
    ∙ omega arith

u32_back :
    (n : ℕ)
    → n < 2 ^ 32
    → u32_from_le (n % 256) (n / 256 % 256) (n / 65536 % 256) (n / 16777216 % 256) ≡ n
u32_back n lt = omega arith

hop_word : (hop sca : ℕ) → hop ≤ 16 → sca ≤ 7 → bit_or hop (u8 (sca <<< 5)) ≡ hop + sca * 32
hop_word hop sca p q = ap (bit_or hop) small ∙ or_above 5 hop sca (omega arith)
  where
    small : u8 (sca <<< 5) ≡ sca * 2 ^ 5
    small = omega arith

hop_back :
    (hop sca : ℕ)
    → hop ≤ 16
    → sca ≤ 7
    → (bit_and (bit_or hop (u8 (sca <<< 5))) 0x1f ≡ hop) × (bit_or hop (u8 (sca <<< 5)) >>> 5 ≡ sca)
hop_back hop sca p q = (
  and-low 5 (bit_or hop (u8 (sca <<< 5))) ∙ omega (arith, hop_word hop sca p q),
  omega (arith, hop_word hop sca p q),
)

fields_back :
    (ib ab cm : List ℕ) (kind : AddressKind) (header : ℕ) (c : ConnectInd)
    → length ib ≡ 6
    → length ab ≡ 6
    → length cm ≡ 5
    → Fits (record c { channel_map = cm })
    → c.hop_increment ≤ 16
    → c.sleep_clock_accuracy ≤ 7
    → has_bits header (1 <<< 6) ≡ is_random kind
    → connect_ind_fields header (payload_of ib ab (record c { channel_map = cm })) ≡ record c {
      channel_map = cm;
      initiator_address = ib;
      initiator_address_random = is_random kind;
    }
fields_back (i0 ∷ i1 ∷ i2 ∷ i3 ∷ i4 ∷ i5 ∷ []) (a0 ∷ a1 ∷ a2 ∷ a3 ∷ a4 ∷ a5 ∷ [])
      (m0 ∷ m1 ∷ m2 ∷ m3 ∷ m4 ∷ []) kind header c p q r f hop sca random =
    λ i. record {
      initiator_address = i0 ∷ i1 ∷ i2 ∷ i3 ∷ i4 ∷ i5 ∷ [];
      initiator_address_random = random i;
      access_address = u32_back c.access_address f.access_address i;
      crc_init = crc_back c.crc_init f.crc_init i;
      window_size = c.window_size;
      window_offset = u16_from_le_to_le c.window_offset f.window_offset i;
      interval = u16_from_le_to_le c.interval f.interval i;
      latency = u16_from_le_to_le c.latency f.latency i;
      supervision_timeout = u16_from_le_to_le c.supervision_timeout f.supervision_timeout i;
      channel_map = m0 ∷ m1 ∷ m2 ∷ m3 ∷ m4 ∷ [];
      hop_increment = (hop_back c.hop_increment c.sleep_clock_accuracy hop sca).0 i;
      sleep_clock_accuracy = (hop_back c.hop_increment c.sleep_clock_accuracy hop sca).1 i;
    }
fields_back (i0 ∷ i1 ∷ i2 ∷ i3 ∷ i4 ∷ i5 ∷ []) (a0 ∷ a1 ∷ a2 ∷ a3 ∷ a4 ∷ a5 ∷ []) _ kind header c p
      q r f hop sca random =
    absurd (omega arith)
fields_back (i0 ∷ i1 ∷ i2 ∷ i3 ∷ i4 ∷ i5 ∷ []) _ cm kind header c p q r f hop sca random =
    absurd (omega arith)
fields_back _ ab cm kind header c p q r f hop sca random = absurd (omega arith)

checked_ok :
    (initiator : DeviceAddress) (c : ConnectInd) → Accepted initiator c → checked_fields c ≡ ok c
checked_ok initiator c a =
    simp (a.access_address, a.timing, a.channel_map) (ground (arith, a.hop_ge, a.hop_le))

build_inv :
    (initiator advertiser : DeviceAddress) (c : ConnectInd) (output packet : List ℕ)
    → build_connect_ind initiator advertiser c output ≡ ok packet
    → (may_be_built initiator c ≡ true)
      × (connect_ind_pdu initiator advertiser c (replicate (length output) 0) ≡ packet)
unfolding build_connect_ind
build_inv initiator advertiser c output packet h = ground arith

-- A CONNECT_IND that is built from fields that fit their places in the packet, for a peer with an
-- address of six octets, is read back by that peer field for field, by both parsers. The place of the
-- CRC initial value has 24 bits, less than its type: the builder drops what is above them.
pub parse_connect_ind-build :
    (initiator advertiser : DeviceAddress) (c : ConnectInd) (output packet : List ℕ)
    → length initiator.bytes ≡ 6
    → length advertiser.bytes ≡ 6
    → length output ≡ 36
    → Fits c
    → build_connect_ind initiator advertiser c output ≡ ok packet
    → (parse_connect_ind_detailed packet advertiser ≡ ok c)
      × (parse_connect_ind packet advertiser ≡ ok (some c))
unfolding parse_connect_ind
parse_connect_ind-build initiator advertiser c output packet p q size f h =
    (detailed, ap without_detail detailed)
  where
    inv :
        (may_be_built initiator c ≡ true)
        × (connect_ind_pdu initiator advertiser c (replicate (length output) 0) ≡ packet)
    inv = build_inv initiator advertiser c output packet h

    a : Accepted initiator c
    a = accepted initiator c inv.0

    octets :
        packet
        ≡ header_of initiator.kind advertiser.kind
          ∷ 34
          ∷ payload_of initiator.bytes advertiser.bytes c
    octets =
        sym inv.1
        ∙ ap (λ (n : ℕ). connect_ind_pdu initiator advertiser c (replicate n 0)) size
        ∙ connect_ind_pdu_octets initiator.bytes advertiser.bytes c.channel_map initiator.kind
            advertiser.kind c p q f.channel_map

    same_address : initiator.bytes ≡ c.initiator_address
    same_address = sym (bytes_eq_sound c.initiator_address initiator.bytes a.initiator_address)

    restored :
        record c {
          initiator_address = initiator.bytes;
          initiator_address_random = is_random initiator.kind;
        }
        ≡ c
    restored = λ i. record c {
      initiator_address = same_address i;
      initiator_address_random =
          bool_eq_sound c.initiator_address_random (is_random initiator.kind) a.initiator_random i;
    }

    fields :
        connect_ind_fields
          (header_of initiator.kind advertiser.kind)
          (payload_of initiator.bytes advertiser.bytes c)
        ≡ c
    fields =
        fields_back initiator.bytes advertiser.bytes c.channel_map initiator.kind
          (header_of initiator.kind advertiser.kind) c p q f.channel_map f a.hop_le a.accuracy_le
          (header_tests initiator.kind advertiser.kind).1
        ∙ restored

    detailed : parse_connect_ind_detailed packet advertiser ≡ ok c
    detailed =
        ap (λ (xs : List ℕ). parse_connect_ind_detailed xs advertiser) octets
        ∙ parse_octets initiator.bytes advertiser.bytes c.channel_map initiator.kind advertiser.kind
            c p q f.channel_map
        ∙ ap checked_fields fields
        ∙ checked_ok initiator c a
