-- ===== src/LinkLayer/Event/Trace.antt =====
-- The trace record: nothing is lost in its seven words.
use ch58x_hal.Base.{ℕ, ◌+◌, ◌*◌, ◌/◌, ◌%◌, ◌^◌, ◌<◌, ◌≡◌, ap, ◌∙◌}
use ch58x_hal.Base.{
  arith, Bool, true, false, List, at, All, if◌then◌else◌, ◌==◌, bit_or, IsByte, ◌<<<◌,
}
use ch58x_hal.Base.Bits.Mask.{or_above}
use ch58x_hal.LinkLayer.Event.{
  CloseReason, continue, both_md_clear, deadline, radio_timeout, invalid_crc, invalid_mic,
  resource_limit, protocol_error, reason_code, TraceRecord, bool_as, encode_flags, encode,
}

-- The fields fit the types of the source.
pub record Fits (r : TraceRecord) : Type 0 where
  pub event_counter : r.event_counter < 2 ^ 16
  pub channel : IsByte r.channel
  pub leg_index : IsByte r.leg_index
  pub timestamp_us : r.timestamp_us < 2 ^ 64
  pub lle_status : r.lle_status < 2 ^ 32
  pub bb_status : r.bb_status < 2 ^ 32
  pub peer_header : IsByte r.peer_header
  pub response_header : IsByte r.response_header
  pub received_len : IsByte r.received_len
  pub response_slot : IsByte r.response_slot

abbrev reason_of : ℕ → CloseReason
reason_of n =
    if n == 0
    then continue
    else if n == 1
    then both_md_clear
    else if n == 2
    then deadline
    else if n == 3
    then radio_timeout
    else if n == 4
    then invalid_crc
    else if n == 5
    then invalid_mic
    else if n == 6
    then resource_limit
    else protocol_error

-- A reader of the seven words.
unfoldable pub decode : List ℕ → TraceRecord
decode words = record {
  event_counter = at words 0 % 2 ^ 16;
  channel = at words 0 / 2 ^ 16 % 256;
  leg_index = at words 0 / 2 ^ 24;
  timestamp_us = at words 1 + at words 2 * 2 ^ 32;
  lle_status = at words 3;
  bb_status = at words 4;
  peer_header = at words 5 % 256;
  response_header = at words 5 / 2 ^ 8 % 256;
  received_len = at words 5 / 2 ^ 16 % 256;
  response_slot = at words 5 / 2 ^ 24;
  crc_ok = at words 6 % 2 == 1;
  acknowledged_transmit = at words 6 / 2 % 2 == 1;
  accepted_receive = at words 6 / 4 % 2 == 1;
  peer_more_data = at words 6 / 8 % 2 == 1;
  response_transmitted = at words 6 / 16 % 2 == 1;
  close_reason = reason_of (at words 6 / 256);
}

pair :
    (a b c : ℕ)
    → a < 2 ^ 16
    → b < 256
    → bit_or (bit_or a (b <<< 16)) (c <<< 24) ≡ a + b * 2 ^ 16 + c * 2 ^ 24
pair a b c p q =
    ap (λ (t : ℕ). bit_or t (c * 2 ^ 24)) (or_above 16 a b p)
    ∙ or_above 24 (a + b * 2 ^ 16) c (omega arith)

four :
    (a b c d : ℕ)
    → a < 256
    → b < 256
    → c < 256
    → bit_or (bit_or (bit_or a (b <<< 8)) (c <<< 16)) (d <<< 24)
      ≡ a + b * 2 ^ 8 + c * 2 ^ 16 + d * 2 ^ 24
four a b c d p q s =
    ap (λ (t : ℕ). bit_or (bit_or t (c * 2 ^ 16)) (d * 2 ^ 24)) (or_above 8 a b p)
    ∙ pair (a + b * 2 ^ 8) c d (omega arith) s

bool_small : (b : Bool) → bool_as b < 2
bool_small true = omega arith
bool_small false = omega arith

bool_back : (b : Bool) (n : ℕ) → n ≡ bool_as b → (n == 1) ≡ b
bool_back true n h = ground arith
bool_back false n h = ground arith

reason_back : (c : CloseReason) (n : ℕ) → n ≡ reason_code c → reason_of n ≡ c
reason_back c n h = ground arith

six :
    (a b c d e f : ℕ)
    → a < 2
    → b < 2
    → c < 2
    → d < 2
    → e < 2
    → bit_or (bit_or (bit_or (bit_or (bit_or a (b <<< 1)) (c <<< 2)) (d <<< 3)) (e <<< 4)) (f <<< 8)
      ≡ a + b * 2 + c * 4 + d * 8 + e * 16 + f * 256
six a b c d e f p q r s t =
    ap (λ (x : ℕ). bit_or (bit_or (bit_or (bit_or x (c * 4)) (d * 8)) (e * 16)) (f * 256))
      (or_above 1 a b p)
    ∙ ap (λ (x : ℕ). bit_or (bit_or (bit_or x (d * 8)) (e * 16)) (f * 256))
        (or_above 2 (a + b * 2) c (omega arith))
    ∙ ap (λ (x : ℕ). bit_or (bit_or x (e * 16)) (f * 256))
        (or_above 3 (a + b * 2 + c * 4) d (omega arith))
    ∙ ap (λ (x : ℕ). bit_or x (f * 256)) (or_above 4 (a + b * 2 + c * 4 + d * 8) e (omega arith))
    ∙ or_above 8 (a + b * 2 + c * 4 + d * 8 + e * 16) f (omega arith)

flags :
    (r : TraceRecord)
    → encode_flags r
      ≡ bool_as r.crc_ok
        + bool_as r.acknowledged_transmit * 2
        + bool_as r.accepted_receive * 4
        + bool_as r.peer_more_data * 8
        + bool_as r.response_transmitted * 16
        + reason_code r.close_reason * 256
unfolding encode_flags
flags r =
    six (bool_as r.crc_ok) (bool_as r.acknowledged_transmit) (bool_as r.accepted_receive)
      (bool_as r.peer_more_data) (bool_as r.response_transmitted) (reason_code r.close_reason)
      (bool_small r.crc_ok) (bool_small r.acknowledged_transmit) (bool_small r.accepted_receive)
      (bool_small r.peer_more_data) (bool_small r.response_transmitted)

digits :
    (a b c d e f n : ℕ)
    → a < 2
    → b < 2
    → c < 2
    → d < 2
    → e < 2
    → n ≡ a + b * 2 + c * 4 + d * 8 + e * 16 + f * 256
    → (n % 2 ≡ a)
      × (n / 2 % 2 ≡ b)
      × (n / 4 % 2 ≡ c)
      × (n / 8 % 2 ≡ d)
      × (n / 16 % 2 ≡ e)
      × (n / 256 ≡ f)
digits a b c d e f n p q r s t h =
    (omega arith, omega arith, omega arith, omega arith, omega arith, omega arith)

reason_small : (c : CloseReason) → reason_code c < 8
reason_small c = ground arith

module _ (r : TraceRecord) (f : Fits r) where
  first_word : at (encode r) 0 ≡ r.event_counter + r.channel * 2 ^ 16 + r.leg_index * 2 ^ 24
  unfolding encode
  first_word = pair r.event_counter r.channel r.leg_index f.event_counter f.channel

  header_word :
      at (encode r) 5
      ≡ r.peer_header
        + r.response_header * 2 ^ 8
        + r.received_len * 2 ^ 16
        + r.response_slot * 2 ^ 24
  unfolding encode
  header_word =
      four r.peer_header r.response_header r.received_len r.response_slot f.peer_header
        f.response_header f.received_len

  time : at (encode r) 1 + at (encode r) 2 * 2 ^ 32 ≡ r.timestamp_us
  unfolding encode
  time = omega (arith, f.timestamp_us)

  flag_word :
      at (encode r) 6
      ≡ bool_as r.crc_ok
        + bool_as r.acknowledged_transmit * 2
        + bool_as r.accepted_receive * 4
        + bool_as r.peer_more_data * 8
        + bool_as r.response_transmitted * 16
        + reason_code r.close_reason * 256
  unfolding encode
  flag_word = flags r

  flag_digits :
      (at (encode r) 6 % 2 ≡ bool_as r.crc_ok)
      × (at (encode r) 6 / 2 % 2 ≡ bool_as r.acknowledged_transmit)
      × (at (encode r) 6 / 4 % 2 ≡ bool_as r.accepted_receive)
      × (at (encode r) 6 / 8 % 2 ≡ bool_as r.peer_more_data)
      × (at (encode r) 6 / 16 % 2 ≡ bool_as r.response_transmitted)
      × (at (encode r) 6 / 256 ≡ reason_code r.close_reason)
  flag_digits =
      digits (bool_as r.crc_ok) (bool_as r.acknowledged_transmit) (bool_as r.accepted_receive)
        (bool_as r.peer_more_data) (bool_as r.response_transmitted) (reason_code r.close_reason)
        (at (encode r) 6) (bool_small r.crc_ok) (bool_small r.acknowledged_transmit)
        (bool_small r.accepted_receive) (bool_small r.peer_more_data)
        (bool_small r.response_transmitted) flag_word

  words_small : All (λ (w : ℕ). w < 2 ^ 32) (encode r)
  unfolding encode
  words_small = (
    omega (arith, first_word, f.event_counter, f.channel, f.leg_index),
    (
      omega arith,
      (
        omega (arith, f.timestamp_us),
        (f.lle_status, (f.bb_status, (header_small, (flags_small, tt)))),
      ),
    ),
  )
    where
      header_small : at (encode r) 5 < 2 ^ 32
      header_small =
          omega
            (arith, header_word, f.peer_header, f.response_header, f.received_len, f.response_slot)

      flags_small : at (encode r) 6 < 2 ^ 32
      flags_small = omega (
        arith,
        flag_word,
        bool_small r.crc_ok,
        bool_small r.acknowledged_transmit,
        bool_small r.accepted_receive,
        bool_small r.peer_more_data,
        bool_small r.response_transmitted,
        reason_small r.close_reason,
      )

  read_back : decode (encode r) ≡ r
  unfolding decode encode
  read_back = λ i. record {
    event_counter = event_counter i;
    channel = channel i;
    leg_index = leg_index i;
    timestamp_us = time i;
    lle_status = r.lle_status;
    bb_status = r.bb_status;
    peer_header = peer_header i;
    response_header = response_header i;
    received_len = received_len i;
    response_slot = response_slot i;
    crc_ok = bool_back r.crc_ok (at (encode r) 6 % 2) flag_digits.0 i;
    acknowledged_transmit =
        bool_back r.acknowledged_transmit (at (encode r) 6 / 2 % 2) flag_digits.1 i;
    accepted_receive = bool_back r.accepted_receive (at (encode r) 6 / 4 % 2) flag_digits.2 i;
    peer_more_data = bool_back r.peer_more_data (at (encode r) 6 / 8 % 2) flag_digits.3 i;
    response_transmitted =
        bool_back r.response_transmitted (at (encode r) 6 / 16 % 2) flag_digits.4 i;
    close_reason = reason_back r.close_reason (at (encode r) 6 / 256) flag_digits.5 i;
  }
    where
      event_counter : at (encode r) 0 % 2 ^ 16 ≡ r.event_counter
      event_counter = omega (arith, first_word, f.event_counter)

      channel : at (encode r) 0 / 2 ^ 16 % 256 ≡ r.channel
      channel = omega (arith, first_word, f.event_counter, f.channel)

      leg_index : at (encode r) 0 / 2 ^ 24 ≡ r.leg_index
      leg_index = omega (arith, first_word, f.event_counter, f.channel)

      peer_header : at (encode r) 5 % 256 ≡ r.peer_header
      peer_header = omega (arith, header_word, f.peer_header)

      response_header : at (encode r) 5 / 2 ^ 8 % 256 ≡ r.response_header
      response_header = omega (arith, header_word, f.peer_header, f.response_header)

      received_len : at (encode r) 5 / 2 ^ 16 % 256 ≡ r.received_len
      received_len = omega (arith, header_word, f.peer_header, f.response_header, f.received_len)

      response_slot : at (encode r) 5 / 2 ^ 24 ≡ r.response_slot
      response_slot = omega (arith, header_word, f.peer_header, f.response_header, f.received_len)

-- The words of a record whose fields fit their types are 32-bit words, and `decode` gets every field
-- back from them.
pub decode-encode :
    (r : TraceRecord) → Fits r → (decode (encode r) ≡ r) × All (λ (w : ℕ). w < 2 ^ 32) (encode r)
decode-encode r f = (read_back r f, words_small r f)
