-- ===== src/Backend/Acl/Queueing.antt =====
-- `queue_acl` against a bounded queue.
use ch58x_hal.Base.{ℕ, ◌+◌, ◌<◌, ◌≡◌, ◌⊎◌, refl, sym, subst, ap, inl, inr, ◌∙◌}
use ch58x_hal.Base.{arith, Bool, true, false, ◌&&◌, Option, none, some, List, [], ◌∷◌, ◌++◌, length}
use ch58x_hal.Base.{
  ltb, leb, ◌==◌, bit_and, Result, ok, err, if◌then◌else◌, Bool-cases, Option-cases,
}
use ch58x_hal.Backend.Transport.{Packet}
use ch58x_hal.Backend.Connection.{
  ActiveConnection, PendingData, hci_command_disallowed, hci_invalid_parameters,
}
use ch58x_hal.Backend.Queue.{
  queue_acl, raw_handle, acl_length, acl_data_of, place_acl, fill_first, following_token,
  count_token,
}
use ch58x_hal.Backend.Acl.Slots.{
  Slots, entries, all_free, packed, Filled, fill_first_lem, entries_free, packed_free,
  length-entries,
}

-- The slot in front and the four behind it.
abbrev pub slots_of : ActiveConnection → Slots
slots_of c = c.pending ∷ c.queued_acl

-- The packets that wait for their acknowledgment, oldest first.
abbrev pub acl_queue : ActiveConnection → List PendingData
acl_queue c = entries (slots_of c)

pub record IsQueue (c : ActiveConnection) : Type 0 where
  pub packed_slots : packed (slots_of c) ≡ true
  pub four : length c.queued_acl ≡ 4

-- The five credits that the host is told of.
abbrev pub acl_credits : ℕ
acl_credits = 5

-- A well-formed packet for this connection, of at most 27 octets.
abbrev pub is_acl_packet : ActiveConnection → Packet → Bool
is_acl_packet c packet =
    leb 4 (length packet.bytes)
    && (bit_and (raw_handle packet) 0x0fff == c.handle
        && (acl_length packet + 4 == length packet.bytes && leb (acl_length packet) 27))

-- The queue takes the data, or is full.
abbrev pub Placed : ActiveConnection → PendingData → ActiveConnection × Result (Unit {0}) ℕ → Type 0
Placed c d result =
    ((length (acl_queue c) < 5)
      × (result.1 ≡ ok tt)
      × (acl_queue result.0 ≡ acl_queue c ++ (d ∷ []))
      × IsQueue result.0
      × (result.0.next_acl_owner_token ≡ following_token c.next_acl_owner_token))
    ⊎ ((length (acl_queue c) ≡ 5) × (result ≡ (c, err hci_command_disallowed)))

-- The connection once `d` is stored.
abbrev stored : ActiveConnection → Option PendingData → Slots → ActiveConnection
stored c pending slots = record c {
  pending = pending;
  queued_acl = slots;
  next_acl_owner_token = following_token c.next_acl_owner_token;
}

module _ (c : ActiveConnection) (d : PendingData) (q : IsQueue c) where
  place_behind :
      (first : PendingData)
      → c.pending ≡ some first
      → Filled d c.queued_acl (fill_first d c.queued_acl)
      → Placed c d (count_token c (place_acl c d c.pending))
  place_behind first e (inl full) =
      inr (ground (arith, e, full.1, q.four), ground (arith, e, full.0))
  place_behind first e (inr (slots', same, items, p, l, lt)) = subst (Placed c d) (sym result) (
      inl (
        ground (arith, e, q.four),
        refl,
        ap (◌∷◌ first) items ∙ ap (λ o. entries (o ∷ c.queued_acl) ++ (d ∷ [])) (sym e),
        record { packed_slots = p; four = l ∙ q.four },
        refl,
      ))
    where
      result : count_token c (place_acl c d c.pending) ≡ (stored c (some first) slots', ok tt)
      result = ground (arith, e, same)

  place_front : c.pending ≡ none → Placed c d (count_token c (place_acl c d c.pending))
  place_front e = subst (Placed c d) (sym result) (
      inl (
        fewer,
        refl,
        items,
        record { packed_slots = packed_free c.queued_acl free; four = q.four },
        refl,
      ))
    where
      result : count_token c (place_acl c d c.pending) ≡ (stored c (some d) c.queued_acl, ok tt)
      result = simp e

      free : all_free c.queued_acl ≡ true
      free = ground (arith, e, q.packed_slots)

      fewer : length (acl_queue c) < 5
      fewer = ground (arith, e, q.four, length-entries c.queued_acl)

      items : ◌≡◌ {A = List PendingData} (d ∷ entries c.queued_acl) (acl_queue c ++ (d ∷ []))
      items =
          ap (◌∷◌ d) (entries_free c.queued_acl free)
          ∙ ap (λ (rest : List PendingData). rest ++ (d ∷ []))
              (sym (ap (λ o. entries (o ∷ c.queued_acl)) e ∙ entries_free c.queued_acl free))

  placed : Placed c d (count_token c (place_acl c d c.pending))
  placed = elim (Option-cases c.pending) [
    | inl e ↦ place_front e
    | inr (first, e) ↦ place_behind first e (fill_first_lem d c.queued_acl packed_rest)
  ]
    where
      packed_rest : packed c.queued_acl ≡ true
      packed_rest = elim (Option-cases c.pending) [
        | inl e ↦ packed_free c.queued_acl (ground (arith, e, q.packed_slots))
        | inr (first, e) ↦ ground (arith, e, q.packed_slots)
      ]

-- A packet without a header is out of place, any other has wrong parameters.
abbrev pub refusal : Packet → ℕ
refusal packet =
    if ltb (length packet.bytes) 4 then hci_command_disallowed else hci_invalid_parameters

queue_acl_cases :
    (c : ActiveConnection) (packet : Packet)
    → ((is_acl_packet c packet ≡ true)
        × (queue_acl c packet ≡ count_token c (place_acl c (acl_data_of c packet) c.pending)))
      ⊎ ((is_acl_packet c packet ≡ false) × (queue_acl c packet ≡ (c, err (refusal packet))))
unfolding queue_acl
queue_acl_cases c packet = elim (Bool-cases (is_acl_packet c packet)) [
  | inl e ↦ inl (e, ground arith)
  | inr e ↦ inr (e, ground arith)
]

-- A packet of at least four octets for this connection, with the length that it says and at most 27
-- octets of payload, is queued behind the others, as long as fewer than five wait: as many as the
-- credits that the host is told of. A sixth is refused, and so is any other packet; neither changes
-- anything.
pub queue_acl_placed :
    (c : ActiveConnection) (packet : Packet)
    → IsQueue c
    → ((is_acl_packet c packet ≡ true) × Placed c (acl_data_of c packet) (queue_acl c packet))
      ⊎ ((is_acl_packet c packet ≡ false) × (queue_acl c packet ≡ (c, err (refusal packet))))
queue_acl_placed c packet q = elim (queue_acl_cases c packet) [
  | inl (valid, same) ↦ inl (
    valid,
    subst (Placed c (acl_data_of c packet)) (sym same) (placed c (acl_data_of c packet) q),
  )
  | inr refused ↦ inr refused
]
