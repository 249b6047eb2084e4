-- ===== src/LinkLayer/EventTx/Selecting.antt =====
-- `select` keeps the queue.
use ch58x_hal.Base.{ℕ, ◌≤◌, ◌≡◌, refl, sym, subst, ◌⊎◌, inl, inr}
use ch58x_hal.Base.{arith, Bool, true, false, Option, none, some, is_some, List, ltb}
use ch58x_hal.Base.{Bool-cases, Option-cases}
use ch58x_hal.LinkLayer.EventTx.State.{
  Slot, slot0, slot1, Token, Outstanding, Two, get, put, other, TxState,
}
use ch58x_hal.LinkLayer.EventTx.Select.{
  staged_slot, response_slot_of, released_or_free, refill_of, select, choose, retry,
}
use ch58x_hal.LinkLayer.EventTx.Branches.{
  select_pending, select_unexpected, select_idle, select_repeat, select_advance,
}
use ch58x_hal.LinkLayer.EventTx.Queue.{
  Staged, IsOwned, IsOldest, Held, CanRefill, IsQueue, after_ack, Acknowledges, Selected,
}

abbrev pub two : Option Token → Option Token → Two (Option Token)
two a b = record { first = a; second = b }

abbrev chosen : Option Token → Option Token → Slot → Slot
chosen a b last = response_slot_of (staged_slot a b) last

-- The slot that is chosen holds the oldest payload, or both are empty.
chosen-IsOldest :
    (acked next : ℕ) (a b : Option Token) (last : Slot)
    → Staged acked next a b
    → IsOldest acked (get (chosen a b last) (two a b))
unfolding staged_slot response_slot_of
chosen-IsOldest acked next none none slot0 h = tt
chosen-IsOldest acked next none none slot1 h = tt
chosen-IsOldest acked next (some t) none last h = h.0
chosen-IsOldest acked next none (some u) last h = h.0
chosen-IsOldest acked next (some t) (some u) last h =
    elim (Bool-cases (ltb u.payload_id t.payload_id)) [
      | inl e ↦ rw e (ground arith)
      | inr e ↦ rw e (ground arith)
    ]

-- Without an acknowledgement the other slot is refilled if it is free.
free_refill :
    (s : TxState) (r : Slot)
    → s.next_payload_id ≤ s.payload_count
    → CanRefill s r (refill_of s (released_or_free none r s.slots))
unfolding released_or_free refill_of
free_refill s slot0 h = ground arith
free_refill s slot1 h = ground arith

-- An acknowledgement frees the slot `x`: the other slot answers, unless all is done.
released_refill :
    (s : TxState) (x r : Slot)
    → s.next_payload_id ≤ s.payload_count
    → get x s.slots ≡ none
    → (r ≡ other x) ⊎ (s.next_payload_id ≡ s.payload_count)
    → CanRefill s r (refill_of s (released_or_free (some x) r s.slots))
unfolding released_or_free refill_of
released_refill s slot0 slot0 h e f = ground arith
released_refill s slot0 slot1 h e f = ground arith
released_refill s slot1 slot0 h e f = ground arith
released_refill s slot1 slot1 h e f = ground arith

-- The slots after an acknowledgement of what is in slot `x`.
released : TxState → Outstanding → TxState
released s o = record s {
  outstanding = none;
  slots = put o.slot none s.slots;
  last_released_slot = o.slot;
}

released-Staged :
    (acked next : ℕ) (a b : Option Token) (x : Slot)
    → Staged acked next a b
    → IsOldest acked (get x (two a b))
    → let p = put x none (two a b) in
      Staged (after_ack acked (get x (two a b))) next p.first p.second
released-Staged acked next none none slot0 h o = h
released-Staged acked next none none slot1 h o = h
released-Staged acked next (some t) none slot0 h o = omega arith
released-Staged acked next (some t) none slot1 h o = h
released-Staged acked next none (some u) slot0 h o = h
released-Staged acked next none (some u) slot1 h o = omega arith
released-Staged acked next (some t) (some u) slot0 h o = ground arith
released-Staged acked next (some t) (some u) slot1 h o = ground arith

-- The slots of the other kind after a release: nothing is owned by none.
put-none-IsOwned :
    (owners : List ℕ) (a b : Option Token) (x : Slot)
    → IsOwned owners a
    → IsOwned owners b
    → let p = put x none (two a b) in IsOwned owners p.first × IsOwned owners p.second
put-none-IsOwned owners a b slot0 h k = (tt, k)
put-none-IsOwned owners a b slot1 h k = (h, tt)

-- An oldest token in a slot belongs to the payload that is acknowledged next.
oldest-Acknowledges :
    (acked : ℕ) (s : TxState) (a b : Option Token) (x : Slot)
    → s.next_payload_id ≤ s.payload_count
    → Staged acked s.next_payload_id a b
    → IsOwned s.owner_tokens a
    → IsOwned s.owner_tokens b
    → IsOldest acked (get x (two a b))
    → Acknowledges acked s (get x (two a b))
oldest-Acknowledges acked s none b slot0 n h k l o = tt
oldest-Acknowledges acked s (some t) none slot0 n h k l o = ground arith
oldest-Acknowledges acked s (some t) (some u) slot0 n h k l o = ground arith
oldest-Acknowledges acked s a none slot1 n h k l o = tt
oldest-Acknowledges acked s none (some u) slot1 n h k l o = ground arith
oldest-Acknowledges acked s (some t) (some u) slot1 n h k l o = ground arith

get-put-none : (x : Slot) (p : Two (Option Token)) → get x (put x none p) ≡ none
get-put-none slot0 p = refl
get-put-none slot1 p = refl

-- If the other slot is staged it is the one that answers.
chosen-other :
    (a b : Option Token) (x last : Slot)
    → is_some (get (other x) (two a b)) ≡ true
    → let p = put x none (two a b) in chosen p.first p.second last ≡ other x
unfolding staged_slot response_slot_of
chosen-other a none slot0 last h = cc
chosen-other a (some u) slot0 last h = refl
chosen-other none b slot1 last h = cc
chosen-other (some t) b slot1 last h = refl

-- With nothing outstanding the oldest staged payload is taken.
select_first :
    (acked : ℕ) (s : TxState)
    → IsQueue acked s
    → s.outstanding ≡ none
    → IsQueue acked
        (record s { planned = some (choose s s.slots s.last_released_slot none false none) })
unfolding choose
select_first acked s v e = record {
  count_le = v.count_le;
  next_le = v.next_le;
  staged = v.staged;
  owned_first = v.owned_first;
  owned_second = v.owned_second;
  held = v.held;
  pending = inr (
    e,
    refl,
    chosen-IsOldest acked s.next_payload_id s.slots.first s.slots.second s.last_released_slot
        v.staged,
    free_refill s (chosen s.slots.first s.slots.second s.last_released_slot) v.next_le,
  );
}

-- Without an acknowledgement the outstanding response is repeated.
select_again :
    (acked : ℕ) (s : TxState) (o : Outstanding)
    → IsQueue acked s
    → s.outstanding ≡ some o
    → IsQueue acked (record s { planned = some (retry s o) })
unfolding retry
select_again acked s o v e = record {
  count_le = v.count_le;
  next_le = v.next_le;
  staged = v.staged;
  owned_first = v.owned_first;
  owned_second = v.owned_second;
  held = v.held;
  pending = inl (e, refl);
}

-- With an acknowledgement the queue moves on.
select_next :
    (acked : ℕ) (s : TxState) (o : Outstanding)
    → IsQueue acked s
    → s.outstanding ≡ some o
    → let d = choose s (put o.slot none s.slots) o.slot (some o.slot) true o.token in
      IsQueue (after_ack acked o.token) (record s {
        outstanding = none;
        slots = put o.slot none s.slots;
        last_released_slot = o.slot;
        planned = some d;
      })
      × Acknowledges acked s o.token
unfolding choose released refill_of released_or_free
select_next acked s o v e = (
  record {
    count_le = v.count_le;
    next_le = v.next_le;
    staged = staged;
    owned_first = owned.0;
    owned_second = owned.1;
    held = tt;
    pending = inr (
      refl,
      refl,
      chosen-IsOldest (after_ack acked o.token) s.next_payload_id p.first p.second o.slot staged,
      refill,
    );
  },
  subst (Acknowledges acked s) held.0 (
      oldest-Acknowledges acked s s.slots.first s.slots.second o.slot v.next_le v.staged
        v.owned_first v.owned_second oldest),
)
  where
    held : Held acked s (some o)
    held = subst (Held acked s) e v.held

    oldest : IsOldest acked (get o.slot s.slots)
    oldest = subst (IsOldest acked) (sym held.0) held.1

    p : Two (Option Token)
    p = put o.slot none s.slots

    staged : Staged (after_ack acked o.token) s.next_payload_id p.first p.second
    staged =
        subst (λ t. Staged (after_ack acked t) s.next_payload_id p.first p.second) held.0
          (released-Staged acked s.next_payload_id s.slots.first s.slots.second o.slot v.staged
            oldest)

    owned : IsOwned s.owner_tokens p.first × IsOwned s.owner_tokens p.second
    owned =
        put-none-IsOwned s.owner_tokens s.slots.first s.slots.second o.slot v.owned_first
          v.owned_second

    done :
        (is_some (get (other o.slot) s.slots) ≡ true) ⊎ (s.next_payload_id ≡ s.payload_count)
        → (chosen p.first p.second o.slot ≡ other o.slot) ⊎ (s.next_payload_id ≡ s.payload_count)
    done (inl b) = inl (chosen-other s.slots.first s.slots.second o.slot o.slot b)
    done (inr q) = inr q

    refill : CanRefill (released s o) (chosen p.first p.second o.slot) (
        refill_of
          (released s o)
          (released_or_free (some o.slot) (chosen p.first p.second o.slot) p))
    refill =
        released_refill (released s o) o.slot (chosen p.first p.second o.slot) v.next_le
          (get-put-none o.slot s.slots) (done held.2)

select_outstanding :
    (acked : ℕ) (s : TxState) (o : Option Outstanding) (ack : Bool)
    → s.planned ≡ none
    → s.outstanding ≡ o
    → IsQueue acked s
    → Selected acked s (select s ack)
unfolding choose retry
select_outstanding acked s none false e f v =
    rw (select_idle s e f) (select_first acked s v f, tt, (refl, refl))
select_outstanding acked s none true e f v = rw (select_unexpected s e f) tt
select_outstanding acked s (some o) false e f v =
    rw (select_repeat s e o f) (select_again acked s o v f, tt, (refl, refl))
select_outstanding acked s (some o) true e f v =
    let next = select_next acked s o v f in
    rw (select_advance s e o f) (next.0, next.1, (refl, refl))

-- Selection keeps the queue; an acknowledged token is that of the oldest payload.
pub select-Selected :
    (acked : ℕ) (s : TxState) (ack : Bool) → IsQueue acked s → Selected acked s (select s ack)
select-Selected acked s ack v = elim (Option-cases s.planned) [
  | inl e ↦ select_outstanding acked s s.outstanding ack e refl v
  | inr (d, e) ↦ rw (select_pending s ack d e) tt
]
