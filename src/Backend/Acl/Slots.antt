-- ===== src/Backend/Acl/Slots.antt =====
-- The slots of the queue, as the list of what they hold.
use ch58x_hal.Base.{◌≤◌, ◌<◌, ◌≡◌, ◌⊎◌, refl, sym, ap, inl, inr, ◌∙◌}
use ch58x_hal.Base.{
  arith, Bool, true, ◌&&◌, not, Option, none, some, List, [], ◌∷◌, ◌++◌, length, is_some,
  length-append,
}
use ch58x_hal.Backend.Connection.{PendingData}
use ch58x_hal.Backend.Queue.{fill_first}
use ch58x_hal.Backend.Frame.{first_slot, shifted}

abbrev pub Slots : Type 0
Slots = List (Option PendingData)

abbrev pub entries : Slots → List PendingData
entries [] = []
entries (none ∷ slots) = entries slots
entries (some d ∷ slots) = d ∷ entries slots

abbrev pub all_free : Slots → Bool
all_free [] = true
all_free (slot ∷ slots) = not (is_some slot) && all_free slots

-- The slots in use stand in front.
abbrev pub packed : Slots → Bool
packed [] = true
packed (none ∷ slots) = all_free slots
packed (some d ∷ slots) = packed slots

pub entries_free : (slots : Slots) → all_free slots ≡ true → entries slots ≡ []
entries_free [] h = refl
entries_free (none ∷ slots) h = entries_free slots h
entries_free (some d ∷ slots) h = cc

pub packed_free : (slots : Slots) → all_free slots ≡ true → packed slots ≡ true
packed_free [] h = refl
packed_free (none ∷ slots) h = h
packed_free (some d ∷ slots) h = cc

pub length-entries : (slots : Slots) → length (entries slots) ≤ length slots
length-entries [] = omega arith
length-entries (none ∷ slots) = omega (arith, length-entries slots)
length-entries (some d ∷ slots) = omega (arith, length-entries slots)

-- What `fill_first` gives: every slot is in use, or `d` stands behind the others.
abbrev pub Filled : PendingData → Slots → Option Slots → Type 0
Filled d slots filled =
    ((filled ≡ none) × (length (entries slots) ≡ length slots))
    ⊎ ((slots' : Slots) × (filled ≡ some slots')
        × (entries slots' ≡ entries slots ++ (d ∷ []))
        × (packed slots' ≡ true)
        × (length slots' ≡ length slots)
        × (length (entries slots) < length slots))

Filled-cons :
    (d e : PendingData) (slots : Slots)
    → Filled d slots (fill_first d slots)
    → Filled d (some e ∷ slots) (fill_first d (some e ∷ slots))
Filled-cons d e slots (inl full) = inl (ground (arith, full.0), omega (arith, full.1))
Filled-cons d e slots (inr (slots', same, items, p, l, lt)) = inr (
  some e ∷ slots',
  ground (arith, same),
  ap (◌∷◌ e) items,
  p,
  omega (arith, l),
  omega (arith, lt),
)

pub fill_first_lem :
    (d : PendingData) (slots : Slots) → packed slots ≡ true → Filled d slots (fill_first d slots)
fill_first_lem d [] h = inl (refl, refl)
fill_first_lem d (none ∷ slots) h = inr (
  some d ∷ slots,
  refl,
  ap (λ (items : List PendingData). d ∷ items) (entries_free slots h)
      ∙ ap (λ (items : List PendingData). items ++ (d ∷ [])) {x = []} {y = entries slots}
          (sym (entries_free slots h)),
  packed_free slots h,
  refl,
  omega (arith, length-entries slots),
)
fill_first_lem d (some e ∷ slots) h = Filled-cons d e slots (fill_first_lem d slots h)

-- A free slot behind the others changes nothing.
entries-free_slot : (slots : Slots) → entries (slots ++ (none ∷ [])) ≡ entries slots
entries-free_slot [] = refl
entries-free_slot (none ∷ slots) = entries-free_slot slots
entries-free_slot (some d ∷ slots) = ap (◌∷◌ d) (entries-free_slot slots)

all_free-free_slot :
    (slots : Slots) → all_free slots ≡ true → all_free (slots ++ (none ∷ [])) ≡ true
all_free-free_slot [] h = refl
all_free-free_slot (none ∷ slots) h = all_free-free_slot slots h
all_free-free_slot (some d ∷ slots) h = cc

packed-free_slot : (slots : Slots) → packed slots ≡ true → packed (slots ++ (none ∷ [])) ≡ true
packed-free_slot [] h = refl
packed-free_slot (none ∷ slots) h = all_free-free_slot slots h
packed-free_slot (some d ∷ slots) h = packed-free_slot slots h

-- When the first entry has gone, the others move up by one slot.
pub shift_lem :
    (slots : Slots)
    → packed slots ≡ true
    → (entries (first_slot slots ∷ shifted slots) ≡ entries slots)
      × (packed (first_slot slots ∷ shifted slots) ≡ true)
      × (length (shifted slots) ≡ length slots)
shift_lem [] h = (refl, refl, refl)
shift_lem (none ∷ slots) h = (
  entries-free_slot slots,
  all_free-free_slot slots h,
  omega (arith, length-append {0} slots (none ∷ [])),
)
shift_lem (some d ∷ slots) h = (
  ap (◌∷◌ d) (entries-free_slot slots),
  packed-free_slot slots h,
  omega (arith, length-append {0} slots (none ∷ [])),
)
