-- ===== src/Backend/Commands/Structures.antt =====
-- `set_advertising_data`: what the loop over the encoded structures copies.
use ch58x_hal.Base.{ℕ, zero, suc, ◌+◌, ◌-◌, ◌≤◌, ◌≡◌, ◌⊎◌, inl, inr, refl, sym, ap, subst, ◌∙◌}
use ch58x_hal.Base.{arith, true, false, List, [], ◌∷◌, ◌++◌, length, at, take, drop}
use ch58x_hal.Base.{
  length-take, length-drop, ltb, ◌==◌, Result, ok, err, Bool-cases, if_of_false, if_of_true, ◌!=◌,
  ◌||◌,
}
use mathlib.Core.List.{append_assoc, append-nil}
use ch58x_hal.Radio.{Error}
use ch58x_hal.Advertising.Legacy.{AdvertisingData, push, as_bytes}
use ch58x_hal.Advertising.Legacy
use ch58x_hal.Advertising.Data.{IsData, new-IsData, push_cases, as_bytes-push}
use ch58x_hal.Backend.Connection.{hci_invalid_parameters}
use ch58x_hal.Backend.Commands.{replace_data, pushed, copy_structures, set_advertising_data}

take_nil : (n : ℕ) → take {A = ℕ} n [] ≡ []
take_nil zero = refl
take_nil (suc n) = refl

take_add : (a b : ℕ) (xs : List ℕ) → take (a + b) xs ≡ take a xs ++ take b (drop a xs)
take_add zero b xs = ap (λ (n : ℕ). take n xs) {x = zero + b} {y = b} (omega arith)
take_add (suc a) b [] = take_nil (suc a + b) ∙ sym (take_nil b)
take_add (suc a) b (x ∷ xs) =
    ap (λ (n : ℕ). take n (x ∷ xs)) {x = suc a + b} {y = suc (a + b)} (omega arith)
    ∙ ap (◌∷◌ x) (take_add a b xs)

-- `k` octets of whole structures, up to the end or to the first empty one.
pub data Encoded : List ℕ → ℕ → Type 0 where
  at_end : Encoded [] 0
  at_empty : {rest : List ℕ} → Encoded (0 ∷ rest) 0
  structure :
      {m : ℕ} {rest : List ℕ} {k : ℕ}
      → suc m ≤ length rest
      → Encoded (drop (suc m) rest) k
      → Encoded (suc m ∷ rest) (suc (suc m) + k)

-- What a list that begins with a structure says.
abbrev Begins : List ℕ → Type 0
Begins (suc m ∷ rest) = (suc m ≤ length rest) × (j : ℕ) × Encoded (drop (suc m) rest) j
Begins _ = Unit {0}

Encoded-Begins : (xs : List ℕ) (k : ℕ) → Encoded xs k → Begins xs
Encoded-Begins xs k at_end = tt
Encoded-Begins xs k at_empty = tt
Encoded-Begins xs k (structure {k = j} le e) = (le, j, e)

copy-skipped :
    (n : ℕ) (xs : List ℕ) (d : AdvertisingData)
    → copy_structures n xs d ≡ copy_structures 0 (drop n xs) d
unfolding copy_structures
copy-skipped zero xs d = refl
copy-skipped (suc n) [] d = refl
copy-skipped (suc n) (x ∷ xs) d = copy-skipped n xs d

-- The whole structures stand behind those of `d`, or the list is no sequence of structures.
abbrev Copied : AdvertisingData → List ℕ → Result AdvertisingData ℕ → Type 0
Copied d rest (ok r) = (k : ℕ) × Encoded rest k × (as_bytes r ≡ as_bytes d ++ take k rest)
Copied d rest (err e) = (e ≡ hci_invalid_parameters) × ((k : ℕ) → ¬ Encoded rest k)

-- One structure of `suc m` octets behind its length, and what is copied after it.
Copied-next :
    (m t : ℕ) (v : List ℕ) (d e : AdvertisingData)
    → m ≤ length v
    → as_bytes e ≡ as_bytes d ++ (suc m ∷ t ∷ take m v)
    → (result : Result AdvertisingData ℕ) → Copied e (drop m v) result
    → Copied d (suc m ∷ t ∷ v) result
Copied-next m t v d e le same (err code) (c, refused) =
    (c, λ k encoded. let b = Encoded-Begins (suc m ∷ t ∷ v) k encoded in refused b.1 b.2)
Copied-next m t v d e le same (ok r) (k, encoded, items) = (
  suc (suc m) + k,
  structure (omega (arith, le)) encoded,
  items
      ∙ ap (λ (xs : List ℕ). xs ++ take k (drop m v)) same
      ∙ append_assoc (as_bytes d) (suc m ∷ t ∷ take m v) (take k (drop m v))
      ∙ ap (λ (xs : List ℕ). as_bytes d ++ xs) (sym (take_add (suc (suc m)) k (suc m ∷ t ∷ v))),
)

pushed-Copied :
    (next : AdvertisingData → Result AdvertisingData ℕ) (m t : ℕ) (v : List ℕ) (d : AdvertisingData)
    → IsData d
    → m ≤ length v
    → d.len + (2 + length v) ≤ 31
    → ((e : AdvertisingData) → IsData e → e.len ≡ d.len + (m + 2) → Copied e (drop m v) (next e))
    → Copied d (suc m ∷ t ∷ v) (pushed next (push d t (take m v)))
pushed-Copied next m t v d i le room after = elim (as_bytes-push d t (take m v) i) [
  | inr (full, e) ↦ absurd (omega (arith, full, length-take m v, room, le))
  | inl (fits, o, items, j) ↦ elim (push_cases d t (take m v) i) [
    | inl (full, e) ↦ absurd (omega (arith, full, fits))
    | inr (f, e) ↦ accepted (push d t (take m v)) o items j (
        ap (λ (p : AdvertisingData × Result (Unit {0}) Error). p.0.len) e
        ∙ omega (arith, length-take m v, le))
  ]
]
  where
    accepted :
        (p : AdvertisingData × Result (Unit {0}) Error)
        → p.1 ≡ ok tt
        → as_bytes p.0 ≡ as_bytes d ++ ((length (take m v) + 1) ∷ t ∷ take m v)
        → IsData p.0
        → p.0.len ≡ d.len + (m + 2)
        → Copied d (suc m ∷ t ∷ v) (pushed next p)
    accepted (e, err code) o items j l = cc
    accepted (e, ok done) o items j l =
        Copied-next m t v d e le
          (items
            ∙ ap (λ (n : ℕ). as_bytes d ++ (n ∷ t ∷ take m v)) {x = length (take m v) + 1}
                {y = suc m} (omega (arith, length-take m v, le)))
          (next e) (after e j l)

module _ (m : ℕ) (xs : List ℕ) (d : AdvertisingData) where
  copy-short :
      ltb (length xs) (suc m) ≡ true → copy_structures 0 (suc m ∷ xs) d ≡ err hci_invalid_parameters
  unfolding copy_structures
  copy-short e = ground (arith, e)

  copy-next :
      ltb (length xs) (suc m) ≡ false
      → copy_structures 0 (suc m ∷ xs) d
        ≡ pushed (copy_structures (suc m) xs) (push d (at xs 0) (take (suc m - 1) (drop 1 xs)))
  unfolding copy_structures
  copy-next e = simp e (if_of_false (suc m == 0) _ _ (ground arith))

  short-Copied :
      ltb (length xs) (suc m) ≡ true → Copied d (suc m ∷ xs) (copy_structures 0 (suc m ∷ xs) d)
  short-Copied e =
      subst (Copied d (suc m ∷ xs)) (sym (copy-short e))
        (refl, λ k encoded. let b = Encoded-Begins (suc m ∷ xs) k encoded in ground (arith, e, b.0))

copy_structures-Copied :
    (bound : ℕ) (rest : List ℕ) (d : AdvertisingData)
    → IsData d
    → length rest ≤ bound
    → d.len + length rest ≤ 31
    → Copied d rest (copy_structures 0 rest d)
unfolding copy_structures
copy_structures-Copied bound [] d i le room = (0, at_end, sym (append-nil (as_bytes d)))
copy_structures-Copied zero (len ∷ rest) d i le room = absurd (omega arith)
copy_structures-Copied (suc bound) (zero ∷ rest) d i le room =
    (0, at_empty, sym (append-nil (as_bytes d)))
copy_structures-Copied (suc bound) (suc m ∷ []) d i le room = short-Copied m [] d (ground arith)
copy_structures-Copied (suc bound) (suc m ∷ t ∷ v) d i le room =
    elim (Bool-cases (ltb (length (t ∷ v)) (suc m))) [
      | inl e ↦ short-Copied m (t ∷ v) d e
      | inr e ↦
          subst (Copied d (suc m ∷ t ∷ v))
            (sym (
              copy-next m (t ∷ v) d e
              ∙ ap (λ (n : ℕ). pushed (copy_structures m v) (push d t (take n v))) {x = suc m - 1}
                  {y = m} (omega arith)))
            (pushed-Copied (copy_structures m v) m t v d i (ground (arith, e)) (omega (arith, room))
              λ f j l. subst (Copied f (drop m v)) (sym (copy-skipped m v f)) (
                copy_structures-Copied bound (drop m v) f j (omega (arith, le, length-drop m v))
                  (omega (arith, room, l, length-drop m v, length_le e))))
    ]
  where
    length_le : ltb (length (t ∷ v)) (suc m) ≡ false → m ≤ length v
    length_le e = ground (arith, e)

-- The octets that the host gave: the first says how many of the 31 behind it are in use.
abbrev pub given : List ℕ → List ℕ
given params = take (at params 0) (drop 1 params)

-- The parameters hold `k` octets of whole structures.
abbrev pub IsWellFormed : List ℕ → ℕ → Type 0
IsWellFormed params k = (length params ≡ 32) × (at params 0 ≤ 31) × Encoded (given params) k

-- What the command leaves in place of `target`.
abbrev pub Taken : AdvertisingData → List ℕ → AdvertisingData × Result (List ℕ) ℕ → Type 0
Taken target params result =
    ((k : ℕ) × IsWellFormed params k
      × (result.1 ≡ ok [])
      × (as_bytes result.0 ≡ take k (given params)))
    ⊎ (((k : ℕ) → ¬ IsWellFormed params k) × (result ≡ (target, err hci_invalid_parameters)))

module _ (target : AdvertisingData) (params : List ℕ) where
  replaced-Taken :
      length params ≡ 32
      → at params 0 ≤ 31
      → (r : Result AdvertisingData ℕ) → Copied Legacy.new (given params) r
      → Taken target params (replace_data target r)
  unfolding Legacy.new as_bytes
  replaced-Taken size few (ok r) (k, encoded, items) = inl (k, (size, few, encoded), refl, items)
  replaced-Taken size few (err e) (same, refused) =
      inr ((λ k w. refused k w.2), ap (λ (code : ℕ). (target, err code)) same)

  -- HCI_LE_Set_Advertising_Data and its scan response twin. If the 32 parameters hold at most 31
  -- octets that are a sequence of whole structures, up to the end or to the first empty one, the
  -- command succeeds and the data in use is then exactly these structures; otherwise it returns an
  -- error, and the old data stays.
  pub set_advertising_data_copies : Taken target params (set_advertising_data target params)
  unfolding set_advertising_data Legacy.new
  set_advertising_data_copies = elim (Bool-cases (length params != 32 || ltb 31 (at params 0))) [
    | inl e ↦
        subst (Taken target params)
          (sym (if_of_true (length params != 32 || ltb 31 (at params 0)) _ _ e))
          (inr ((λ k w. ground (arith, e, w.0, w.1)), refl))
    | inr e ↦
        subst (Taken target params)
          (sym (if_of_false (length params != 32 || ltb 31 (at params 0)) _ _ e))
          (replaced-Taken (ground (arith, e)) (ground (arith, e))
            (copy_structures 0 (given params) Legacy.new)
            (copy_structures-Copied (length (given params)) (given params) Legacy.new new-IsData
              (omega arith) (room (ground (arith, e)))))
  ]
    where
      room : at params 0 ≤ 31 → Legacy.new.len + length (given params) ≤ 31
      room few = omega (arith, few, length-take (at params 0) (drop 1 params))
