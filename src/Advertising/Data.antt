-- ===== src/Advertising/Data.antt =====
-- `AdvertisingData`: the fields stand one behind the other, and a refused one leaves no trace.
use ch58x_hal.Base.{ℕ, suc, ◌+◌, ◌≤◌, ◌<◌, ◌≡◌, ◌⊎◌, inl, inr, refl, sym, ap, subst, ◌∙◌}
use ch58x_hal.Base.{arith, List, [], ◌∷◌, ◌++◌, length, take, set, u8}
use ch58x_hal.Base.{length-set, Result, ok, err}
use mathlib.Core.List.{append_assoc}
use ch58x_hal.Radio.{Error, invalid_packet}
use ch58x_hal.Advertising.Legacy.{AdvertisingData, new, push, as_bytes, write_at}
use ch58x_hal.Advertising.Slices.{length-write_at, take-write_at, take-set}

pub record IsData (d : AdvertisingData) : Type 0 where
  pub size : length d.bytes ≡ 31
  pub len_le : d.len ≤ 31

pub new-IsData : IsData new
unfolding new
new-IsData = record { size = refl; len_le = omega arith }

abbrev stored : AdvertisingData → ℕ → List ℕ → List ℕ
stored d ad_type value =
    write_at (set (set d.bytes d.len (u8 (length value + 1))) (d.len + 1) ad_type) (d.len + 2) value

module _ (d : AdvertisingData) (ad_type : ℕ) (value : List ℕ) (h : IsData d) where
  pub push_cases :
      ((31 < d.len + (length value + 2)) × (push d ad_type value ≡ (d, err invalid_packet)))
      ⊎ ((d.len + (length value + 2) ≤ 31)
          × (push d ad_type value ≡ (
            record { bytes = stored d ad_type value; len = d.len + (length value + 2) },
            ok tt,
          )))
  unfolding push
  push_cases = ground (arith, h.size)

  as_bytes-stored :
      d.len + (length value + 2) ≤ 31
      → take (d.len + (length value + 2)) (stored d ad_type value)
        ≡ take d.len d.bytes ++ (u8 (length value + 1) ∷ ad_type ∷ value)
  as_bytes-stored le =
      take-write_at (set (set d.bytes d.len n) (d.len + 1) ad_type) (d.len + 2) value
        (d.len + (length value + 2)) (omega arith)
        (omega (
          arith,
          h.size,
          length-set (set d.bytes d.len n) (d.len + 1) ad_type,
          length-set d.bytes d.len n,
        ))
      ∙ ap (λ (xs : List ℕ). xs ++ value) two_stored
      ∙ append_assoc (take d.len d.bytes) (n ∷ ad_type ∷ []) value
    where
      n : ℕ
      n = u8 (length value + 1)

      two_stored :
          take (d.len + 2) (set (set d.bytes d.len n) (d.len + 1) ad_type)
          ≡ take d.len d.bytes ++ (n ∷ ad_type ∷ [])
      two_stored =
          ap (λ (k : ℕ). take k (set (set d.bytes d.len n) (d.len + 1) ad_type))
            {y = suc (d.len + 1)} (omega arith)
          ∙ take-set (set d.bytes d.len n) (d.len + 1) ad_type
              (omega (arith, h.size, length-set d.bytes d.len n))
          ∙ ap (λ (xs : List ℕ). xs ++ (ad_type ∷ []))
              (ap (λ (k : ℕ). take k (set d.bytes d.len n)) {y = suc d.len} (omega arith)
                ∙ take-set d.bytes d.len n (omega (arith, h.size)))
          ∙ append_assoc (take d.len d.bytes) (n ∷ []) (ad_type ∷ [])

  -- A field is stored if and only if its two octets and its value fit the 31 octets; then the octets
  -- of the data are the old ones, the length of the field without its own octet, the type and the
  -- value, and the data is well-formed. Otherwise the data is unchanged and an error is returned.
  pub as_bytes-push :
      ((d.len + (length value + 2) ≤ 31)
        × ((push d ad_type value).1 ≡ ok tt)
        × (as_bytes (push d ad_type value).0 ≡ as_bytes d ++ ((length value + 1) ∷ ad_type ∷ value))
        × IsData (push d ad_type value).0)
      ⊎ ((31 < d.len + (length value + 2)) × (push d ad_type value ≡ (d, err invalid_packet)))
  unfolding as_bytes
  as_bytes-push = elim push_cases [
    | inl refused ↦ inr refused
    | inr kept ↦
        let after = ap (λ (o : AdvertisingData × Result (Unit {0}) Error). o.0) kept.1 in
        inl (
          kept.0,
          ap (λ (o : AdvertisingData × Result (Unit {0}) Error). o.1) kept.1,
          ap (λ (a : AdvertisingData). take a.len a.bytes) after
              ∙ as_bytes-stored kept.0
              ∙ ap (λ (k : ℕ). take d.len d.bytes ++ (k ∷ ad_type ∷ value)) (omega (arith, kept.0)),
          subst IsData (sym after) (record {
            size =
                length-write_at
                  (set (set d.bytes d.len (u8 (length value + 1))) (d.len + 1) ad_type) (d.len + 2)
                  value
                ∙ length-set (set d.bytes d.len (u8 (length value + 1))) (d.len + 1) ad_type
                ∙ length-set d.bytes d.len (u8 (length value + 1))
                ∙ h.size;
            len_le = kept.0;
          }),
        )
  ]
