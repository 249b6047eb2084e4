-- ===== src/LinkLayer/ChannelSelection/Phase.antt =====
-- The phase of `ChannelSelection1`: what a new map leaves alone, and how the hops cover the map.
use ch58x_hal.Base.{
  ℕ, zero, suc, ◌+◌, ◌-◌, ◌*◌, ◌%◌, ◌≤◌, ◌<◌, ◌≡◌, inl, inr, refl, sym, ap, subst, ◌∙◌,
}
use ch58x_hal.Base.{arith, true, List, [], ◌∷◌, replicate}
use ch58x_hal.Base.{Bool-cases, ok, ap₂}
use native.Mathlib.Nat.{suc-mul}
use ch58x_hal.Radio.{Error, Channel}
use ch58x_hal.Radio
use ch58x_hal.LinkLayer.ControlPdu.{data_channel_map_is_valid}
use ch58x_hal.LinkLayer.ChannelSelection.{
  ChannelSelection1, is_used, unmapped_channel, mapped_channel, next_channel, update_map,
}
use ch58x_hal.LinkLayer.ChannelSelection.Selection.{
  IsSelector, Call, select, replace, after, Radio-new_below,
}

-- The events in a sequence of calls.
abbrev pub events : List Call → ℕ
events [] = 0
events (select ∷ cs) = suc (events cs)
events (replace map ∷ cs) = events cs

update_map_phase :
    (s : ChannelSelection1) (map : List ℕ)
    → ((update_map s map).0.last_unmapped ≡ s.last_unmapped) × ((update_map s map).0.hop ≡ s.hop)
unfolding update_map
update_map_phase s map = elim (Bool-cases (data_channel_map_is_valid map)) [
  | inl v ↦ (simp v, simp v)
  | inr v ↦ (simp v, simp v)
]

-- Whatever maps are put in between, `n` events move the unmapped channel by `n` hops, modulo 37.
pub after_phase :
    (cs : List Call) (s : ChannelSelection1)
    → s.last_unmapped < 37
    → (after s cs).last_unmapped ≡ (s.last_unmapped + events cs * s.hop) % 37
unfolding next_channel
after_phase [] s lt = omega arith
after_phase (select ∷ cs) s lt =
    after_phase cs (next_channel s).0 (omega arith) ∙ omega (arith, suc-mul (events cs) s.hop)
after_phase (replace map ∷ cs) s lt =
    let kept = update_map_phase s map in
    after_phase cs (update_map s map).0 (omega (arith, kept.0))
    ∙ ap₂ (λ (l h : ℕ). (l + events cs * h) % 37) kept.0 kept.1

-- A hop is invertible modulo 37: every channel is reached within 37 hops.
reach_from :
    (n l c : ℕ) → n < 12 → l < 37 → c < 37 → (k : ℕ) × (k < 37) × ((l + suc k * (n + 5)) % 37 ≡ c)
reach_from zero l c p ll lc = (((c + 37 - l) * 15 + 36) % 37, omega arith, omega arith)
reach_from (suc zero) l c p ll lc = (((c + 37 - l) * 31 + 36) % 37, omega arith, omega arith)
reach_from (suc (suc zero)) l c p ll lc = (((c + 37 - l) * 16 + 36) % 37, omega arith, omega arith)
reach_from (suc (suc (suc zero))) l c p ll lc =
    (((c + 37 - l) * 14 + 36) % 37, omega arith, omega arith)
reach_from (suc (suc (suc (suc zero)))) l c p ll lc =
    (((c + 37 - l) * 33 + 36) % 37, omega arith, omega arith)
reach_from (suc (suc (suc (suc (suc zero))))) l c p ll lc =
    (((c + 37 - l) * 26 + 36) % 37, omega arith, omega arith)
reach_from (suc (suc (suc (suc (suc (suc zero)))))) l c p ll lc =
    (((c + 37 - l) * 27 + 36) % 37, omega arith, omega arith)
reach_from (suc (suc (suc (suc (suc (suc (suc zero))))))) l c p ll lc =
    (((c + 37 - l) * 34 + 36) % 37, omega arith, omega arith)
reach_from (suc (suc (suc (suc (suc (suc (suc (suc zero)))))))) l c p ll lc =
    (((c + 37 - l) * 20 + 36) % 37, omega arith, omega arith)
reach_from (suc (suc (suc (suc (suc (suc (suc (suc (suc zero))))))))) l c p ll lc =
    (((c + 37 - l) * 8 + 36) % 37, omega arith, omega arith)
reach_from (suc (suc (suc (suc (suc (suc (suc (suc (suc (suc zero)))))))))) l c p ll lc =
    (((c + 37 - l) * 5 + 36) % 37, omega arith, omega arith)
reach_from (suc (suc (suc (suc (suc (suc (suc (suc (suc (suc (suc zero))))))))))) l c p ll lc =
    (((c + 37 - l) * 7 + 36) % 37, omega arith, omega arith)
reach_from n l c p ll lc = absurd (omega arith)

reach :
    (h l c : ℕ) → 5 ≤ h → h ≤ 16 → l < 37 → c < 37 → (k : ℕ) × (k < 37) × ((l + suc k * h) % 37 ≡ c)
reach h l c p q ll lc =
    let r = reach_from (h - 5) l c (omega arith) ll lc in
    (r.0, r.1, ap (λ (g : ℕ). (l + suc r.0 * g) % 37) (omega arith) ∙ r.2)

after_selects :
    (k : ℕ) (s : ChannelSelection1)
    → ((after s (replicate k select)).map ≡ s.map)
      × ((after s (replicate k select)).hop ≡ s.hop)
      × (events (replicate k select) ≡ k)
unfolding next_channel
after_selects zero s = (refl, refl, refl)
after_selects (suc k) s =
    let rest = after_selects k (next_channel s).0 in (rest.0, rest.1, ap suc rest.2)

mapped_channel_used :
    (s : ChannelSelection1) (c : ℕ)
    → unmapped_channel s ≡ c
    → is_used s.map c ≡ true
    → mapped_channel s ≡ c
mapped_channel_used s c e u = if_used (subst (λ (d : ℕ). is_used s.map d ≡ true) (sym e) u) ∙ e
  where
    if_used : is_used s.map (unmapped_channel s) ≡ true → mapped_channel s ≡ unmapped_channel s
    if_used v = simp v

-- With an unchanged map, each of its channels is selected in one of any 37 consecutive events.
pub every_channel_selected :
    (s : ChannelSelection1) (c : ℕ)
    → IsSelector s
    → c < 37
    → is_used s.map c ≡ true
    → (k : ℕ) × (k < 37)
      × ((next_channel (after s (replicate k select))).1 ≡ ok (record { index = c }))
unfolding next_channel
every_channel_selected s c h lt u =
    let r = reach s.hop s.last_unmapped c h.hop_ge h.hop_le h.phase lt in
    let t = after s (replicate r.0 select) in
    let same = after_selects r.0 s in
    (
      r.0,
      r.1,
      ap Radio.new (
            mapped_channel_used t c (unmapped r.0 r.2)
              (subst (λ (m : List ℕ). is_used m c ≡ true) (sym same.0) u))
          ∙ Radio-new_below c lt,
    )
  where
    unmapped :
        (k : ℕ)
        → (s.last_unmapped + suc k * s.hop) % 37 ≡ c
        → unmapped_channel (after s (replicate k select)) ≡ c
    unmapped k e =
        let same = after_selects k s in
        ap₂ (λ (l n : ℕ). (l + n) % 37) (after_phase (replicate k select) s h.phase) same.1
        ∙ ap (λ (n : ℕ). ((s.last_unmapped + n * s.hop) % 37 + s.hop) % 37) same.2
        ∙ omega (arith, suc-mul k s.hop, e)
