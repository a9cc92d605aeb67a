-- ===== src/Udisks2/Size/Units.antt =====
-- Which unit formatSize takes, how close the shown number is, and that its loop ends.
use native.Mathlib.Nat.{
  div-add-mod, mod-lt, mul-le-mul, mul-le-mul_right, pow-suc, pow-le-pow_right, one-le-pow, div-one,
  mod-one, div-div-eq-div-mul,
}
use native.Mathlib.Decide.{dec_lt}
use sdbus_cpp_examples.Prelude.{
  ℕ, zero, suc, ◌+◌, ◌*◌, ◌/◌, ◌%◌, ◌^◌, ◌≤◌, ◌<◌, ◌≡◌, ◌⊎◌, inl, inr, refl, sym, ap, ◌∙◌, subst,
  false, ◌&&◌, if_rule, leb, ltb, arith,
}
use sdbus_cpp_examples.Udisks2.Size.{
  normalize, round_half_even, to_double, max_unit, scale_down, unit_of, hundredths,
}

-- The unit of a number: its power of 1024, which the number reaches, and the next one is not reached
-- unless the unit is the last.
abbrev pub Fits : ℕ → ℕ × ℕ → Type 0
Fits n (unit, scale) =
    (scale ≡ 1024 ^ unit)
    × (unit ≤ max_unit)
    × ((unit ≡ 0) ⊎ (scale ≤ n))
    × ((unit ≡ max_unit) ⊎ (n < 1024 * scale))

-- What the loop keeps.
abbrev Scaled : ℕ → ℕ × ℕ → Type 0
Scaled n (unit, scale) =
    (scale ≡ 1024 ^ unit) × (unit ≤ max_unit) × (1 ≤ scale) × ((unit ≡ 0) ⊎ (scale ≤ n))

scale_down-Fits :
    (n fuel unit scale : ℕ)
    → Scaled n (unit, scale)
    → max_unit ≤ unit + fuel
    → Fits n (scale_down n fuel (unit, scale))
unfolding scale_down
scale_down-Fits n zero unit scale (p, le, s, r) h = (p, le, r, inl (omega arith))
scale_down-Fits n (suc fuel) unit scale (p, le, s, r) h =
    if_rule (Fits n) (leb (1024 * scale) n && ltb unit max_unit && ltb 0 n) _ _
      (λ e.
        scale_down-Fits n fuel (suc unit) (1024 * scale)
          (omega (arith, pow-suc 1024 unit), ground arith, omega arith, ground arith) (omega arith))
      (λ e. (p, le, r, ground arith))

abbrev pub Near : ℕ → ℕ → ℕ → Type 0
Near a b q = (2 * a ≤ (2 * q + 1) * b) × (2 * q * b ≤ 2 * a + b)

-- Twice the distance from the quotient is at most one unit.
round_half_even-Near : (a b : ℕ) → 0 < b → Near a b (round_half_even a b)
unfolding round_half_even
round_half_even-Near a b h =
    let w = div-add-mod a b in
    let r = mod-lt a h in
    let e : a / b % 2 ≤ 1 = omega (arith, mod-lt (a / b) {m = 2} (omega arith)) in
    let tie : a / b % 2 * b ≤ b = omega (arith, mul-le-mul_right b e) in
    if_rule (Near a b) (ltb (2 * (a % b)) b) _ _ (λ t. (ground arith, ground arith))
      (λ t.
        if_rule (Near a b) (ltb b (2 * (a % b))) _ _ (λ t. (ground arith, ground arith))
          (λ t'. (ground arith, ground arith)))

round_half_even-ge : (a b : ℕ) → a / b ≤ round_half_even a b
unfolding round_half_even
round_half_even-ge a b = ground arith

-- A number of at most 53 bits is a double.
to_double-exact : (n : ℕ) → n < 9007199254740992 → to_double n ≡ n
unfolding to_double normalize round_half_even
to_double-exact n h = ground (arith, div-one n, mod-one n)

abbrev Normalized : ℕ → ℕ × ℕ → Type 0
Normalized n (mantissa, power) =
    (4503599627370496 ≤ mantissa) × (1 ≤ power) × (mantissa ≡ n / power)

normalize-Normalized :
    (n fuel mantissa power : ℕ)
    → Normalized n (mantissa, power)
    → Normalized n (normalize fuel (mantissa, power))
unfolding normalize
normalize-Normalized n zero mantissa power h = h
normalize-Normalized n (suc fuel) mantissa power (m, p, e) =
    if_rule (Normalized n) (ltb mantissa 9007199254740992) _ _ (λ _. (m, p, e))
      (λ q.
        normalize-Normalized n fuel (mantissa / 2) (power * 2)
          (ground arith, omega arith, ap (λ k. k / 2) e ∙ div-div-eq-div-mul n power 2))

to_double-large : (n : ℕ) → 9007199254740992 ≤ n → 4503599627370496 ≤ to_double n
unfolding to_double
to_double-large n h =
    let d = normalize 11 (n, 1) in
    let (m, p, e) = normalize-Normalized n 11 n 1 (omega arith, omega arith, sym (div-one n)) in
    omega (arith, round_half_even-ge n d.1, mul-le-mul p (round_half_even-ge n d.1))

large-Fits :
    (bytes n : ℕ) (state : ℕ × ℕ)
    → Fits n state
    → 4503599627370496 ≤ n
    → 9007199254740992 ≤ bytes
    → Fits bytes state
large-Fits bytes n (unit, scale) (p, le, r, inl last) hn hb =
    (p, le, inr (omega (arith, p ∙ ap (◌^◌ 1024) last)), inl last)
large-Fits bytes n (unit, scale) (p, le, r, inr small) hn hb = elim (dec_lt unit max_unit) [
  | yes below ↦ absurd (
      let power = pow-le-pow_right {n = 1024} (omega arith) {i = unit} {j = 3} (omega arith) in
      omega (arith, p))
  | no last ↦
      let u : unit ≡ max_unit = omega arith in
      (p, le, inr (omega (arith, p ∙ ap (◌^◌ 1024) u)), inl u)
]

-- For every number of bytes the unit is at most TB, the number reaches the unit, unless that is B,
-- and stays below the next one, unless the unit is TB.
pub unit_of-Fits : (bytes : ℕ) → Fits bytes (unit_of bytes)
unfolding unit_of
unit_of-Fits bytes =
    let fits =
      scale_down-Fits (to_double bytes) max_unit 0 1 (refl, omega arith, omega arith, inl refl)
        (omega arith) in
    elim (dec_lt bytes 9007199254740992) [
      | yes small ↦ subst (λ n. Fits n (unit_of bytes)) (to_double-exact bytes small) fits
      | no large ↦
          large-Fits bytes (to_double bytes) _ fits (to_double-large bytes (omega arith))
            (omega arith)
    ]

-- The number that formatSize shows, in hundredths of its unit, is the number of bytes rounded to the
-- nearest hundredth, for every number of bytes below 2^53.
pub hundredths-Near :
    (bytes : ℕ) → bytes < 9007199254740992 → Near (100 * bytes) (unit_of bytes).1 (hundredths bytes)
unfolding hundredths
hundredths-Near bytes h =
    subst (λ n. Near (100 * n) (unit_of bytes).1 (hundredths bytes)) (to_double-exact bytes h)
      (round_half_even-Near (100 * to_double bytes) (unit_of bytes).1 (
        let (p, le, r, t) = unit_of-Fits bytes in
        rw p (one-le-pow (unit_of bytes).0 1024 (omega arith))))

scale_down_last :
    (n k unit scale : ℕ) → max_unit ≤ unit → scale_down n k (unit, scale) ≡ (unit, scale)
unfolding scale_down
scale_down_last n zero unit scale h = refl
scale_down_last n (suc k) unit scale h = ground arith

scale_down-more :
    (n fuel k unit scale : ℕ)
    → max_unit ≤ unit + fuel
    → scale_down n (fuel + k) (unit, scale) ≡ scale_down n fuel (unit, scale)
unfolding scale_down
scale_down-more n zero k unit scale h =
    ap (λ m. scale_down n m (unit, scale)) (omega arith)
    ∙ scale_down_last n k unit scale (omega arith)
scale_down-more n (suc fuel) k unit scale h =
    let step : suc fuel + k ≡ suc (fuel + k) = omega arith in
    rw step (ground (arith, scale_down-more n fuel k (suc unit) (1024 * scale)))

-- The loop of formatSize ends by itself within four rounds: more rounds leave its state as it is, and
-- its condition is false there.
pub scale_down-ends :
    (n k : ℕ)
    → let (unit, scale) = scale_down n max_unit (0, 1) in
      (scale_down n (max_unit + k) (0, 1) ≡ (unit, scale))
      × ((leb (1024 * scale) n && ltb unit max_unit && ltb 0 n) ≡ false)
scale_down-ends n k =
    let (p, le, r, s) =
      scale_down-Fits n max_unit 0 1 (refl, omega arith, omega arith, inl refl) (omega arith) in
    (scale_down-more n max_unit k 0 1 (omega arith), ended n _ s)
  where
    ended :
        (n : ℕ) (state : ℕ × ℕ)
        → (state.0 ≡ max_unit) ⊎ (n < 1024 * state.1)
        → (leb (1024 * state.1) n && ltb state.0 max_unit && ltb 0 n) ≡ false
    ended n (unit, scale) h = ground arith
