-- ===== src/Money/Rounding.antt =====
-- Rounding to multiples of a step (src/common/money/money.ts, `normalizeMoney`).
use native.Mathlib.Nat.{div-add-mod, mod-lt, mul-le-mul_right}
use babki_back.Prelude.{ℕ, ◌*◌, ◌/◌, ◌≤◌, ◌<◌, ◌≡◌, arith, ap, sym, inl, inr}
use babki_back.Money.{round_to, distance}
use babki_back.Prelude.Int.{
  leb_ℤ-cases, parts_eq, ℤ, pos, negsuc, ◌+ℤ◌, ◌-ℤ◌, ◌≤ℤ◌, times, floor_div, int_laws, times_parts,
  +ℤ_parts, -ℤ_parts,
}

pub floor_div_bounds :
    (a : ℤ) (k : ℕ)
    → 0 < k
    → (times (floor_div a k) k ≤ℤ a) × (a +ℤ pos 1 ≤ℤ times (floor_div a k) k +ℤ pos k)
unfolding floor_div times ◌+ℤ◌
floor_div_bounds (pos n) k h = grind (arith, div-add-mod, mod-lt)
floor_div_bounds (negsuc n) k h = grind (arith, div-add-mod, mod-lt)

pub times_mono : (a b : ℤ) (k : ℕ) → a ≤ℤ b → times a k ≤ℤ times b k
times_mono a b k h = omega (arith, times_parts a k, times_parts b k, mul-le-mul_right k h)

pub times-add : (a b : ℤ) (k : ℕ) → times (a +ℤ b) k ≡ times a k +ℤ times b k
times-add a b k = omega (int_laws, times_parts, ap (λ (t : ℕ). t * k) (+ℤ_parts a b))

pub times-sub : (a b : ℤ) (k : ℕ) → times (a -ℤ b) k ≡ times a k -ℤ times b k
times-sub a b k = omega (int_laws, times_parts, ap (λ (t : ℕ). t * k) (-ℤ_parts a b))

-- A whole number of steps.
abbrev pub IsMultiple : ℕ → ℤ → Type 0
IsMultiple s a = (q : ℤ) × (a ≡ times q s)

times_one_more : (q : ℤ) (k : ℕ) → times (q +ℤ pos 1) k ≡ times q k +ℤ pos k
times_one_more q k = omega (int_laws, parts_eq (times-add q (pos 1) k), times_parts (pos 1) k)

-- There is one multiple that is at most `a` and less than a step below it.
step_le : (p q a : ℤ) (k : ℕ) → times p k ≤ℤ a → a +ℤ pos 1 ≤ℤ times q k +ℤ pos k → p ≤ℤ q
step_le p q a k lo hi = elim (leb_ℤ-cases p q) [
  | inl h ↦ h
  | inr h ↦ absurd (omega (int_laws, times_mono (q +ℤ pos 1) p k h, parts_eq (times_one_more q k)))
]

floor_div_unique :
    (q a : ℤ) (k : ℕ)
    → 0 < k
    → times q k ≤ℤ a
    → a +ℤ pos 1 ≤ℤ times q k +ℤ pos k
    → floor_div a k ≡ q
floor_div_unique q a k pk lo hi =
    let (flo, fhi) = floor_div_bounds a k pk in
    omega (int_laws, step_le q (floor_div a k) a k lo fhi, step_le (floor_div a k) q a k flo hi)

module _ (s : ℕ) (ps : 0 < s) where
  -- Rounding moves an amount by half a step at most.
  pub round_to_near : (a : ℤ) → 2 * distance (round_to s a) a ≤ s
  unfolding round_to distance
  round_to_near a = omega (int_laws, floor_div_bounds (a +ℤ pos (s / 2)) s ps)

  -- A multiple is left alone.
  pub round_to-multiple : (a : ℤ) → IsMultiple s a → round_to s a ≡ a
  unfolding round_to
  round_to-multiple a (q, e) =
      rw
        (floor_div_unique q (a +ℤ pos (s / 2)) s ps (omega (int_laws, parts_eq e))
          (omega (int_laws, parts_eq e)))
        (sym e)

  -- Rounding commutes with whole steps.
  pub round_to-add : (a b : ℤ) → IsMultiple s b → round_to s (a +ℤ b) ≡ round_to s a +ℤ b
  unfolding round_to
  round_to-add a b (p, e) =
      let h : ℤ = a +ℤ pos (s / 2) in
      let q : ℤ = floor_div h s in
      let bounds = floor_div_bounds h s ps in
      let moved : floor_div (a +ℤ b +ℤ pos (s / 2)) s ≡ q +ℤ p =
        floor_div_unique (q +ℤ p) (a +ℤ b +ℤ pos (s / 2)) s ps
          (omega (int_laws, bounds, parts_eq (times-add q p s), parts_eq e))
          (omega (int_laws, bounds, parts_eq (times-add q p s), parts_eq e)) in
      rw (moved, times-add, e)
