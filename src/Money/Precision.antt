-- ===== src/Money/Precision.antt =====
-- Amounts that are exact in their currency (src/common/money/money.ts).
use native.Mathlib.Nat.{pow-suc}
use mathlib.Core.Path.{subst}
use babki_back.Prelude.{
  ℕ, suc, zero, ◌+◌, ◌-◌, ◌*◌, ◌^◌, ◌≤◌, ◌<◌, ◌≡◌, ◌↔◌, true, ltb, arith, refl,
}
use babki_back.Prelude.Int.{
  pos, pos_part, neg_part, ◌+ℤ◌, int_laws, eq_of_parts, parts_eq, times_parts, neg,
}
use babki_back.Money.{
  Currency, Amount, Intl, round_to, distance, minor_unit, normalize_money,
  has_valid_money_precision,
}
use babki_back.Money.Rounding.{
  IsMultiple, round_to_near, round_to-multiple, round_to-add, times-sub,
}

pow_pos : (k : ℕ) → 0 < 10 ^ k
pow_pos zero = omega arith
pow_pos (suc k) = rw pow-suc (omega (arith, pow_pos k))

module _ ⦃intl : Intl⦄ where
  pub minor_unit_pos : (c : Currency) → 0 < minor_unit c
  unfolding minor_unit
  minor_unit_pos c = pow_pos (6 - intl.fraction_digits c)

  -- A whole number of minor units of the currency.
  abbrev pub IsExact : Currency → Amount → Type 0
  IsExact c a = IsMultiple (minor_unit c) a

  pub normalize_money-IsExact : (a : Amount) (c : Currency) → IsExact c (normalize_money a c)
  unfolding normalize_money round_to
  normalize_money-IsExact a c = (_, refl)

  pub normalize_money_exact : (a : Amount) (c : Currency) → IsExact c a → normalize_money a c ≡ a
  unfolding normalize_money
  normalize_money_exact a c h = round_to-multiple (minor_unit c) (minor_unit_pos c) a h

  distance_zero :
      (a b : Amount)
      → ltb (distance a b) 1 ≡ true
      → pos_part b + neg_part a ≡ pos_part a + neg_part b
  unfolding distance
  distance_zero a b h = ground arith

  distance_self : (a : Amount) → ltb (distance a a) 1 ≡ true
  unfolding distance
  distance_self a = ground arith

  -- An amount has valid precision exactly when it is a whole number of minor units.
  pub valid_iff_IsExact :
      (a : Amount) (c : Currency) → (has_valid_money_precision a c ≡ true) ↔ IsExact c a
  unfolding has_valid_money_precision
  valid_iff_IsExact a c = (
    λ h.
        subst (IsExact c) (eq_of_parts _ _ (distance_zero a (normalize_money a c) h))
          (normalize_money-IsExact a c),
    λ h. rw (normalize_money_exact a c h) (distance_self a),
  )

  -- A change by a whole number of minor units shows in the normalised amount as it is.
  pub normalize_money-add :
      (a b : Amount) (c : Currency)
      → IsExact c b
      → normalize_money (a +ℤ b) c ≡ normalize_money a c +ℤ b
  unfolding normalize_money
  normalize_money-add a b c h = round_to-add (minor_unit c) (minor_unit_pos c) a b h

  pub neg-IsExact : (a : Amount) (c : Currency) → IsExact c a → IsExact c (neg a)
  neg-IsExact a c (q, e) = (
    neg q,
    omega (
      int_laws,
      parts_eq e,
      parts_eq (times-sub (pos 0) q (minor_unit c)),
      times_parts (pos 0) (minor_unit c),
    ),
  )

  -- A normalised amount is a whole number of minor units, at most half a minor unit away from the
  -- amount, and normalising it again changes nothing.
  pub normalize_money_near :
      (a : Amount) (c : Currency)
      → IsExact c (normalize_money a c)
        × (2 * distance (normalize_money a c) a ≤ minor_unit c)
        × (normalize_money (normalize_money a c) c ≡ normalize_money a c)
  unfolding normalize_money
  normalize_money_near a c = (
    normalize_money-IsExact a c,
    round_to_near (minor_unit c) (minor_unit_pos c) a,
    normalize_money_exact (normalize_money a c) c (normalize_money-IsExact a c),
  )
