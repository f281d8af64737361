-- ===== src/Money.antt =====
-- Money amounts (src/common/money/money.ts).
pub mod Rounding
pub mod Precision
use babki_back.Prelude.{
  ℕ, ◌+◌, ◌-◌, ◌/◌, ◌^◌, ◌≤◌, Bool, ltb, Option, none, some, true, arith, ◌≡◌, if◌then◌else◌,
}
use babki_back.Prelude.Int.{ℤ, pos, pos_part, neg_part, ◌+ℤ◌, times, floor_div}

-- A currency code. Codes are only compared and looked up, so they are numbers.
abbrev pub Currency : Type 0
Currency = ℕ

-- What the runtime's `Intl` knows of currencies: the codes it supports and the fraction digits of
-- each. No currency has more than four.
pub record Intl : Type 0 where
  pub supported : Currency → Bool
  pub fraction_digits : Currency → ℕ
  pub digits_le_four : (c : Currency) → fraction_digits c ≤ 4

-- Amounts are decimal numbers of at most six fraction digits, counted in units of 10 ^ -6. They are
-- exact; in the doubles of the source an amount half way between two multiples of the minor unit
-- may be a little off, so that such an amount may be rounded to either of the two.
abbrev pub Amount : Type 0
Amount = ℤ

-- `Math.round(a / s) * s`: the nearest multiple of `s`, and of two that are as near the larger.
unfoldable pub round_to : ℕ → Amount → Amount
round_to s a = times (floor_div (a +ℤ pos (s / 2)) s) s

-- The distance of two amounts.
unfoldable pub distance : Amount → Amount → ℕ
distance a b =
    let x = pos_part a + neg_part b in let y = pos_part b + neg_part a in (x - y) + (y - x)

module _ ⦃intl : Intl⦄ where
  -- One minor unit of the currency in units of 10 ^ -6, the source's `1 / factor`.
  unfoldable pub minor_unit : Currency → ℕ
  minor_unit c = 10 ^ (6 - intl.fraction_digits c)

  unfoldable pub normalize_currency : Currency → Option Currency
  normalize_currency c = if intl.supported c then some c else none

  -- The code of a document, which may be missing, where the runtime supports it.
  unfoldable pub known_currency : Option Currency → Option Currency
  unfolding normalize_currency
  known_currency none = none
  known_currency (some c) = normalize_currency c

  -- For a supported code. On another one the source throws an error that is no HTTP exception; the
  -- services raise it where they call this, by `known_currency` or `normalize_currency`.
  unfoldable pub normalize_money : Amount → Currency → Amount
  normalize_money a c = round_to (minor_unit c) a

  pub known-some :
      (o : Option Currency) (c : Currency)
      → known_currency o ≡ some c
      → (o ≡ some c) × (intl.supported c ≡ true)
  unfolding known_currency normalize_currency
  known-some none c h = cc
  known-some (some x) c h = (ground arith, ground arith)

  pub known-of :
      (o : Option Currency) (c : Currency)
      → o ≡ some c
      → intl.supported c ≡ true
      → known_currency o ≡ some c
  unfolding known_currency normalize_currency
  known-of none c h k = cc
  known-of (some x) c h k = ground arith

  -- For a supported code, too. The tolerance of the source, ten times the machine epsilon, is below
  -- one unit of 10 ^ -6.
  unfoldable pub has_valid_money_precision : Amount → Currency → Bool
  has_valid_money_precision a c = ltb (distance a (normalize_money a c)) 1
