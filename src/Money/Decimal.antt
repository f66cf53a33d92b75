-- ===== src/Money/Decimal.antt =====
-- An instance of float64 that computes: NaN, an infinity, and the decimals with two places,
-- rounded towards zero. It shows that the hypotheses about money can hold.
use hom_swag_reporting.Base.{
  magnitude, ℕ, ◌+◌, ◌*◌, ◌/◌, ℤ, pos, negsuc, magnitude, sub_ℕ, ltb_ℤ, eqb_ℤ, ◌+ℤ◌, ◌-ℤ◌, Bool,
  true, false, ◌||◌, if◌then◌else◌, ◌≡◌, arith,
}
use hom_swag_reporting.Money.{Float64, money_to_paise}

pub data Decimal : Type 0 where
  nan infinite : Decimal
  hundredths : ℤ → Decimal

-- A quotient or product is taken on magnitudes, and given its sign back.
unfoldable pub signed : Bool → ℕ → ℤ
signed negative n = if negative then sub_ℕ 0 n else pos n

unfoldable pub is_negative : ℤ → Bool
is_negative (pos n) = false
is_negative (negsuc n) = true

unfoldable pub xor : Bool → Bool → Bool
xor true b = if b then false else true
xor false b = b

-- x * y / 100 and x * 100 / y on hundredths; nothing here is divided by 0.
unfoldable pub times : ℤ → ℤ → ℤ
times x y = signed (xor (is_negative x) (is_negative y)) (magnitude x * magnitude y / 100)

unfoldable pub over : ℤ → ℤ → ℤ
over x y = signed (xor (is_negative x) (is_negative y)) (magnitude x * 100 / magnitude y)

unfoldable pub nearest : ℤ → ℤ
nearest x = signed (is_negative x) ((magnitude x + 50) / 100 * 100)

unfoldable pub whole : ℤ → ℤ
whole x = signed (is_negative x) (magnitude x / 100)

unfoldable pub scale : ℤ → ℤ
scale x = signed (is_negative x) (magnitude x * 100)

unfoldable pub lift : (ℤ → ℤ → ℤ) → Decimal → Decimal → Decimal
lift f (hundredths x) (hundredths y) = hundredths (f x y)
lift f nan y = nan
lift f x nan = nan
lift f x y = infinite

-- The infinity is positive.
unfoldable pub less : Decimal → Decimal → Bool
less nan y = false
less x nan = false
less infinite y = false
less (hundredths x) infinite = true
less (hundredths x) (hundredths y) = ltb_ℤ x y

unfoldable pub equal : Decimal → Decimal → Bool
equal infinite infinite = true
equal (hundredths x) (hundredths y) = eqb_ℤ x y
equal x y = false

unfoldable pub map_decimal : (ℤ → ℤ) → Decimal → Decimal
map_decimal f nan = nan
map_decimal f infinite = infinite
map_decimal f (hundredths x) = hundredths (f x)

abbrev pub decimals : Float64
decimals = record {
  F = Decimal;
  zero_f = hundredths (pos 0);
  one_f = hundredths (pos 100);
  two_f = hundredths (pos 200);
  hundred_f = hundredths (pos 10000);
  thousandth_f = hundredths (pos 0);
  abs_f = elim [ nan ↦ nan | infinite ↦ infinite | hundredths x ↦ hundredths (pos (magnitude x)) ];
  is_nan = elim [ nan ↦ true | infinite ↦ false | hundredths x ↦ false ];
  is_inf = elim [ nan ↦ false | infinite ↦ true | hundredths x ↦ false ];
  lt_f = less;
  le_f = λ x y. less x y || equal x y;
  eq_f = equal;
  add_f = lift ◌+ℤ◌;
  sub_f = lift ◌-ℤ◌;
  mul_f = lift times;
  div_f = lift over;
  round_f = map_decimal nearest;
  to_int64 = elim [ nan ↦ pos 0 | infinite ↦ pos 0 | hundredths x ↦ whole x ];
  of_int64 = λ x. hundredths (scale x);
}

over-scale : (a : ℤ) → over (scale a) (pos 10000) ≡ a
unfolding over scale signed is_negative xor
over-scale (pos n) = ground arith
over-scale (negsuc n) = ground arith

times-scale : (a : ℤ) → times a (pos 10000) ≡ scale a
unfolding times scale signed is_negative xor
times-scale (pos n) = ground arith
times-scale (negsuc n) = ground arith

nearest-scale : (a : ℤ) → nearest (scale a) ≡ scale a
unfolding nearest scale signed is_negative
nearest-scale (pos n) = ground arith
nearest-scale (negsuc n) = ground arith

whole-scale : (a : ℤ) → whole (scale a) ≡ a
unfolding whole scale signed is_negative
whole-scale (pos n) = ground arith
whole-scale (negsuc n) = ground arith

-- An amount of paise that is written in rupees and read back.
pub decimals-round_trip :
    (a : ℤ) → money_to_paise decimals (decimals.div_f (decimals.of_int64 a) decimals.hundred_f) ≡ a
unfolding money_to_paise lift map_decimal
decimals-round_trip a = rw (over-scale a, times-scale a, nearest-scale a) (whole-scale a)
