-- ===== src/Money.antt =====
-- Go's float64, and the money helpers of internal/earnings/rebuild.go and trip_issues.go.
-- There are no floats here: the type and its operations are a record, and what a theorem needs of
-- them it states as a hypothesis. `Money/Decimal.antt` is an instance that computes.
pub mod Decimal
use hom_swag_reporting.Base.{ℕ, ℤ, pos, Bool, true, false, not, ◌&&◌, Option, none, some}

-- float64: literals (`thousandth_f` is 0.001), `math.IsNaN`, `math.IsInf(x, 0)`, `math.Abs`, comparisons, arithmetic, `math.Round`, and
-- the conversions from and to int64.
pub record Float64 : Type 1 where
  pub F : Type 0
  pub zero_f : F
  pub one_f : F
  pub two_f : F
  pub hundred_f : F
  pub thousandth_f : F
  pub abs_f : F → F
  pub is_nan : F → Bool
  pub is_inf : F → Bool
  pub lt_f : F → F → Bool
  pub le_f : F → F → Bool
  pub eq_f : F → F → Bool
  pub add_f : F → F → F
  pub sub_f : F → F → F
  pub mul_f : F → F → F
  pub div_f : F → F → F
  pub round_f : F → F
  pub to_int64 : F → ℤ
  pub of_int64 : ℤ → F

module _ (fl : Float64) where
  open fl use {F, zero_f, hundred_f, is_nan, is_inf, lt_f, le_f, mul_f, div_f, round_f, to_int64}

  -- `validMoney`, and `finiteNonNegative` with the same body.
  unfoldable pub valid_money : F → Bool
  valid_money value = not (is_nan value) && not (is_inf value) && le_f zero_f value

  unfoldable pub finite_non_negative : F → Bool
  finite_non_negative value = not (is_nan value) && not (is_inf value) && le_f zero_f value

  unfoldable pub money_to_paise : F → ℤ
  money_to_paise value = to_int64 (round_f (mul_f value hundred_f))

  unfoldable pub round_source_money : F → F
  round_source_money value = div_f (round_f (mul_f value hundred_f)) hundred_f

  unfoldable pub pointer_money : Option F → F
  pointer_money none = zero_f
  pointer_money (some value) = value

  -- `p != nil && *p > 0`.
  unfoldable pub is_positive_pointer : Option F → Bool
  is_positive_pointer none = false
  is_positive_pointer (some value) = lt_f zero_f value
