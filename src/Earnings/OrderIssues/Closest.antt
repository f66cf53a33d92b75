-- ===== src/Earnings/OrderIssues/Closest.antt =====
-- `orderIssueReceivedPaiseForExpected` on numbers: which of the two candidates it takes, and what
-- an adjustment by the difference does to it.
use hom_swag_reporting.Base.{
  ℕ, ◌+◌, ◌*◌, ◌≤◌, ◌<◌, ℤ, pos, negsuc, magnitude, ltb_ℤ, ◌+ℤ◌, ◌-ℤ◌, ◌<ℤ◌, ◌≤ℤ◌, int_laws,
  -ℤ_parts, magnitude-add, magnitude-sub, ◌≡◌, refl, ◌⊎◌, inl, inr, ◌&&◌, add64, sub64,
  add64-of_fits, sub64-of_fits, int64_limit, if◌then◌else◌, arith,
}
use hom_swag_reporting.Earnings.OrderIssues.Payments.{abs_paise, closest}

-- 2^50 paise. A float64 holds every amount below it exactly, as rupees rounded to the nearest paise
-- too.
abbrev pub paise_limit : ℕ
paise_limit = 1125899906842624

-- The candidates and the receivable add up to less than that.
abbrev pub InRange : ℤ → ℤ → ℤ → Type 0
InRange received tips expected =
    magnitude received + magnitude tips + magnitude expected < paise_limit

pub abs_paise-of_fits : (a : ℤ) → magnitude a < int64_limit → abs_paise a ≡ pos (magnitude a)
unfolding abs_paise
abs_paise-of_fits (pos n) h = ground arith
abs_paise-of_fits (negsuc n) h =
    rw (sub64-of_fits (pos 0) (negsuc n) (omega arith)) (grind int_laws)

pub sub_self : (a : ℤ) → a -ℤ a ≡ pos 0
sub_self a = omega int_laws

restore : (e t : ℤ) → e -ℤ t +ℤ t ≡ e
restore e t = omega int_laws

short : (e t : ℤ) → e -ℤ t -ℤ e ≡ pos 0 -ℤ t
short e t = omega int_laws

adjusted_plain : (r e : ℤ) → r -ℤ (r -ℤ e) ≡ e
adjusted_plain r e = omega int_laws

adjusted_with_tips : (r t e : ℤ) → r -ℤ (r +ℤ t -ℤ e) ≡ e -ℤ t
adjusted_with_tips r t e = omega int_laws

module _ (r t e : ℤ) (h : magnitude r + magnitude t + magnitude e < int64_limit) where
  with_tips : add64 r t ≡ r +ℤ t
  with_tips = add64-of_fits r t (omega arith)

  off : sub64 r e ≡ r -ℤ e
  off = sub64-of_fits r e (omega arith)

  off_with_tips : sub64 (r +ℤ t) e ≡ r +ℤ t -ℤ e
  off_with_tips = sub64-of_fits (r +ℤ t) e (omega (arith, magnitude-add r t))

  pub closest-of_fits : closest (r, t) e ≡ (
      if ltb_ℤ (pos 0) t && ltb_ℤ (pos (magnitude (r +ℤ t -ℤ e))) (pos (magnitude (r -ℤ e)))
      then r +ℤ t
      else r)
  unfolding closest
  closest-of_fits =
      rw (with_tips, off, off_with_tips)
        (rw
          (
            abs_paise-of_fits (r +ℤ t -ℤ e)
                (omega (arith, magnitude-add r t, magnitude-sub (r +ℤ t) e)),
            abs_paise-of_fits (r -ℤ e) (omega (arith, magnitude-sub r e)),
          )
          refl)

  pub closest_cases : (closest (r, t) e ≡ r) ⊎ ((closest (r, t) e ≡ r +ℤ t) × (pos 0 <ℤ t))
  closest_cases = rw closest-of_fits (ground arith)

  -- In the range of int64, what is taken is the amount received, or that with the tips, and then tips
  -- were paid separately; it is at least as close to the receivable as the amount received and,
  -- unless no tips were paid separately, as the amount with them.
  pub closest_nearest :
      ((closest (r, t) e ≡ r) ⊎ ((closest (r, t) e ≡ r +ℤ t) × (pos 0 <ℤ t)))
      × (magnitude (closest (r, t) e -ℤ e) ≤ magnitude (r -ℤ e))
      × ((t ≤ℤ pos 0) ⊎ (magnitude (closest (r, t) e -ℤ e) ≤ magnitude (r +ℤ t -ℤ e)))
  closest_nearest =
      (closest_cases, rw closest-of_fits (ground arith), rw closest-of_fits (ground arith))

-- What is received without the tips, or with them, is the receivable.
closest_met : (t e : ℤ) → magnitude t + 2 * magnitude e < int64_limit → closest (e, t) e ≡ e
closest_met t e h = rw (closest-of_fits e t e (omega arith)) (rw (sub_self e) (ground arith))

closest_met_with_tips :
    (t e : ℤ)
    → 2 * (magnitude t + magnitude e) < int64_limit
    → pos 0 <ℤ t
    → closest (e -ℤ t, t) e ≡ e
closest_met_with_tips t e h p =
    rw
      (
        closest-of_fits (e -ℤ t) t e (omega (arith, magnitude-sub e t)),
        restore e t,
        sub_self e,
        short e t,
      )
      (ground (arith, -ℤ_parts (pos 0) t))

-- Taking the difference off what was received makes the new candidate meet the receivable.
pub closest_adjusted : (r t e : ℤ) → InRange r t e → closest (r -ℤ (closest (r, t) e -ℤ e), t) e ≡ e
closest_adjusted r t e h = elim (closest_cases r t e (omega arith)) [
  | inl plain ↦ rw (plain, adjusted_plain r e) (closest_met t e (omega arith))
  | inr (with, p) ↦ rw (with, adjusted_with_tips r t e) (closest_met_with_tips t e (omega arith) p)
]

-- The difference of the candidate that is taken, in int64 and in size.
pub closest_difference :
    (r t e : ℤ)
    → InRange r t e
    → (sub64 (closest (r, t) e) e ≡ closest (r, t) e -ℤ e)
      × (magnitude (closest (r, t) e -ℤ e) < paise_limit)
closest_difference r t e h = elim (closest_cases r t e (omega arith)) [
  | inl plain ↦ rw plain (sub64-of_fits r e (omega arith), omega (arith, magnitude-sub r e))
  | inr (tipped, p) ↦ rw tipped (
    sub64-of_fits (r +ℤ t) e (omega (arith, magnitude-add r t)),
    omega (arith, magnitude-add r t, magnitude-sub (r +ℤ t) e),
  )
]
