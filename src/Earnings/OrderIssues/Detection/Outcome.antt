-- ===== src/Earnings/OrderIssues/Detection/Outcome.antt =====
-- What the payment detection reports: nothing where the payments meet the receivable, and
-- otherwise one issue that carries the two amounts and their difference.
use hom_swag_reporting.Base.{
  ℤ, pos, sub64, eqb_ℤ, ◌≡◌, ◌≢◌, refl, ap, sym, inl, inr, Bool-cases, Option, none, some, List, [],
  ◌∷◌, Text, codes, add64, leb_ℤ, not,
}
use hom_swag_reporting.Money.{Float64, valid_money, money_to_paise}
use hom_swag_reporting.Earnings.Types.{ObjectId, Instant}
use hom_swag_reporting.Earnings.OrderIssues.{
  OrderReconciliationIssue, OrderIssueSource, order_issue_invalid_total,
}
use hom_swag_reporting.Earnings.OrderIssues.Payments.{
  order_issue_received_paise_for_expected, abs_paise,
}
use hom_swag_reporting.Earnings.OrderIssues.Detection.{
  new_order_issue, compare_payments, detect_for_total,
}

module _ (fl : Float64) (hex : ObjectId → Text) where
  open fl use {F}

  abbrev paise_or_zero : Option F → ℤ
  paise_or_zero none = pos 0
  paise_or_zero (some stored) = money_to_paise fl stored

  -- A field of the only issue of a list.
  abbrev only {ℓ} :
      {B : Type ℓ} → B → (OrderReconciliationIssue F → B) → List (OrderReconciliationIssue F) → B
  only default field [] = default
  only default field (issue ∷ issues) = field issue

  module _ (source : OrderIssueSource F) (now : Instant) (total tip e : ℤ) (model : Text) where
    pub compare_payments-met :
        order_issue_received_paise_for_expected fl source e ≡ e
        → sub64 e e ≡ pos 0
        → compare_payments fl hex source now total tip e model ≡ []
    unfolding compare_payments
    compare_payments-met met zero = rw (met, zero) refl

    pub compare_payments-issue :
        {issue : OrderReconciliationIssue F}
        → compare_payments fl hex source now total tip e model ≡ issue ∷ []
        → (issue.expected_paise ≡ e)
          × (issue.difference_paise ≡ sub64 (order_issue_received_paise_for_expected fl source e) e)
    unfolding compare_payments new_order_issue
    compare_payments-issue found =
        elim (Bool-cases
          (eqb_ℤ (sub64 (order_issue_received_paise_for_expected fl source e) e) (pos 0))) [
            | inl met ↦ let none_found = rw met at found in cc
            | inr unmet ↦
                let one = rw unmet at found in
                (
                  sym (ap (only (pos 0) (λ i. i.expected_paise)) one),
                  sym (ap (only (pos 0) (λ i. i.difference_paise)) one),
                )
          ]

  -- An issue of another type than `order_total_formula_mismatch` comes from the comparison of the
  -- payments with a receivable.
  pub detect_for_total-issue :
      (source : OrderIssueSource F) (now : Instant) (base tip : ℤ) (stored : Option F)
      {issue : OrderReconciliationIssue F}
      → detect_for_total fl hex source now base tip stored ≡ issue ∷ []
      → issue.issue_type ≢ order_issue_invalid_total
      → (e : ℤ) × (model : Text) × (compare_payments fl hex source now
            (paise_or_zero stored)
            tip
            e
            model
          ≡ issue ∷ [])
        × ((other : OrderIssueSource F) (later : Instant)
            → detect_for_total fl hex other later base tip stored
              ≡ compare_payments fl hex other later (paise_or_zero stored) tip e model)
  unfolding detect_for_total
  detect_for_total-issue source now base tip none found other_type =
      absurd (other_type (unfold new_order_issue in sym (ap (only [] (λ i. i.issue_type)) found)))
  detect_for_total-issue source now base tip (some stored) found other_type =
      let total = money_to_paise fl stored in
      elim (Bool-cases (not (valid_money fl stored))) [
        | inl invalid ↦ absurd (
            other_type (
              unfold new_order_issue in
              sym (ap (only [] (λ i. i.issue_type)) (rw invalid at found))))
        | inr valid ↦ elim (Bool-cases (leb_ℤ (abs_paise (sub64 total (add64 base tip))) (pos 1))) [
          | inl included ↦ (
            total,
            codes "tip_included",
            rw (valid, included) at found,
            λ other later. rw (valid, included) refl,
          )
          | inr extra ↦ elim (Bool-cases (leb_ℤ (abs_paise (sub64 total base)) (pos 1))) [
            | inl separate ↦ (
              add64 total tip,
              codes "tip_separate",
              rw (valid, extra, separate) at found,
              λ other later. rw (valid, extra, separate) refl,
            )
            | inr neither ↦ absurd (
                other_type (
                  unfold new_order_issue in
                  sym (ap (only [] (λ i. i.issue_type)) (rw (valid, extra, neither) at found))))
          ]
        ]
      ]
