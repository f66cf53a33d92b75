-- ===== src/Earnings/OrderIssues/Alignment/Resolves.antt =====
-- After the adjustment the order reconciles.
use hom_swag_reporting.Base.{
  ◌<◌, ℤ, pos, magnitude, ◌+ℤ◌, ◌-ℤ◌, int_laws, ◌≡◌, ◌≢◌, refl, ◌∙◌, Bool, true, false, ◌||◌, List,
  [], ◌∷◌, ◌++◌, Text, codes, eqb_text, add64, sub64, add64-of_fits, sub64-of_fits, magnitude-sub,
  arith, is_empty, ap,
}
use hom_swag_reporting.Base.Strings.{contains}
use hom_swag_reporting.Money.{Float64, money_to_paise}
use hom_swag_reporting.Earnings.Types.{ObjectId, Instant}
use hom_swag_reporting.Earnings.OrderIssues.{
  OrderReconciliationIssue, OrderIssuePaymentHistory, OrderIssueSource, order_issue_invalid_total,
}
use hom_swag_reporting.Earnings.OrderIssues.Payments.{
  normalize_order_payment_text, effective_order_issue_tip, receive, receive_all,
  order_issue_received_candidates, order_issue_received_paise_for_expected, closest,
}
use hom_swag_reporting.Earnings.OrderIssues.Closest.{
  InRange, sub_self, paise_limit, closest_adjusted, closest_difference,
}
use hom_swag_reporting.Earnings.OrderIssues.Detection.{
  base_charge, compare_payments, detect_order_issues,
}
use hom_swag_reporting.Earnings.OrderIssues.Detection.Outcome.{
  compare_payments-met, compare_payments-issue, detect_for_total-issue,
}
use hom_swag_reporting.Earnings.OrderIssues.Alignment.{
  adjustment_paise, adjustment_method, adjustment_entry, push_payment,
}

no_refund :
    (contains (codes "refund") (codes "reconciliation_adjustment")
      || contains (codes "cancellation_fee") (codes "reconciliation_adjustment")
      || contains (codes "cancellation_charge") (codes "reconciliation_adjustment"))
    ≡ false
unfolding contains
no_refund = refl

add_negated : (a b : ℤ) → a +ℤ (pos 0 -ℤ b) ≡ a -ℤ b
add_negated a b = omega int_laws

or_true : (b : Bool) → (b || true) ≡ true
or_true true = refl
or_true false = refl

-- A non-empty history stays non-empty.
is_empty-snoc {ℓ} : {A : Type ℓ} (xs : List A) (x : A) → is_empty (xs ++ x ∷ []) ≡ false
is_empty-snoc [] x = refl
is_empty-snoc (y ∷ xs) x = refl

module _ (fl : Float64) where
  open fl use {F, hundred_f, div_f, of_int64}

  receive_all-snoc :
      (totals : ℤ × ℤ) (history : List (OrderIssuePaymentHistory F))
      (entry : OrderIssuePaymentHistory F)
      → receive_all fl totals (history ++ entry ∷ [])
        ≡ receive fl (receive_all fl totals history) entry
  unfolding receive_all
  receive_all-snoc totals [] entry = refl
  receive_all-snoc totals (e ∷ history) entry = receive_all-snoc (receive fl totals e) history entry

  adjustment_label :
      normalize_order_payment_text (codes "Reconciliation adjustment")
      ≡ codes "reconciliation_adjustment"
  unfolding normalize_order_payment_text
  adjustment_label = refl

  -- The payment method is not that of a tip: such an entry would be counted as one.
  abbrev pub IsNoTip : OrderIssueSource F → Type 0
  IsNoTip source =
      let method = normalize_order_payment_text (adjustment_method fl source) in
      (eqb_text method (codes "tip") ≡ false) × (eqb_text method (codes "tips") ≡ false)

  -- What float64 gives for an amount of paise that is written in rupees and read back.
  abbrev pub PaiseRoundTrip : Type 0
  PaiseRoundTrip =
      (a : ℤ) → magnitude a < paise_limit → money_to_paise fl (div_f (of_int64 a) hundred_f) ≡ a

  module _ (source : OrderIssueSource F) (issue : OrderReconciliationIssue F)
      (issue_id id : ObjectId) (round_trip : PaiseRoundTrip) (no_tip : IsNoTip source) where
    abbrev aligned : OrderIssueSource F
    aligned = push_payment fl source (adjustment_entry fl source issue issue_id id)

    receive-adjustment :
        (r t : ℤ)
        → magnitude (adjustment_paise fl issue) < paise_limit
        → receive fl (r, t) (adjustment_entry fl source issue issue_id id)
          ≡ (add64 r (adjustment_paise fl issue), t)
    unfolding receive adjustment_entry
    receive-adjustment r t h =
        rw (adjustment_label, round_trip (adjustment_paise fl issue) h, no_tip.0, no_tip.1)
          (rw no_refund (rw or_true refl))

    candidates-aligned :
        is_empty source.payment.history ≡ false
        → magnitude (adjustment_paise fl issue) < paise_limit
        → order_issue_received_candidates fl aligned ≡ (
          add64 (order_issue_received_candidates fl source).0 (adjustment_paise fl issue),
          (order_issue_received_candidates fl source).1,
        )
    unfolding order_issue_received_candidates push_payment
    candidates-aligned nonempty h =
        rw
          (
            is_empty-snoc source.payment.history (adjustment_entry fl source issue issue_id id),
            nonempty,
          )
          (receive_all-snoc (pos 0, pos 0) source.payment.history _ ∙ receive-adjustment _ _ h)

    -- Where the order has a history, its payments then meet the receivable.
    received-aligned :
        (e : ℤ)
        → is_empty source.payment.history ≡ false
        → InRange
            (order_issue_received_candidates fl source).0
            (order_issue_received_candidates fl source).1
            e
        → issue.difference_paise ≡ sub64 (order_issue_received_paise_for_expected fl source e) e
        → order_issue_received_paise_for_expected fl aligned e ≡ e
    unfolding order_issue_received_paise_for_expected adjustment_paise
    received-aligned e nonempty h d =
        let r = (order_issue_received_candidates fl source).0 in
        let t = (order_issue_received_candidates fl source).1 in
        let (exact, small) = closest_difference r t e h in
        let gap = closest (r, t) e -ℤ e in
        let adjustment : adjustment_paise fl issue ≡ pos 0 -ℤ gap =
          ap (sub64 (pos 0)) (d ∙ exact) ∙ sub64-of_fits (pos 0) gap (omega arith) in
        let small_adjustment : magnitude (adjustment_paise fl issue) < paise_limit =
          rw adjustment (omega (arith, magnitude-sub (pos 0) gap)) in
        let falls : add64 r (pos 0 -ℤ gap) ≡ r -ℤ gap =
          add64-of_fits r (pos 0 -ℤ gap) (omega (arith, magnitude-sub (pos 0) gap))
          ∙ add_negated r gap in
        rw (candidates-aligned nonempty small_adjustment, adjustment, falls)
          (closest_adjusted r t e h)

    module _ (hex : ObjectId → Text) (now later : Instant) where
      compare_payments-aligned :
          (total tip e : ℤ) (model : Text)
          → is_empty source.payment.history ≡ false
          → InRange
              (order_issue_received_candidates fl source).0
              (order_issue_received_candidates fl source).1
              issue.expected_paise
          → compare_payments fl hex source now total tip e model ≡ issue ∷ []
          → compare_payments fl hex aligned later total tip e model ≡ []
      compare_payments-aligned total tip e model nonempty h found =
          let (expected, difference) =
            compare_payments-issue fl hex source now total tip e model found in
          let range = rw expected at h in
          compare_payments-met fl hex aligned later total tip e model
            (received-aligned e nonempty range difference)
            (sub64-of_fits e e (omega arith) ∙ sub_self e)

      -- An order with a payment history, whose payment method is not that of a tip and whose amounts
      -- stay below 2^50 paise, has one issue, and that is not one of the order total. Once the
      -- adjustment is pushed, the detection finds no issue in the order any more.
      pub detect_order_issues-aligned :
          is_empty source.payment.history ≡ false
          → InRange
              (order_issue_received_candidates fl source).0
              (order_issue_received_candidates fl source).1
              issue.expected_paise
          → issue.issue_type ≢ order_issue_invalid_total
          → detect_order_issues fl hex source now ≡ issue ∷ []
          → detect_order_issues fl hex aligned later ≡ []
      unfolding detect_order_issues base_charge effective_order_issue_tip push_payment
      detect_order_issues-aligned nonempty h other_type found =
          let (e, model, compared, same) =
            detect_for_total-issue fl hex source now _ _ source.total found other_type in
          same aligned later ∙ compare_payments-aligned _ _ e model nonempty h compared
