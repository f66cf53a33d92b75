-- ===== src/Earnings/OrderIssues/Payments.antt =====
-- What an order's payments add up to (internal/earnings/order_issues.go).
use hom_swag_reporting.Base.{
  ℕ, ◌==◌, ℤ, pos, add64, sub64, ltb_ℤ, Bool, false, not, ◌&&◌, ◌||◌, Option, none, some, List, [],
  ◌∷◌, Text, codes, eqb_text, is_empty, if◌then◌else◌,
}
use hom_swag_reporting.Base.Strings.{is_space, trim_space, to_lower, contains}
use hom_swag_reporting.Money.{Float64, valid_money, money_to_paise, pointer_money}
use hom_swag_reporting.Earnings.OrderIssues.{OrderIssuePaymentHistory, OrderIssueSource}

-- `absPaise`, in reconciliation.go: `-value` of int64.
unfoldable pub abs_paise : ℤ → ℤ
abs_paise value = if ltb_ℤ value (pos 0) then sub64 (pos 0) value else value

-- `[-\s]+` of the regular expression; its `\s` is every space but the vertical tab.
abbrev pub is_separator : ℕ → Bool
is_separator c = c == b'-' || (is_space c && not (c == 11))

-- Every run of separators becomes one underscore; the flag says that a run has begun.
unfoldable pub replace_separators : Bool → Text → Text
replace_separators in_run [] = []
replace_separators in_run (c ∷ s) =
    let rest = replace_separators (is_separator c) s in
    if is_separator c then (if in_run then rest else b'_' ∷ rest) else c ∷ rest

unfoldable pub normalize_order_payment_text : Text → Text
unfolding replace_separators trim_space to_lower
normalize_order_payment_text value = replace_separators false (to_lower (trim_space value))

-- Which candidate `orderIssueReceivedPaiseForExpected` takes: with the tips if that is closer.
unfoldable pub closest : ℤ × ℤ → ℤ → ℤ
unfolding abs_paise
closest (received, separate_tips) expected =
    let with_separate_tips = add64 received separate_tips in
    if ltb_ℤ (pos 0) separate_tips
      && ltb_ℤ (abs_paise (sub64 with_separate_tips expected)) (abs_paise (sub64 received expected))
    then with_separate_tips
    else received

module _ (fl : Float64) where
  open fl use {F, zero_f, add_f, lt_f}

  unfoldable pub first_order_issue_money : List (Option F) → F
  first_order_issue_money [] = zero_f
  first_order_issue_money (none ∷ values) = first_order_issue_money values
  first_order_issue_money (some value ∷ values) = value

  unfoldable pub effective_order_issue_tip : OrderIssueSource F → F
  effective_order_issue_tip source =
      if valid_money fl source.payment.tip && lt_f zero_f source.payment.tip
      then source.payment.tip
      else source.tip

  -- One round of the loop over the history, on the received amount and the separate tips.
  unfoldable pub receive : ℤ × ℤ → OrderIssuePaymentHistory F → ℤ × ℤ
  receive (received, separate_tips) entry =
      let label = normalize_order_payment_text entry.label in
      let method = normalize_order_payment_text entry.method in
      let amount = money_to_paise fl entry.amount in
      if eqb_text label (codes "tip")
        || eqb_text method (codes "tip")
        || eqb_text method (codes "tips")
      then (received, if ltb_ℤ (pos 0) amount then add64 separate_tips amount else separate_tips)
      else if contains (codes "refund") label
          || contains (codes "cancellation_fee") label
          || contains (codes "cancellation_charge") label
      then (received, separate_tips)
      else if ltb_ℤ (pos 0) amount || eqb_text label (codes "reconciliation_adjustment")
      then (add64 received amount, separate_tips)
      else (received, separate_tips)

  unfoldable pub receive_all : ℤ × ℤ → List (OrderIssuePaymentHistory F) → ℤ × ℤ
  receive_all totals [] = totals
  receive_all totals (entry ∷ history) = receive_all (receive totals entry) history

  -- The fields of a payment without history.
  unfoldable pub legacy_received : OrderIssueSource F → ℤ
  legacy_received source =
      let payment = source.payment in
      let paid = first_order_issue_money (payment.actual_paid_amount ∷ payment.amount_paid ∷ []) in
      let cod : F = elim payment.cod_amount [
        | none ↦ source.cod_collected_amount
        | some cod ↦ cod
      ] in
      if lt_f zero_f paid
      then money_to_paise fl paid
      else money_to_paise fl (
          add_f
            (add_f (add_f cod (pointer_money fl payment.upi_amount))
              (pointer_money fl payment.online_amount))
            (pointer_money fl payment.bank_transfer_amount))

  unfoldable pub order_issue_received_candidates : OrderIssueSource F → ℤ × ℤ
  order_issue_received_candidates source =
      if is_empty source.payment.history
      then (legacy_received source, pos 0)
      else receive_all (pos 0, pos 0) source.payment.history

  unfoldable pub order_issue_received_paise_for_expected : OrderIssueSource F → ℤ → ℤ
  order_issue_received_paise_for_expected source expected =
      closest (order_issue_received_candidates source) expected
