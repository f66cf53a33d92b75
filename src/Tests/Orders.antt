-- ===== src/Tests/Orders.antt =====
-- An order of 100.00 of which 80.00 was paid, and a tip of 5.00 apart.
use hom_swag_reporting.Base.{
  is_empty, ℕ, ℤ, pos, ◌+ℤ◌, ◌-ℤ◌, wrap64, add64, sub64, magnitude, ◌≤◌, ◌≤ℤ◌, ◌<ℤ◌, ◌⊎◌, ◌≡◌, ◌≢◌,
  refl, true, false, none, some, [], ◌∷◌, Text, eqb_text, eqb_text_refl, codes, arith,
}
use hom_swag_reporting.Base.Strings.{trim_space, to_lower, has_prefix, contains}
use hom_swag_reporting.Money.{valid_money, money_to_paise}
use hom_swag_reporting.Money.Decimal.{
  Decimal, hundredths, decimals, less, equal, times, over, nearest, whole, scale, signed,
  is_negative, xor, lift, map_decimal,
}
use hom_swag_reporting.Tests.Floats.{decimals-PaiseRoundTrip}
use hom_swag_reporting.Earnings.Types.{number, printed}
use hom_swag_reporting.Earnings.OrderIssues.{
  OrderIssueSource, OrderReconciliationIssue, OrderIssuePaymentHistory,
  order_issue_payment_mismatch,
}
use hom_swag_reporting.Earnings.OrderIssues.Payments.{
  abs_paise, replace_separators, normalize_order_payment_text, closest, effective_order_issue_tip,
  receive, receive_all, order_issue_received_candidates, order_issue_received_paise_for_expected,
}
use hom_swag_reporting.Earnings.OrderIssues.Closest.{closest_nearest}
use hom_swag_reporting.Earnings.OrderIssues.Detection.{
  order_issue_severity, new_order_issue, base_charge, compare_payments, detect_for_total,
  detect_order_issues,
}
use hom_swag_reporting.Earnings.OrderIssues.Detection.{
  TripIssueWorker, detect_order_commission_issues,
}
use hom_swag_reporting.Earnings.OrderIssues.Detection.Commission.{
  detect_order_commission_issues-empty,
}
use hom_swag_reporting.Earnings.OrderIssues.Alignment.{
  adjustment_method, adjustment_entry, push_payment,
}
use hom_swag_reporting.Earnings.OrderIssues.Alignment.Resolves.{
  IsNoTip, detect_order_issues-aligned,
}

abbrev pub hex : ℕ → Text
hex n = n ∷ []

closest_nearest_example :
    ((closest (pos 95, pos 10) (pos 104) ≡ pos 95)
      ⊎ ((closest (pos 95, pos 10) (pos 104) ≡ pos 95 +ℤ pos 10) × (pos 0 <ℤ pos 10)))
    × (magnitude (closest (pos 95, pos 10) (pos 104) -ℤ pos 104) ≤ magnitude (pos 95 -ℤ pos 104))
    × ((pos 10 ≤ℤ pos 0)
        ⊎ (magnitude (closest (pos 95, pos 10) (pos 104) -ℤ pos 104)
            ≤ magnitude (pos 95 +ℤ pos 10 -ℤ pos 104)))
closest_nearest_example = closest_nearest (pos 95) (pos 10) (pos 104) (omega arith)

abbrev payment : Text → ℤ → OrderIssuePaymentHistory Decimal
payment label amount = record {
  id = 1;
  label = label;
  method = codes "UPI";
  status = codes "paid";
  amount = hundredths amount;
  reconciliation_issue_id = none;
}

abbrev pub order : OrderIssueSource Decimal
order = record {
  id = 2;
  office_id = 7;
  order_number = codes "O-2";
  beautician_id = some 6;
  status = codes "completed";
  is_deleted = false;
  booking = record { date = codes "2026-01-05"; surge_amount = hundredths (pos 0) };
  subtotal = hundredths (pos 12000);
  convenience_fees = hundredths (pos 0);
  hygiene_fees = hundredths (pos 0);
  membership_charge = hundredths (pos 0);
  discount_total = hundredths (pos 2000);
  total = some (hundredths (pos 10000));
  tip = hundredths (pos 0);
  cod_collected_amount = hundredths (pos 0);
  payment = record {
    method = codes " UPI";
    tip = hundredths (pos 0);
    actual_paid_amount = none;
    amount_paid = none;
    cod_amount = none;
    upi_amount = none;
    online_amount = none;
    bank_transfer_amount = none;
    history = payment (codes "Advance") (pos 8000) ∷ payment (codes "Tip") (pos 500) ∷ [];
  };
  commission_snapshot = none;
}

abbrev pub issue : OrderReconciliationIssue Decimal
issue =
    new_order_issue decimals hex order (codes "2026-01-05") order_issue_payment_mismatch
      (codes "high") (pos 10000) (pos 8500)
      (codes "Recorded payments do not equal the final order receivable.") 1000
      ((codes "total_model", printed (codes "tip_included"))
        ∷ (codes "stored_total_paise", number (decimals.of_int64 (pos 10000)))
        ∷ (codes "tip_paise", number (decimals.of_int64 (pos 0)))
        ∷ [])

run-detect_order_issues : detect_order_issues decimals hex order 1000 ≡ issue ∷ []
unfolding detect_order_issues detect_for_total compare_payments
    order_issue_received_paise_for_expected order_issue_received_candidates receive_all receive
    closest abs_paise order_issue_severity base_charge effective_order_issue_tip valid_money
    money_to_paise normalize_order_payment_text replace_separators trim_space to_lower contains
    has_prefix times over nearest whole scale signed is_negative xor lift map_decimal less equal
    ◌+ℤ◌ ◌-ℤ◌ add64 sub64 wrap64 new_order_issue
run-detect_order_issues = refl

pub texts_differ : (s t : Text) → eqb_text s t ≡ false → s ≢ t
texts_differ s t h e = let same : eqb_text s t ≡ true = rw e (eqb_text_refl t) in cc

no_tip : IsNoTip decimals order
unfolding adjustment_method normalize_order_payment_text
no_tip = (refl, refl)

detect_order_issues-aligned_example :
    detect_order_issues decimals hex
      (push_payment decimals order (adjustment_entry decimals order issue 90 91))
      2000
    ≡ []
unfolding order_issue_received_candidates receive_all receive money_to_paise
    normalize_order_payment_text replace_separators trim_space to_lower contains has_prefix times
    over nearest whole scale signed is_negative xor lift map_decimal less equal ◌+ℤ◌ ◌-ℤ◌ add64
    sub64 wrap64 new_order_issue
detect_order_issues-aligned_example =
    detect_order_issues-aligned decimals order issue 90 91 decimals-PaiseRoundTrip no_tip hex 1000
      2000 refl (omega arith) (texts_differ _ _ refl) run-detect_order_issues

abbrev active_worker : TripIssueWorker
active_worker = record {
  id = 6;
  first_name = [];
  last_name = [];
  name = [];
  emp_code = [];
  is_deleted = false;
}

detect_order_commission_issues-empty_example :
    is_empty (detect_order_commission_issues decimals hex order (some active_worker) 1000) ≡ false
detect_order_commission_issues-empty_example =
    detect_order_commission_issues-empty decimals hex order (some active_worker) 1000
