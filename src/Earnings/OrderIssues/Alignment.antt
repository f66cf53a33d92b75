-- ===== src/Earnings/OrderIssues/Alignment.antt =====
-- `align_payment_record`: the adjustment that `alignOrderPayment`
-- (internal/earnings/order_issues_repository.go) pushes onto the payment history of an order.
pub mod Resolves
use hom_swag_reporting.Base.{
  ℤ, pos, sub64, Option, none, some, List, [], ◌∷◌, ◌++◌, Text, codes, is_empty, if◌then◌else◌,
}
use hom_swag_reporting.Money.{Float64}
use hom_swag_reporting.Earnings.Types.{ObjectId}
use hom_swag_reporting.Earnings.OrderIssues.{
  OrderReconciliationIssue, OrderIssuePaymentHistory, OrderIssueSource,
}
use hom_swag_reporting.Earnings.OrderIssues.Payments.{normalize_order_payment_text}

module _ (fl : Float64) where
  open fl use {F, hundred_f, div_f, of_int64}

  -- `adjustmentPaise := -current.DifferencePaise`.
  unfoldable pub adjustment_paise : OrderReconciliationIssue F → ℤ
  adjustment_paise current = sub64 (pos 0) current.difference_paise

  unfoldable pub adjustment_method : OrderIssueSource F → Text
  adjustment_method source =
      let method = normalize_order_payment_text source.payment.method in
      if is_empty method then codes "other" else method

  -- The document that is pushed; `id` is the new ObjectID.
  unfoldable pub adjustment_entry :
      OrderIssueSource F
      → OrderReconciliationIssue F
      → ObjectId
      → ObjectId
      → OrderIssuePaymentHistory F
  adjustment_entry source current issue_id id = record {
    id = id;
    label = codes "Reconciliation adjustment";
    method = adjustment_method source;
    status = codes "adjusted";
    amount = div_f (of_int64 (adjustment_paise current)) hundred_f;
    reconciliation_issue_id = some issue_id;
  }

  -- `$push` of the entry to `payment.history`.
  unfoldable pub push_payment : OrderIssueSource F → OrderIssuePaymentHistory F → OrderIssueSource F
  push_payment source entry = record source {
    payment = record source.payment { history = source.payment.history ++ entry ∷ [] };
  }
