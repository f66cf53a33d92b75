-- ===== src/Earnings/OrderIssues.antt =====
-- Order reconciliation issues (internal/earnings/order_issues.go): the documents, and what the
-- detection reads of an order.
pub mod Payments
pub mod Closest
pub mod Detection
pub mod Alignment
pub mod Store
pub mod Actions
pub mod Scan
use hom_swag_reporting.Base.{ℕ, ℤ, Bool, List, Option, Text, codes}
use hom_swag_reporting.Earnings.Types.{ObjectId, Instant, ConfigMap}

abbrev pub order_issue_payment_mismatch : Text
order_issue_payment_mismatch = codes "payment_total_mismatch"

abbrev pub order_issue_missing_payment : Text
order_issue_missing_payment = codes "missing_payment"

abbrev pub order_issue_invalid_total : Text
order_issue_invalid_total = codes "order_total_formula_mismatch"

abbrev pub order_issue_missing_beautician : Text
order_issue_missing_beautician = codes "missing_beautician_assignment"

abbrev pub order_issue_deleted_beautician : Text
order_issue_deleted_beautician = codes "deleted_beautician_profile"

abbrev pub order_issue_missing_commission : Text
order_issue_missing_commission = codes "missing_commission_snapshot"

abbrev pub order_issue_invalid_commission : Text
order_issue_invalid_commission = codes "invalid_commission_snapshot"

abbrev pub order_issue_open : Text
order_issue_open = codes "open"

abbrev pub order_issue_resolved : Text
order_issue_resolved = codes "resolved"

abbrev pub order_issue_accepted : Text
order_issue_accepted = codes "accepted"

pub record OrderIssueResolution : Type 0 where
  pub action : Text
  pub reason : Text
  pub actor_id : ObjectId
  pub at : Instant
  pub adjustment_paise : ℤ

pub record OrderReconciliationIssue (F : Type 0) : Type 0 where
  pub id : ObjectId
  pub issue_key : Text
  pub office_id : ObjectId
  pub issue_type : Text
  pub severity : Text
  pub status : Text
  pub order_id : ObjectId
  pub order_number : Text
  pub service_date : Text
  pub expected_paise : ℤ
  pub actual_paise : ℤ
  pub difference_paise : ℤ
  pub payment_method : Text
  pub explanation : Text
  pub details : ConfigMap F
  pub first_detected_at : Instant
  pub last_detected_at : Instant
  pub resolved_at : Option Instant
  pub resolved_by : Option ObjectId
  pub resolution : Option OrderIssueResolution
  pub resolution_history : List OrderIssueResolution

pub record OrderIssuePaymentHistory (F : Type 0) : Type 0 where
  pub id : ObjectId
  pub label : Text
  pub method : Text
  pub status : Text
  pub amount : F
  pub reconciliation_issue_id : Option ObjectId

pub record OrderIssuePayment (F : Type 0) : Type 0 where
  pub method : Text
  pub tip : F
  pub actual_paid_amount : Option F
  pub amount_paid : Option F
  pub cod_amount : Option F
  pub upi_amount : Option F
  pub online_amount : Option F
  pub bank_transfer_amount : Option F
  pub history : List (OrderIssuePaymentHistory F)

pub record OrderIssueBooking (F : Type 0) : Type 0 where
  pub date : Text
  pub surge_amount : F

-- rebuild.go, `CommissionSnapshot`.
pub record CommissionSnapshot (F : Type 0) : Type 0 where
  pub order_cost : Option F
  pub special_commission : Option F
  pub general_commission : Option F
  pub upgrade_addon_commission : Option F
  pub is_paid : Bool
  pub captured_at : Instant

pub record OrderIssueSource (F : Type 0) : Type 0 where
  pub id : ObjectId
  pub office_id : ObjectId
  pub order_number : Text
  pub beautician_id : Option ObjectId
  pub status : Text
  pub is_deleted : Bool
  pub booking : OrderIssueBooking F
  pub subtotal : F
  pub convenience_fees : F
  pub hygiene_fees : F
  pub membership_charge : F
  pub discount_total : F
  pub total : Option F
  pub tip : F
  pub cod_collected_amount : F
  pub payment : OrderIssuePayment F
  pub commission_snapshot : Option (CommissionSnapshot F)
