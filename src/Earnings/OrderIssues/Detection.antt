-- ===== src/Earnings/OrderIssues/Detection.antt =====
-- `detectOrderIssues` and `detectOrderCommissionIssues` (internal/earnings/order_issues.go).
-- `hex` is `ObjectID.Hex`, of the Mongo driver; `now` is the clock's value in the caller.
pub mod Outcome
pub mod Commission
pub mod Opened
use hom_swag_reporting.Base.{
  ℕ, ◌==◌, ℤ, pos, add64, sub64, ltb_ℤ, leb_ℤ, eqb_ℤ, Bool, true, false, not, ◌&&◌, ◌||◌, Option,
  none, some, List, [], ◌∷◌, ◌++◌, Text, codes, is_empty, if◌then◌else◌,
}
use hom_swag_reporting.Money.{Float64, valid_money, money_to_paise}
use hom_swag_reporting.Earnings.Types.{
  ObjectId, Instant, ConfigValue, ConfigItems, ConfigMap, number, slice, printed, no_items, item,
}
use hom_swag_reporting.Earnings.OrderIssues.{
  order_issue_payment_mismatch, order_issue_missing_payment, order_issue_invalid_total,
  order_issue_missing_beautician, order_issue_deleted_beautician, order_issue_missing_commission,
  order_issue_invalid_commission, order_issue_open, OrderReconciliationIssue, OrderIssueSource,
  CommissionSnapshot,
}
use hom_swag_reporting.Earnings.OrderIssues.Payments.{
  abs_paise, normalize_order_payment_text, effective_order_issue_tip,
  order_issue_received_paise_for_expected,
}

-- trip_issues.go, `tripIssueWorker`.
pub record TripIssueWorker : Type 0 where
  pub id : ObjectId
  pub first_name : Text
  pub last_name : Text
  pub name : Text
  pub emp_code : Text
  pub is_deleted : Bool

unfoldable pub order_issue_severity : ℤ → Text
unfolding abs_paise
order_issue_severity difference =
    if leb_ℤ (pos 10000) (abs_paise difference)
    then codes "critical"
    else if leb_ℤ (pos 1000) (abs_paise difference)
    then codes "high"
    else codes "warning"

abbrev pub is_none : {A : Type 0} → Option A → Bool
is_none none = true
is_none (some a) = false

module _ (fl : Float64) (hex : ObjectId → Text) where
  open fl use {F, add_f, sub_f, of_int64}

  abbrev paise_detail : ℤ → ConfigValue F
  paise_detail amount = number (of_int64 amount)

  unfoldable pub new_order_issue :
      OrderIssueSource F
      → Text
      → Text
      → Text
      → ℤ
      → ℤ
      → Text
      → Instant
      → ConfigMap F
      → OrderReconciliationIssue F
  unfolding normalize_order_payment_text
  new_order_issue source service_date issue_type severity expected actual explanation now details =
      record {
        id = 0;
        issue_key =
            hex source.office_id ++ (codes ":" ++ (hex source.id ++ (codes ":" ++ issue_type)));
        office_id = source.office_id;
        issue_type = issue_type;
        severity = severity;
        status = order_issue_open;
        order_id = source.id;
        order_number = source.order_number;
        service_date = service_date;
        expected_paise = expected;
        actual_paise = actual;
        difference_paise = sub64 actual expected;
        payment_method = normalize_order_payment_text source.payment.method;
        explanation = explanation;
        details = details;
        first_detected_at = now;
        last_detected_at = now;
        resolved_at = none;
        resolved_by = none;
        resolution = none;
        resolution_history = [];
      }

  -- The charge without the tip.
  unfoldable pub base_charge : OrderIssueSource F → F
  base_charge source =
      sub_f
        (add_f
          (add_f (add_f (add_f source.subtotal source.convenience_fees) source.hygiene_fees)
            source.booking.surge_amount)
          source.membership_charge)
        source.discount_total

  -- The payments against what was expected, once the total has one of the two supported forms.
  unfoldable pub compare_payments :
      OrderIssueSource F → Instant → ℤ → ℤ → ℤ → Text → List (OrderReconciliationIssue F)
  compare_payments source now total tip expected total_model =
      let actual = order_issue_received_paise_for_expected fl source expected in
      let difference = sub64 actual expected in
      let details : ConfigMap F =
        (codes "total_model", printed total_model)
        ∷ (codes "stored_total_paise", paise_detail total)
        ∷ (codes "tip_paise", paise_detail tip)
        ∷ [] in
      let unpaid = eqb_ℤ actual (pos 0) && ltb_ℤ (pos 0) expected in
      if eqb_ℤ difference (pos 0)
      then []
      else new_order_issue source source.booking.date
          (if unpaid then order_issue_missing_payment else order_issue_payment_mismatch)
          (order_issue_severity difference) expected actual
          (if unpaid
            then codes "The order is completed but has no recorded payment."
            else codes "Recorded payments do not equal the final order receivable.")
          now details
        ∷ []

  unfoldable pub detect_for_total :
      OrderIssueSource F → Instant → ℤ → ℤ → Option F → List (OrderReconciliationIssue F)
  detect_for_total source now base tip none =
      new_order_issue source source.booking.date order_issue_invalid_total (codes "critical") base
        (pos 0) (codes "The completed order has a missing, negative, or non-finite total.") now
        ((codes "calculated_base_paise", paise_detail base)
          ∷ (codes "tip_paise", paise_detail tip)
          ∷ [])
      ∷ []
  detect_for_total source now base tip (some stored) =
      let total = money_to_paise fl stored in
      if not (valid_money fl stored)
      then new_order_issue source source.booking.date order_issue_invalid_total (codes "critical")
          base (pos 0) (codes "The completed order has a missing, negative, or non-finite total.")
          now
          ((codes "calculated_base_paise", paise_detail base)
            ∷ (codes "tip_paise", paise_detail tip)
            ∷ [])
        ∷ []
      else if leb_ℤ (abs_paise (sub64 total (add64 base tip))) (pos 1)
      then compare_payments source now total tip total (codes "tip_included")
      else if leb_ℤ (abs_paise (sub64 total base)) (pos 1)
      then compare_payments source now total tip (add64 total tip) (codes "tip_separate")
      else new_order_issue source source.booking.date order_issue_invalid_total
          (order_issue_severity (sub64 total base)) (add64 base tip) total
          (codes
            "Order total does not match either supported charge model (tip included or tip stored separately).")
          now
          ((codes "calculated_base_paise", paise_detail base)
            ∷ (codes "tip_paise", paise_detail tip)
            ∷ (codes "stored_total_paise", paise_detail total)
            ∷ [])
        ∷ []

  unfoldable pub detect_order_issues :
      OrderIssueSource F → Instant → List (OrderReconciliationIssue F)
  detect_order_issues source now =
      detect_for_total source now (money_to_paise fl (base_charge source))
        (money_to_paise fl (effective_order_issue_tip fl source)) source.total

  -- `value == nil || math.IsNaN(…) || math.IsInf(…, 0) || pointerMoney(value) < 0`.
  unfoldable pub is_invalid_commission : Option F → Bool
  is_invalid_commission none = true
  is_invalid_commission (some value) = fl.is_nan value || fl.is_inf value || fl.lt_f value fl.zero_f

  -- The loop ranges over a Go map, so the order of the names is not fixed; here it is that of the
  -- source text.
  unfoldable pub invalid_fields : CommissionSnapshot F → List Text
  unfolding is_invalid_commission
  invalid_fields snapshot =
      (if is_invalid_commission snapshot.order_cost then codes "order_cost" ∷ [] else [])
      ++ ((if is_invalid_commission snapshot.special_commission
            then codes "special_commission" ∷ []
            else [])
          ++ ((if is_invalid_commission snapshot.general_commission
                then codes "general_commission" ∷ []
                else [])
              ++ (if is_invalid_commission snapshot.upgrade_addon_commission
                  then codes "upgrade_addon_commission" ∷ []
                  else [])))

  unfoldable pub printed_items : List Text → ConfigItems F
  printed_items [] = no_items
  printed_items (t ∷ ts) = item (printed t) (printed_items ts)

  abbrev critical_issue :
      OrderIssueSource F → Instant → Text → Text → ConfigMap F → OrderReconciliationIssue F
  critical_issue source now issue_type explanation details =
      new_order_issue source source.booking.date issue_type (codes "critical") (pos 0) (pos 0)
        explanation now details

  -- The beautician of a commission: assigned, present in the office, and not deleted.
  unfoldable pub beautician_issues :
      OrderIssueSource F
      → Instant
      → Option ObjectId
      → Option TripIssueWorker
      → List (OrderReconciliationIssue F)
  beautician_issues source now none beautician =
      critical_issue source now order_issue_missing_beautician
        (codes
          "The completed order has no beautician assignment, so commission cannot be attributed.")
        ((
          codes "recommended_fix",
          printed (codes "Assign the correct beautician at source, then recheck the order."),
        )
          ∷ [])
      ∷ []
  beautician_issues source now (some id) beautician =
      if id == 0
      then critical_issue source now order_issue_missing_beautician
          (codes
            "The completed order has no beautician assignment, so commission cannot be attributed.")
          ((
            codes "recommended_fix",
            printed (codes "Assign the correct beautician at source, then recheck the order."),
          )
            ∷ [])
        ∷ []
      else elim beautician [
        | none ↦
            critical_issue source now order_issue_missing_beautician
              (codes "The assigned beautician profile does not exist in this office.")
              ((codes "beautician_id", printed (hex id))
                ∷ (
                  codes "recommended_fix",
                  printed (codes "Assign an active beautician from this office, then recheck."),
                )
                ∷ [])
            ∷ []
        | some worker ↦
            if worker.is_deleted
            then critical_issue source now order_issue_deleted_beautician
                (codes "The completed order is assigned to a deleted beautician profile.")
                ((codes "beautician_id", printed (hex worker.id))
                  ∷ (codes "employee_code", printed worker.emp_code)
                  ∷ (
                    codes "recommended_fix",
                    printed (
                        codes
                          "Review the employee identity, reassign the order to the active canonical profile, and recheck."),
                  )
                  ∷ [])
              ∷ []
            else []
      ]

  unfoldable pub snapshot_issues :
      OrderIssueSource F
      → Instant
      → Option (CommissionSnapshot F)
      → List (OrderReconciliationIssue F)
  unfolding printed_items
  snapshot_issues source now none =
      critical_issue source now order_issue_missing_commission
        (codes
          "The completed order has no commission snapshot, so its earnings cannot be independently audited.")
        ((
          codes "recommended_fix",
          printed (
              codes
                "Rebuild the order commission snapshot using the verified order services and commission rules."),
        )
          ∷ [])
      ∷ []
  snapshot_issues source now (some snapshot) =
      if is_empty (invalid_fields snapshot)
      then []
      else critical_issue source now order_issue_invalid_commission
          (codes "The order commission snapshot has missing, negative, or non-finite values.")
          ((codes "invalid_fields", slice (printed_items (invalid_fields snapshot)))
            ∷ (
              codes "recommended_fix",
              printed (
                  codes
                    "Correct the source commission inputs and rebuild the order commission snapshot."),
            )
            ∷ [])
        ∷ []

  unfoldable pub detect_order_commission_issues :
      OrderIssueSource F → Option TripIssueWorker → Instant → List (OrderReconciliationIssue F)
  unfolding beautician_issues snapshot_issues
  detect_order_commission_issues source beautician now =
      if is_none source.beautician_id && is_none source.commission_snapshot
      then []
      else beautician_issues source now source.beautician_id beautician
        ++ snapshot_issues source now source.commission_snapshot
