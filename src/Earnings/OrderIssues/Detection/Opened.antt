-- ===== src/Earnings/OrderIssues/Detection/Opened.antt =====
-- What the detections report is open.
use hom_swag_reporting.Base.{
  refl, Bool, true, false, Bool-cases, inl, inr, Option, none, some, List, [], ◌∷◌, ℤ, pos, leb_ℤ,
  add64, sub64, ◌==◌, All, All-append, Text, if◌then◌else◌,
}
use hom_swag_reporting.Money.{Float64, valid_money, money_to_paise}
use hom_swag_reporting.Earnings.Types.{ObjectId, Instant}
use hom_swag_reporting.Earnings.Issues.{IsOpen}
use hom_swag_reporting.Earnings.OrderIssues.{
  OrderIssueSource, OrderReconciliationIssue, CommissionSnapshot,
}
use hom_swag_reporting.Earnings.OrderIssues.Payments.{abs_paise}
use hom_swag_reporting.Earnings.OrderIssues.Detection.{
  TripIssueWorker, new_order_issue, compare_payments, detect_for_total, detect_order_issues,
  beautician_issues, snapshot_issues, detect_order_commission_issues,
}
use hom_swag_reporting.Earnings.OrderIssues.Store.Steps.{order_life}

All-one-if :
    {A : Type 0} (P : A → Type 0) (b : Bool) (a : A) → P a → All P (if b then [] else a ∷ [])
All-one-if P true a h = tt
All-one-if P false a h = (h, tt)

All-if :
    {A : Type 0} (P : A → Type 0) (b : Bool) (xs ys : List A)
    → All P xs
    → All P ys
    → All P (if b then xs else ys)
All-if P true xs ys h k = h
All-if P false xs ys h k = k

module _ (fl : Float64) (hex : ObjectId → Text) (source : OrderIssueSource fl.F)
    (now : Instant) where
  open fl use {F}

  abbrev AreOpen : List (OrderReconciliationIssue F) → Type 0
  AreOpen = All (λ d. IsOpen (order_life d))

  compare_payments-AreOpen :
      (total tip expected : ℤ) (model : Text)
      → AreOpen (compare_payments fl hex source now total tip expected model)
  unfolding compare_payments new_order_issue
  compare_payments-AreOpen total tip expected model =
      All-one-if (λ d. IsOpen (order_life d)) _ _ (refl, refl, refl, refl)

  detect_for_total-AreOpen :
      (base tip : ℤ) (total : Option F)
      → AreOpen (detect_for_total fl hex source now base tip total)
  unfolding detect_for_total new_order_issue
  detect_for_total-AreOpen base tip none = ((refl, refl, refl, refl), tt)
  detect_for_total-AreOpen base tip (some stored) =
      let total = money_to_paise fl stored in
      elim (Bool-cases (valid_money fl stored)) [
        | inr bad ↦ rw bad ((refl, refl, refl, refl), tt)
        | inl good ↦ elim (Bool-cases (leb_ℤ (abs_paise (sub64 total (add64 base tip))) (pos 1))) [
          | inl with_tip ↦ rw (good, with_tip) (compare_payments-AreOpen _ _ _ _)
          | inr other ↦ elim (Bool-cases (leb_ℤ (abs_paise (sub64 total base)) (pos 1))) [
            | inl apart ↦ rw (good, other, apart) (compare_payments-AreOpen _ _ _ _)
            | inr neither ↦ rw (good, other, neither) ((refl, refl, refl, refl), tt)
          ]
        ]
      ]

  pub detect_order_issues-AreOpen : AreOpen (detect_order_issues fl hex source now)
  unfolding detect_order_issues
  detect_order_issues-AreOpen = detect_for_total-AreOpen _ _ source.total

  beautician_issues-AreOpen :
      (id : Option ObjectId) (worker : Option TripIssueWorker)
      → AreOpen (beautician_issues fl hex source now id worker)
  unfolding beautician_issues new_order_issue
  beautician_issues-AreOpen none worker = ((refl, refl, refl, refl), tt)
  beautician_issues-AreOpen (some id) none =
      All-if (λ d. IsOpen (order_life d)) (id == 0) _ _ ((refl, refl, refl, refl), tt)
        ((refl, refl, refl, refl), tt)
  beautician_issues-AreOpen (some id) (some worker) =
      let P : OrderReconciliationIssue F → Type 0 = λ d. IsOpen (order_life d) in
      All-if P (id == 0) _ _ ((refl, refl, refl, refl), tt)
        (All-if P worker.is_deleted _ _ ((refl, refl, refl, refl), tt) tt)

  snapshot_issues-AreOpen :
      (snapshot : Option (CommissionSnapshot F))
      → AreOpen (snapshot_issues fl hex source now snapshot)
  unfolding snapshot_issues new_order_issue
  snapshot_issues-AreOpen none = ((refl, refl, refl, refl), tt)
  snapshot_issues-AreOpen (some snapshot) =
      All-one-if (λ d. IsOpen (order_life d)) _ _ (refl, refl, refl, refl)

  pub detect_order_commission_issues-AreOpen :
      (worker : Option TripIssueWorker)
      → AreOpen (detect_order_commission_issues fl hex source worker now)
  unfolding detect_order_commission_issues
  detect_order_commission_issues-AreOpen worker =
      let P : OrderReconciliationIssue F → Type 0 = λ d. IsOpen (order_life d) in
      All-if P _ [] _ tt (
        All-append P _ _ (beautician_issues-AreOpen source.beautician_id worker)
          (snapshot_issues-AreOpen source.commission_snapshot))
