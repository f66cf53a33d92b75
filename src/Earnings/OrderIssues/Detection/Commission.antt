-- ===== src/Earnings/OrderIssues/Detection/Commission.antt =====
-- When the commission detection reports nothing.
use hom_swag_reporting.Base.{
  ◌==◌, Bool, true, false, not, ◌&&◌, ◌||◌, ◌≡◌, refl, Option, none, some, List, [], ◌∷◌, ◌++◌,
  Text, is_empty, if◌then◌else◌, arith,
}
use hom_swag_reporting.Money.{Float64}
use hom_swag_reporting.Earnings.Types.{ObjectId, Instant}
use hom_swag_reporting.Earnings.OrderIssues.{CommissionSnapshot, OrderIssueSource}
use hom_swag_reporting.Earnings.OrderIssues.Detection.{
  TripIssueWorker, is_none, is_invalid_commission, invalid_fields, beautician_issues,
  snapshot_issues, detect_order_commission_issues,
}

is_empty-append : {A : Type 0} (xs ys : List A) → is_empty (xs ++ ys) ≡ (is_empty xs && is_empty ys)
is_empty-append [] ys = refl
is_empty-append (x ∷ xs) ys = refl

-- A profile that was found, and is not deleted.
abbrev pub is_active : Option TripIssueWorker → Bool
is_active none = false
is_active (some worker) = not worker.is_deleted

-- The order names a beautician, whose profile is active.
abbrev pub is_attributed : Option ObjectId → Option TripIssueWorker → Bool
is_attributed none worker = false
is_attributed (some id) worker = not (id == 0) && is_active worker

module _ (fl : Float64) (hex : ObjectId → Text) where
  open fl use {F, is_nan, is_inf, lt_f, zero_f}

  -- An amount that is there, finite and not negative.
  abbrev pub is_amount : Option F → Bool
  is_amount none = false
  is_amount (some value) = not (is_nan value) && not (is_inf value) && not (lt_f value zero_f)

  -- The snapshot is there, with its four amounts.
  abbrev pub is_auditable : Option (CommissionSnapshot F) → Bool
  is_auditable none = false
  is_auditable (some s) =
      is_amount s.order_cost
      && is_amount s.special_commission
      && is_amount s.general_commission
      && is_amount s.upgrade_addon_commission

  invalid-amount : (value : Option F) → is_invalid_commission fl hex value ≡ not (is_amount value)
  unfolding is_invalid_commission
  invalid-amount none = refl
  invalid-amount (some value) = ground arith

  invalid_fields-empty :
      (s : CommissionSnapshot F) → is_empty (invalid_fields fl hex s) ≡ is_auditable (some s)
  unfolding invalid_fields
  invalid_fields-empty s =
      rw
        (
          invalid-amount s.order_cost,
          invalid-amount s.special_commission,
          invalid-amount s.general_commission,
          invalid-amount s.upgrade_addon_commission,
        )
        (ground arith)

  beautician_issues-empty :
      (source : OrderIssueSource F) (now : Instant) (id : Option ObjectId)
      (worker : Option TripIssueWorker)
      → is_empty (beautician_issues fl hex source now id worker) ≡ is_attributed id worker
  unfolding beautician_issues
  beautician_issues-empty source now none worker = refl
  beautician_issues-empty source now (some id) none = ground arith
  beautician_issues-empty source now (some id) (some worker) = ground arith

  snapshot_issues-empty :
      (source : OrderIssueSource F) (now : Instant) (s : Option (CommissionSnapshot F))
      → is_empty (snapshot_issues fl hex source now s) ≡ is_auditable s
  unfolding snapshot_issues
  snapshot_issues-empty source now none = refl
  snapshot_issues-empty source now (some s) =
      rw (← (invalid_fields-empty s)) (emptied _ (is_empty (invalid_fields fl hex s)))
    where
      emptied : {A : Type 0} (x : A) (b : Bool) → is_empty (if b then [] else x ∷ []) ≡ b
      emptied x true = refl
      emptied x false = refl

  -- The commission detection reports nothing exactly for an order that has neither a beautician nor
  -- a commission snapshot, and for one that names a beautician with an active profile and has a
  -- snapshot whose four amounts are finite and not negative.
  pub detect_order_commission_issues-empty :
      (source : OrderIssueSource F) (worker : Option TripIssueWorker) (now : Instant)
      → is_empty (detect_order_commission_issues fl hex source worker now) ≡ (
          (is_none source.beautician_id && is_none source.commission_snapshot)
          || (is_attributed source.beautician_id worker && is_auditable source.commission_snapshot))
  unfolding detect_order_commission_issues
  detect_order_commission_issues-empty source worker now =
      rw
        (
          ← (beautician_issues-empty source now source.beautician_id worker),
          ← (snapshot_issues-empty source now source.commission_snapshot),
          ← (
              is_empty-append (beautician_issues fl hex source now source.beautician_id worker)
                (snapshot_issues fl hex source now source.commission_snapshot)),
        )
        (guarded (is_none source.beautician_id && is_none source.commission_snapshot) _)
    where
      guarded :
          {A : Type 0} (b : Bool) (xs : List A)
          → is_empty (if b then [] else xs) ≡ (b || is_empty xs)
      guarded true xs = refl
      guarded false xs = refl
