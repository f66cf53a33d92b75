-- ===== src/Earnings/OrderIssues/Scan/Reported.antt =====
-- The keys that a scan of orders collects, ScanOrderIssues
-- (internal/earnings/order_issues_repository.go): those of every issue that it detects.
use hom_swag_reporting.Base.{
  ◌≡◌, refl, sym, ap, subst, ◌⊎◌, inl, inr, Bool, true, false, not, Option, List, [], ◌∷◌, ◌++◌,
  Text, All, pos, add64, if◌then◌else◌,
}
use mathlib.Core.List.{Memᴰ}
use mathlib.Core.List.Memᴰ
use hom_swag_reporting.Money.{Float64}
use hom_swag_reporting.Mongo.{Collection}
use hom_swag_reporting.Earnings.Types.{ObjectId, Instant, Result, ok}
use hom_swag_reporting.Earnings.Action.{
  Action, pure, lift, ◌>>=◌, >>=-eq-ok, lift-eq-ok, pure-eq-ok,
}
use hom_swag_reporting.Earnings.Rebuild.{Calendar}
use hom_swag_reporting.Earnings.OrderIssues.{OrderReconciliationIssue, OrderIssueSource}
use hom_swag_reporting.Earnings.OrderIssues.Detection.{TripIssueWorker}
use hom_swag_reporting.Earnings.OrderIssues.Store.{upsert_order_issue}
use hom_swag_reporting.Earnings.OrderIssues.Actions.{beautician_of, detect_all}
use hom_swag_reporting.Earnings.OrderIssues.Scan.{
  OrderIssueScanResult, count_stored_issue, valid_order_issue_source, store_detected, scan_order,
  scan_orders,
}

abbrev pub AreAmong : {D : Type 0} → (D → Text) → List Text → List D → Type 0
AreAmong key keys detected = All (λ d. Memᴰ (key d) keys) detected

abbrev pub Extends : List Text → List Text → Type 0
Extends keys keys' = (k : Text) → Memᴰ k keys → Memᴰ k keys'

pub AreAmong-Extends :
    {D : Type 0} (key : D → Text) (keys keys' : List Text)
    → Extends keys keys'
    → (detected : List D) → AreAmong key keys detected
    → AreAmong key keys' detected
AreAmong-Extends key keys keys' grows [] among = tt
AreAmong-Extends key keys keys' grows (d ∷ detected) (here, rest) =
    (grows (key d) here, AreAmong-Extends key keys keys' grows detected rest)

module _ (fl : Float64) (calendar : Calendar) (hex : ObjectId → Text)
    (issues : Collection (OrderReconciliationIssue fl.F)) (new_id : issues.State → ObjectId)
    (orders : Collection (OrderIssueSource fl.F))
    (find_beautician : ObjectId → ObjectId → Result (Option TripIssueWorker)) where
  open fl use {F}

  abbrev Scanned : Type 0
  Scanned = List Text × OrderIssueScanResult

  -- An order that is not valid, or all of whose issues have their keys collected.
  abbrev pub IsReported : Instant → List Text → OrderIssueSource F → Type 0
  IsReported now keys source =
      (valid_order_issue_source fl calendar source ≡ false)
      ⊎ ((beautician : Option TripIssueWorker) × (beautician_of fl hex issues new_id orders
              find_beautician source
            ≡ ok beautician)
          × AreAmong (λ d. d.issue_key) keys
              (detect_all fl hex issues new_id orders find_beautician source beautician now))

  IsReported-Extends :
      (now : Instant) (keys keys' : List Text) (source : OrderIssueSource F)
      → Extends keys keys'
      → IsReported now keys source
      → IsReported now keys' source
  IsReported-Extends now keys keys' source grows (inl bad) = inl bad
  IsReported-Extends now keys keys' source grows (inr (beautician, found, among)) =
      inr (beautician, found, AreAmong-Extends (λ d. d.issue_key) keys keys' grows _ among)

  store_detected-AreAmong :
      (detected : List (OrderReconciliationIssue F)) (scan scan' : Scanned) (s s' : issues.State)
      → store_detected fl calendar hex issues new_id orders find_beautician detected scan s
        ≡ (ok scan', s')
      → Extends scan.0 scan'.0 × AreAmong (λ d. d.issue_key) scan'.0 detected
  unfolding store_detected
  store_detected-AreAmong [] scan scan' s s' e =
      let same : scan'.0 ≡ scan.0 = ap (λ v. v.0) (pure-eq-ok scan scan' s s' e).0 in
      ((λ k there. subst (λ l. Memᴰ k l) (sym same) there), tt)
  store_detected-AreAmong (issue ∷ detected) (keys, result) scan' s s' e =
      let next : OrderReconciliationIssue F × Bool → Action issues.State Scanned =
        λ (stored, is_new).
          store_detected fl calendar hex issues new_id orders find_beautician detected
            (keys ++ issue.issue_key ∷ [], count_stored_issue stored is_new result) in
      let (r, v, first, second) =
        >>=-eq-ok (upsert_order_issue issues new_id 2 issue) next s s' scan' e in
      let (grows, among) =
        store_detected-AreAmong detected
          (keys ++ issue.issue_key ∷ [], count_stored_issue r.0 r.1 result) scan' v s' second in
      (
        λ k there. grows k (Memᴰ.append_left (issue.issue_key ∷ []) there),
        (grows issue.issue_key (Memᴰ.append_right keys (Memᴰ.head refl)), among),
      )

  scan_order-IsReported :
      (now : Instant) (source : OrderIssueSource F) (scan scan' : Scanned) (s s' : issues.State)
      → scan_order fl calendar hex issues new_id orders find_beautician now source scan s
        ≡ (ok scan', s')
      → Extends scan.0 scan'.0 × IsReported now scan'.0 source
  unfolding scan_order
  scan_order-IsReported now source (keys, result) scan' s s' e =
      split (valid_order_issue_source fl calendar source) refl e
    where
      counted : OrderIssueScanResult
      counted = record result { scanned = add64 result.scanned (pos 1) }

      split :
          (b : Bool)
          → valid_order_issue_source fl calendar source ≡ b
          → (if not b
                then pure (keys, counted)
                else lift (beautician_of fl hex issues new_id orders find_beautician source)
                  >>= λ beautician.
                      store_detected fl calendar hex issues new_id orders find_beautician
                        (detect_all fl hex issues new_id orders find_beautician source beautician
                          now)
                        (keys, counted))
              s
            ≡ (ok scan', s')
          → Extends keys scan'.0 × IsReported now scan'.0 source
      split false bad h =
          let same : scan'.0 ≡ keys = ap (λ v. v.0) (pure-eq-ok (keys, counted) scan' s s' h).0 in
          ((λ k there. subst (λ l. Memᴰ k l) (sym same) there), inl bad)
      split true valid h =
          let loaded = beautician_of fl hex issues new_id orders find_beautician source in
          let store : Option TripIssueWorker → Action issues.State Scanned = λ beautician.
            store_detected fl calendar hex issues new_id orders find_beautician
              (detect_all fl hex issues new_id orders find_beautician source beautician now)
              (keys, counted) in
          let (beautician, v, first, second) = >>=-eq-ok (lift loaded) store s s' scan' h in
          let detected =
            detect_all fl hex issues new_id orders find_beautician source beautician now in
          let (grows, among) = store_detected-AreAmong detected (keys, counted) scan' v s' second in
          (grows, inr (beautician, (lift-eq-ok loaded s v beautician first).0, among))

  pub scan_orders-AreReported :
      (now : Instant) (sources : List (OrderIssueSource F)) (scan scan' : Scanned)
      (s s' : issues.State)
      → scan_orders fl calendar hex issues new_id orders find_beautician now sources scan s
        ≡ (ok scan', s')
      → Extends scan.0 scan'.0 × All (IsReported now scan'.0) sources
  unfolding scan_orders
  scan_orders-AreReported now [] scan scan' s s' e =
      let same : scan'.0 ≡ scan.0 = ap (λ v. v.0) (pure-eq-ok scan scan' s s' e).0 in
      ((λ k there. subst (λ l. Memᴰ k l) (sym same) there), tt)
  scan_orders-AreReported now (source ∷ sources) scan scan' s s' e =
      let step = scan_order fl calendar hex issues new_id orders find_beautician now source scan in
      let (next, v, first, second) =
        >>=-eq-ok step
          (scan_orders fl calendar hex issues new_id orders find_beautician now sources) s s' scan'
          e in
      let (grows, reported) = scan_order-IsReported now source scan next s v first in
      let (later, rest) = scan_orders-AreReported now sources next scan' v s' second in
      (
        λ k there. later k (grows k there),
        (IsReported-Extends now next.0 scan'.0 source later reported, rest),
      )
