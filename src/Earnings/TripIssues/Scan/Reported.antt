-- ===== src/Earnings/TripIssues/Scan/Reported.antt =====
-- The keys that a scan of trips collects, ScanTripIssues
-- (internal/earnings/trip_issues_repository.go): those of every issue that it detects.
use hom_swag_reporting.Base.{
  ◌≡◌, refl, sym, ap, subst, Bool, List, [], ◌∷◌, ◌++◌, Text, All, pos, add64,
}
use mathlib.Core.List.{Memᴰ}
use mathlib.Core.List.Memᴰ
use hom_swag_reporting.Money.{Float64}
use hom_swag_reporting.Mongo.{Collection}
use hom_swag_reporting.Earnings.Types.{ObjectId, Instant, ok}
use hom_swag_reporting.Earnings.Action.{Action, lift, >>=-eq-ok, lift-eq-ok, pure-eq-ok}
use hom_swag_reporting.Earnings.Trips.{TripSource}
use hom_swag_reporting.Earnings.OrderIssues.Scan.Reported.{AreAmong, Extends, AreAmong-Extends}
use hom_swag_reporting.Earnings.TripIssues.{TripReconciliationIssue}
use hom_swag_reporting.Earnings.TripIssues.Detection.{detect_trip_issues}
use hom_swag_reporting.Earnings.TripIssues.Store.{upsert_trip_issue}
use hom_swag_reporting.Earnings.TripIssues.Actions.{TripReads, with_rates}
use hom_swag_reporting.Earnings.TripIssues.Scan.{
  TripScan, count_stored_trip_issue, store_trip_issues, scan_trip, scan_trips,
}

module _ (fl : Float64) (hex : ObjectId → Text) (reads : TripReads fl.F)
    (issues : Collection (TripReconciliationIssue fl.F)) (new_id : issues.State → ObjectId)
    (trips : Collection (TripSource fl.F)) where
  open fl use {F}
  open reads use {profiles}

  -- All issues of the trip have their keys collected.
  abbrev pub IsReportedTrip : Instant → List Text → TripSource F → Type 0
  IsReportedTrip now keys trip =
      (detected : List (TripReconciliationIssue F)) × (detect_trip_issues fl hex profiles trip now
        ≡ ok detected)
      × AreAmong (λ d. d.issue_key) keys detected

  store_trip_issues-AreAmong :
      (detected : List (TripReconciliationIssue F)) (scan scan' : TripScan) (s s' : issues.State)
      → store_trip_issues fl hex reads issues new_id trips detected scan s ≡ (ok scan', s')
      → Extends scan.0 scan'.0 × AreAmong (λ d. d.issue_key) scan'.0 detected
  unfolding store_trip_issues
  store_trip_issues-AreAmong [] scan scan' s s' e =
      let same : scan'.0 ≡ scan.0 = ap (λ v. v.0) (pure-eq-ok scan scan' s s' e).0 in
      ((λ k there. subst (λ l. Memᴰ k l) (sym same) there), tt)
  store_trip_issues-AreAmong (issue ∷ detected) (keys, result) scan' s s' e =
      let next : TripReconciliationIssue F × Bool → Action issues.State TripScan =
        λ (stored, is_new).
          store_trip_issues fl hex reads issues new_id trips detected
            (keys ++ issue.issue_key ∷ [], count_stored_trip_issue stored is_new result) in
      let (r, v, first, second) =
        >>=-eq-ok (upsert_trip_issue issues new_id 2 issue) next s s' scan' e in
      let (grows, among) =
        store_trip_issues-AreAmong detected
          (keys ++ issue.issue_key ∷ [], count_stored_trip_issue r.0 r.1 result) scan' v s'
          second in
      (
        λ k there. grows k (Memᴰ.append_left (issue.issue_key ∷ []) there),
        (grows issue.issue_key (Memᴰ.append_right keys (Memᴰ.head refl)), among),
      )

  scan_trip-IsReportedTrip :
      (now : Instant) (trip : TripSource F) (scan scan' : TripScan) (s s' : issues.State)
      → scan_trip fl hex reads issues new_id trips now trip scan s ≡ (ok scan', s')
      → Extends scan.0 scan'.0 × IsReportedTrip now scan'.0 trip
  unfolding scan_trip
  scan_trip-IsReportedTrip now trip (keys, result) scan' s s' e =
      let counted = record result { scanned = add64 result.scanned (pos 1) } in
      let found = detect_trip_issues fl hex profiles trip now in
      let store : List (TripReconciliationIssue F) → Action issues.State TripScan =
        λ detected. store_trip_issues fl hex reads issues new_id trips detected (keys, counted) in
      let (detected, v, first, second) = >>=-eq-ok (lift found) store s s' scan' e in
      let (grows, among) = store_trip_issues-AreAmong detected (keys, counted) scan' v s' second in
      (grows, (detected, (lift-eq-ok found s v detected first).0, among))

  pub scan_trips-AreReported :
      (now : Instant) (rates : F × F) (sources : List (TripSource F)) (scan scan' : TripScan)
      (s s' : issues.State)
      → scan_trips fl hex reads issues new_id trips now rates sources scan s ≡ (ok scan', s')
      → Extends scan.0 scan'.0
        × All (λ trip. IsReportedTrip now scan'.0 (with_rates rates trip)) sources
  unfolding scan_trips
  scan_trips-AreReported now rates [] scan scan' s s' e =
      let same : scan'.0 ≡ scan.0 = ap (λ v. v.0) (pure-eq-ok scan scan' s s' e).0 in
      ((λ k there. subst (λ l. Memᴰ k l) (sym same) there), tt)
  scan_trips-AreReported now rates (trip ∷ sources) scan scan' s s' e =
      let rated = with_rates rates trip in
      let (next, v, first, second) =
        >>=-eq-ok (scan_trip fl hex reads issues new_id trips now rated scan)
          (scan_trips fl hex reads issues new_id trips now rates sources) s s' scan' e in
      let (grows, (detected, found, among)) =
        scan_trip-IsReportedTrip now rated scan next s v first in
      let (later, rest) = scan_trips-AreReported now rates sources next scan' v s' second in
      (
        λ k there. later k (grows k there),
        (
          (
            detected,
            found,
            AreAmong-Extends (λ d. d.issue_key) next.0 scan'.0 later detected among,
          ),
          rest,
        ),
      )
