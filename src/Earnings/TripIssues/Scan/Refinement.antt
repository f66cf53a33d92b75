-- ===== src/Earnings/TripIssues/Scan/Refinement.antt =====
-- A scan of trips is a run of steps of the life of issues, the last of which resolve the open
-- issues of its office and dates that it did not detect.
use hom_swag_reporting.Base.{
  ℕ, ◌≡◌, refl, subst, sym, ap, ◌∙◌, true, Option, false, inl, pos, add64, List, [], ◌∷◌, ◌++◌,
  Text, All,
}
use hom_swag_reporting.Money.{Float64}
use hom_swag_reporting.Mongo.{Collection}
use hom_swag_reporting.Mongo.Ids.{IdsApart}
use hom_swag_reporting.Earnings.Types.{ObjectId, Instant, ok}
use hom_swag_reporting.Earnings.Action.{
  Action, pure, lift, ◌>>=◌, lift-eq-ok, pure-eq-ok, >>=-eq-ok,
}
use hom_swag_reporting.Earnings.TripIssues.Scan.Reported.{IsReportedTrip, scan_trips-AreReported}
use hom_swag_reporting.Earnings.OrderIssues.Scan.Sweep.{
  IsMissed, Swept, filter-IsMissed, not_filter-IsMissed, update_all-Swept,
}
use hom_swag_reporting.Earnings.Action.Preserves.{
  Preserves, Preserves->>=, Preserves-pure, Preserves-lift,
}
use hom_swag_reporting.Earnings.Issues.{IsOpen, IsConsistent, Step, closes, closed_as}
use hom_swag_reporting.Earnings.Issues.Evolution.{Evolves-IsConsistent}
use hom_swag_reporting.Earnings.Issues.Progress.{
  IsIndexed, Progress, Progress-refl, Progress-trans, update_many-Progress,
}
use hom_swag_reporting.Earnings.OrderIssues.{order_issue_resolved}
use hom_swag_reporting.Earnings.Trips.{TripSource}
use hom_swag_reporting.Earnings.TripIssues.{TripReconciliationIssue}
use hom_swag_reporting.Earnings.TripIssues.Detection.{detect_trip_issues}
use hom_swag_reporting.Earnings.TripIssues.Detection.Opened.{detect_trip_issues-AreOpen}
use hom_swag_reporting.Earnings.TripIssues.Store.{upsert_trip_issue}
use hom_swag_reporting.Earnings.TripIssues.Store.Steps.{
  trip_life, trip_issue_id, trip_issue_key, upsert_trip_issue-Progress,
}
use hom_swag_reporting.Earnings.TripIssues.Actions.{TripReads, with_rates, office_rates}
use hom_swag_reporting.Earnings.TripIssues.Scan.{
  TripScan, TripIssueScanResult, empty_trip_scan, count_stored_trip_issue, trip_auto_resolution,
  auto_resolve_trip, is_stale_trip_issue, is_scanned_trip, store_trip_issues, scan_trip, scan_trips,
  resolve_stale_trip_issues, scan_trip_issues,
}

module _ (fl : Float64) (hex : ObjectId → Text) (reads : TripReads fl.F)
    (issues : Collection (TripReconciliationIssue fl.F)) (new_id : issues.State → ObjectId)
    (trips : Collection (TripSource fl.F))
    (indexed : IsIndexed trip_life trip_issue_id issues trip_issue_key new_id) where
  open fl use {F}

  module _ (start : issues.State) where
    -- What has come of the first state.
    abbrev FromStart : issues.State → Type 0
    FromStart s = Progress trip_life trip_issue_id issues start s

    upsert-Preserves :
        (issue : TripReconciliationIssue F)
        → IsOpen (trip_life issue)
        → Preserves FromStart (upsert_trip_issue issues new_id 2 issue)
    upsert-Preserves issue new = record {
      preserved = λ s s' r p e.
          Progress-trans trip_life trip_issue_id issues start s s' p
            (upsert_trip_issue-Progress issues new_id indexed 2 issue r s s' new p.1 e);
    }

    store-Preserves :
        (detected : List (TripReconciliationIssue F)) (scan : TripScan)
        → All (λ d. IsOpen (trip_life d)) detected
        → Preserves FromStart (store_trip_issues fl hex reads issues new_id trips detected scan)
    unfolding store_trip_issues
    store-Preserves [] (keys, result) new = Preserves-pure FromStart (keys, result)
    store-Preserves (issue ∷ detected) (keys, result) (new, rest) =
        Preserves->>= FromStart (upsert-Preserves issue new) (λ (stored, is_new).
          store-Preserves detected
            (keys ++ issue.issue_key ∷ [], count_stored_trip_issue stored is_new result) rest)

    scan_trip-Preserves :
        (now : Instant) (trip : TripSource F) (scan : TripScan)
        → Preserves FromStart (scan_trip fl hex reads issues new_id trips now trip scan)
    unfolding scan_trip
    scan_trip-Preserves now trip (keys, result) = record {
      preserved = λ s s' after p e.
          let found = detect_trip_issues fl hex reads.profiles trip now in
          let counted = record result { scanned = add64 result.scanned (pos 1) } in
          let (detected, v, read, rest) =
            >>=-eq-ok (lift found)
              (λ issues_found.
                store_trip_issues fl hex reads issues new_id trips issues_found (keys, counted))
              s s' after e in
          let (same, still) = lift-eq-ok found s v detected read in
          (store-Preserves detected (keys, counted)
              (detect_trip_issues-AreOpen fl hex reads.profiles trip now detected same)).preserved
            v s' after (subst FromStart (sym still) p) rest;
    }

    scan_trips-Preserves :
        (now : Instant) (rates : F × F) (found : List (TripSource F)) (scan : TripScan)
        → Preserves FromStart (scan_trips fl hex reads issues new_id trips now rates found scan)
    unfolding scan_trips
    scan_trips-Preserves now rates [] scan = Preserves-pure FromStart scan
    scan_trips-Preserves now rates (trip ∷ found) scan =
        Preserves->>= FromStart (scan_trip-Preserves now (with_rates rates trip) scan)
          (scan_trips-Preserves now rates found)

    auto_resolve-closes :
        (now : Instant) (d : TripReconciliationIssue F)
        → Step (trip_life d) (trip_life (auto_resolve_trip now d))
    unfolding auto_resolve_trip
    auto_resolve-closes now d =
        closes order_issue_resolved now d.resolved_by (trip_auto_resolution now) (inl refl) refl

    auto_resolve_id :
        (now : Instant) (d : TripReconciliationIssue F)
        → trip_issue_id (auto_resolve_trip now d) ≡ trip_issue_id d
    unfolding auto_resolve_trip
    auto_resolve_id now d = refl

    resolve_stale-Preserves :
        (office_id : ObjectId) (start_date end_date : Text) (now : Instant) (scan : TripScan)
        → Preserves FromStart (
            resolve_stale_trip_issues fl hex reads issues new_id trips office_id start_date end_date
              now scan)
    unfolding resolve_stale_trip_issues
    resolve_stale-Preserves office_id start_date end_date now (keys, result) =
        Preserves->>= FromStart
          (record {
            preserved = λ s s' n p e. Progress-trans trip_life trip_issue_id issues start s s' p (
                update_many-Progress trip_life trip_issue_id issues
                  (is_stale_trip_issue office_id start_date end_date keys) (auto_resolve_trip now)
                  (auto_resolve_id now) s s' p.1 (λ d stale. auto_resolve-closes now d) n e);
          })
          (λ n. Preserves-pure FromStart _)

    scan_trip_issues-Preserves :
        (t : trips.State) (office_id : ObjectId) (start_date end_date : Text) (now : Instant)
        → Preserves FromStart
            (scan_trip_issues fl hex reads issues new_id trips t office_id start_date end_date now)
    unfolding scan_trip_issues
    scan_trip_issues-Preserves t office_id start_date end_date now =
        Preserves->>= FromStart
          (Preserves-lift FromStart
            (trips.find_sorted (is_scanned_trip fl office_id start_date end_date) (λ a b. false) t))
          (λ found.
            Preserves->>= FromStart (Preserves-lift FromStart (reads.find_rates office_id))
              (λ rates.
                Preserves->>= FromStart
                  (scan_trips-Preserves now (office_rates fl rates) found ([], empty_trip_scan))
                  (resolve_stale-Preserves office_id start_date end_date now)))

  module _ (t : trips.State) (office_id : ObjectId) (start_date end_date : Text)
      (now : Instant) where
    -- What the scan resolves, given the keys that it collected.
    abbrev pub IsUnreported : List Text → TripReconciliationIssue F → Type 0
    IsUnreported keys d =
        IsMissed office_id start_date end_date keys d.office_id d.service_date d.status d.issue_key

    abbrev pub IsResolved : TripReconciliationIssue F → TripReconciliationIssue F → Type 0
    IsResolved d x =
        (x.id ≡ d.id)
        × (x.issue_key ≡ d.issue_key)
        × (trip_life x
            ≡ closed_as order_issue_resolved now d.resolved_by (trip_auto_resolution now)
                (trip_life d))

    -- The two phases, with the issues between them: the keys of all that was detected, and what the
    -- second phase resolves.
    abbrev pub IsScan : issues.State → issues.State → Type 0
    IsScan s s' =
        (sources : List (TripSource F)) × (rates : Option (F × F)) × (scan : TripScan)
        × (between : issues.State) × (trips.find_sorted
              (is_scanned_trip fl office_id start_date end_date) (λ a b. false) t
            ≡ ok sources)
        × (reads.find_rates office_id ≡ ok rates)
        × (scan_trips fl hex reads issues new_id trips now (office_rates fl rates) sources
              ([], empty_trip_scan) s
            ≡ (ok scan, between))
        × All
            (λ trip.
              IsReportedTrip fl hex reads issues new_id trips now scan.0
                (with_rates (office_rates fl rates) trip))
            sources
        × Swept (IsUnreported scan.0) IsResolved (issues.documents between) (issues.documents s')

    auto_resolve-IsResolved :
        (d : TripReconciliationIssue F) → IsResolved d (auto_resolve_trip now d)
    unfolding auto_resolve_trip
    auto_resolve-IsResolved d = (refl, refl, refl)

    is_stale-IsMissed :
        (keys : List Text) (d : TripReconciliationIssue F)
        → is_stale_trip_issue office_id start_date end_date keys d ≡ true
        → IsUnreported keys d
    unfolding is_stale_trip_issue
    is_stale-IsMissed keys d =
        filter-IsMissed office_id start_date end_date keys d.office_id d.service_date d.status
          d.issue_key

    not_stale-IsMissed :
        (keys : List Text) (d : TripReconciliationIssue F)
        → is_stale_trip_issue office_id start_date end_date keys d ≡ false
        → ¬ IsUnreported keys d
    unfolding is_stale_trip_issue
    not_stale-IsMissed keys d =
        not_filter-IsMissed office_id start_date end_date keys d.office_id d.service_date d.status
          d.issue_key

    resolve_stale-Swept :
        (scan : TripScan) (s s' : issues.State) (result : TripIssueScanResult)
        → resolve_stale_trip_issues fl hex reads issues new_id trips office_id start_date end_date
            now scan s
          ≡ (ok result, s')
        → Swept (IsUnreported scan.0) IsResolved (issues.documents s) (issues.documents s')
    unfolding resolve_stale_trip_issues
    resolve_stale-Swept (keys, counts) s s' result e =
        let stale = is_stale_trip_issue office_id start_date end_date keys in
        let counted : ℕ → TripIssueScanResult =
          λ resolved. record counts { auto_resolved = resolved } in
        let (n, v, first, second) =
          >>=-eq-ok (issues.update_many stale (auto_resolve_trip now))
            (λ resolved. pure (counted resolved)) s s' result e in
        let same : s' ≡ v = (pure-eq-ok (counted n) result v s' second).1 in
        let swept =
          update_all-Swept (IsUnreported keys) IsResolved stale (auto_resolve_trip now)
            (is_stale-IsMissed keys) (not_stale-IsMissed keys) auto_resolve-IsResolved
            (issues.documents s) in
        subst (λ l. Swept (IsUnreported keys) IsResolved (issues.documents s) l)
          (sym (ap issues.documents same ∙ (issues.update_many_done _ _ s v n first).0)) swept

    scan_trip_issues-IsScan :
        (s s' : issues.State) (result : TripIssueScanResult)
        → scan_trip_issues fl hex reads issues new_id trips t office_id start_date end_date now s
          ≡ (ok result, s')
        → IsScan s s'
    unfolding scan_trip_issues
    scan_trip_issues-IsScan s s' result e =
        let found =
          trips.find_sorted (is_scanned_trip fl office_id start_date end_date) (λ a b. false) t in
        let scanning : Option (F × F) → List (TripSource F) → Action issues.State TripScan =
          λ rates sources.
            scan_trips fl hex reads issues new_id trips now (office_rates fl rates) sources
              ([], empty_trip_scan) in
        let resolving =
          resolve_stale_trip_issues fl hex reads issues new_id trips office_id start_date end_date
            now in
        let rated : List (TripSource F) → Option (F × F) → Action issues.State TripIssueScanResult =
          λ sources rates. scanning rates sources >>= resolving in
        let (sources, v, loaded, then_rated) =
          >>=-eq-ok (lift found) (λ sources. lift (reads.find_rates office_id) >>= rated sources) s
            s' result e in
        let (is_found, same) = lift-eq-ok found s v sources loaded in
        let (rates, u, with_them, rest) =
          >>=-eq-ok (lift (reads.find_rates office_id)) (rated sources) v s' result then_rated in
        let (are_rates, still) = lift-eq-ok (reads.find_rates office_id) v u rates with_them in
        let (scan, between, first, second) =
          >>=-eq-ok (scanning rates sources) resolving u s' result rest in
        let from_start =
          subst (λ x. scanning rates sources x ≡ (ok scan, between)) (still ∙ same) first in
        (
          sources,
          rates,
          scan,
          between,
          is_found,
          are_rates,
          from_start,
          (scan_trips-AreReported fl hex reads issues new_id trips now (office_rates fl rates)
              sources ([], empty_trip_scan) scan s between from_start).1,
          resolve_stale-Swept scan between s' result second,
        )

  -- A scan of trips that succeeds takes the trip issues through steps of their life, keeps the ids
  -- apart, and leaves every issue consistent if all were: an open one bears no trace of a
  -- resolution, and a closed one tells the last entry of its history. Its first phase stores what
  -- it detects in the trips, with the rates of the office, and collects the key of every issue; its
  -- second phase resolves the open issues of the office and the dates whose key was not collected,
  -- and no others.
  pub scan_trip_issues-Progress :
      (t : trips.State) (office_id : ObjectId) (start_date end_date : Text) (now : Instant)
      (s s' : issues.State) (result : TripIssueScanResult)
      → IdsApart trip_issue_id (issues.documents s)
      → All (λ d. IsConsistent (trip_life d)) (issues.documents s)
      → scan_trip_issues fl hex reads issues new_id trips t office_id start_date end_date now s
        ≡ (ok result, s')
      → Progress trip_life trip_issue_id issues s s'
        × All (λ d. IsConsistent (trip_life d)) (issues.documents s')
        × IsScan t office_id start_date end_date now s s'
  scan_trip_issues-Progress t office_id start_date end_date now s s' result apart consistent e =
      let progress =
        (scan_trip_issues-Preserves s t office_id start_date end_date now).preserved s s' result
          (Progress-refl trip_life trip_issue_id issues s apart) e in
      (
        progress,
        Evolves-IsConsistent trip_life (issues.documents s) (issues.documents s') progress.0
            consistent,
        scan_trip_issues-IsScan t office_id start_date end_date now s s' result e,
      )
