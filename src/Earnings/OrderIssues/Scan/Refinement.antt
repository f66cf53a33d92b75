-- ===== src/Earnings/OrderIssues/Scan/Refinement.antt =====
-- A scan of orders is a run of steps of the life of issues, the last of which resolve the open
-- issues of its office and dates that it did not detect.
use hom_swag_reporting.Base.{
  ℕ, ◌≡◌, refl, sym, ap, ◌∙◌, subst, true, false, not, inl, Option, List, [], ◌∷◌, ◌++◌, Text, All,
  All-append,
}
use hom_swag_reporting.Money.{Float64}
use hom_swag_reporting.Mongo.{Collection}
use hom_swag_reporting.Mongo.Ids.{IdsApart}
use hom_swag_reporting.Earnings.Types.{ObjectId, Instant, Result, ok}
use hom_swag_reporting.Earnings.Action.Preserves.{
  Preserves, Preserves->>=, Preserves-pure, Preserves-lift, Preserves-if,
}
use hom_swag_reporting.Earnings.Issues.{IsOpen, IsConsistent, Step, closes, closed_as}
use hom_swag_reporting.Earnings.Issues.Evolution.{Evolves-IsConsistent}
use hom_swag_reporting.Earnings.Issues.Progress.{
  IsIndexed, Progress, Progress-refl, Progress-trans, update_many-Progress,
}
use hom_swag_reporting.Earnings.Action.{
  Action, pure, lift, ◌>>=◌, lift-eq-ok, pure-eq-ok, >>=-eq-ok,
}
use hom_swag_reporting.Earnings.Rebuild.{Calendar}
use hom_swag_reporting.Earnings.OrderIssues.Scan.Reported.{IsReported, scan_orders-AreReported}
use hom_swag_reporting.Earnings.OrderIssues.Scan.Sweep.{
  IsMissed, Swept, filter-IsMissed, not_filter-IsMissed, update_all-Swept,
}
use hom_swag_reporting.Earnings.OrderIssues.{
  OrderReconciliationIssue, OrderIssueSource, order_issue_resolved,
}
use hom_swag_reporting.Earnings.OrderIssues.Detection.{TripIssueWorker}
use hom_swag_reporting.Earnings.OrderIssues.Detection.Opened.{
  detect_order_issues-AreOpen, detect_order_commission_issues-AreOpen,
}
use hom_swag_reporting.Earnings.OrderIssues.Store.{upsert_order_issue}
use hom_swag_reporting.Earnings.OrderIssues.Store.Steps.{
  order_life, issue_id, issue_key, upsert_order_issue-Progress,
}
use hom_swag_reporting.Earnings.OrderIssues.Actions.{beautician_of, detect_all}
use hom_swag_reporting.Earnings.OrderIssues.Scan.{
  OrderIssueScanResult, empty_scan, count_stored_issue, auto_resolution, auto_resolve, is_stale,
  valid_order_issue_source, store_detected, scan_order, scan_orders, resolve_stale,
  scan_order_issues, is_scanned,
}

module _ (fl : Float64) (calendar : Calendar) (hex : ObjectId → Text)
    (issues : Collection (OrderReconciliationIssue fl.F)) (new_id : issues.State → ObjectId)
    (orders : Collection (OrderIssueSource fl.F))
    (find_beautician : ObjectId → ObjectId → Result (Option TripIssueWorker))
    (indexed : IsIndexed order_life issue_id issues issue_key new_id) where
  open fl use {F}

  module _ (start : issues.State) where
    -- What has come of the first state.
    abbrev FromStart : issues.State → Type 0
    FromStart s = Progress order_life issue_id issues start s

    upsert-Preserves :
        (issue : OrderReconciliationIssue F)
        → IsOpen (order_life issue)
        → Preserves FromStart (upsert_order_issue issues new_id 2 issue)
    upsert-Preserves issue new = record {
      preserved = λ s s' r p e.
          Progress-trans order_life issue_id issues start s s' p
            (upsert_order_issue-Progress issues new_id indexed 2 issue r s s' new p.1 e);
    }

    store_detected-Preserves :
        (detected : List (OrderReconciliationIssue F)) (scan : List Text × OrderIssueScanResult)
        → All (λ d. IsOpen (order_life d)) detected
        → Preserves FromStart
            (store_detected fl calendar hex issues new_id orders find_beautician detected scan)
    unfolding store_detected
    store_detected-Preserves [] (keys, result) new = Preserves-pure FromStart (keys, result)
    store_detected-Preserves (issue ∷ detected) (keys, result) (new, rest) =
        Preserves->>= FromStart (upsert-Preserves issue new) (λ (stored, is_new).
          store_detected-Preserves detected
            (keys ++ issue.issue_key ∷ [], count_stored_issue stored is_new result) rest)

    scan_order-Preserves :
        (now : Instant) (source : OrderIssueSource F) (scan : List Text × OrderIssueScanResult)
        → Preserves FromStart
            (scan_order fl calendar hex issues new_id orders find_beautician now source scan)
    unfolding scan_order detect_all
    scan_order-Preserves now source (keys, result) =
        Preserves-if FromStart (not (valid_order_issue_source fl calendar source))
          (Preserves-pure FromStart _)
          (Preserves->>= FromStart
            (Preserves-lift FromStart
              (beautician_of fl hex issues new_id orders find_beautician source))
            (λ beautician. store_detected-Preserves _ _ (
              All-append (λ d. IsOpen (order_life d)) _ _
                (detect_order_issues-AreOpen fl hex source now)
                (detect_order_commission_issues-AreOpen fl hex source now beautician))))

    scan_orders-Preserves :
        (now : Instant) (sources : List (OrderIssueSource F))
        (scan : List Text × OrderIssueScanResult)
        → Preserves FromStart
            (scan_orders fl calendar hex issues new_id orders find_beautician now sources scan)
    unfolding scan_orders
    scan_orders-Preserves now [] scan = Preserves-pure FromStart scan
    scan_orders-Preserves now (source ∷ sources) scan =
        Preserves->>= FromStart (scan_order-Preserves now source scan)
          (scan_orders-Preserves now sources)

    auto_resolve-closes :
        (now : Instant) (d : OrderReconciliationIssue F)
        → Step (order_life d) (order_life (auto_resolve now d))
    unfolding auto_resolve
    auto_resolve-closes now d =
        closes order_issue_resolved now d.resolved_by (auto_resolution now) (inl refl) refl

    auto_resolve_id :
        (now : Instant) (d : OrderReconciliationIssue F)
        → issue_id (auto_resolve now d) ≡ issue_id d
    unfolding auto_resolve
    auto_resolve_id now d = refl

    resolve_stale-Preserves :
        (office_id : ObjectId) (start_date end_date : Text) (now : Instant)
        (scan : List Text × OrderIssueScanResult)
        → Preserves FromStart (
            resolve_stale fl calendar hex issues new_id orders find_beautician office_id start_date
              end_date now scan)
    unfolding resolve_stale
    resolve_stale-Preserves office_id start_date end_date now (keys, result) =
        Preserves->>= FromStart
          (record {
            preserved = λ s s' n p e. Progress-trans order_life issue_id issues start s s' p (
                update_many-Progress order_life issue_id issues
                  (is_stale office_id start_date end_date keys) (auto_resolve now)
                  (auto_resolve_id now) s s' p.1 (λ d stale. auto_resolve-closes now d) n e);
          })
          (λ n. Preserves-pure FromStart _)

    scan_order_issues-Preserves :
        (o : orders.State) (office_id : ObjectId) (start_date end_date : Text) (now : Instant)
        → Preserves FromStart (
            scan_order_issues fl calendar hex issues new_id orders find_beautician o office_id
              start_date end_date now)
    unfolding scan_order_issues
    scan_order_issues-Preserves o office_id start_date end_date now =
        Preserves->>= FromStart
          (Preserves-lift FromStart (
            orders.find_sorted (is_scanned fl calendar office_id start_date end_date) (λ a b. false)
              o))
          (λ sources.
            Preserves->>= FromStart (scan_orders-Preserves now sources ([], empty_scan))
              (resolve_stale-Preserves office_id start_date end_date now))

  module _ (o : orders.State) (office_id : ObjectId) (start_date end_date : Text)
      (now : Instant) where
    -- What the scan resolves, given the keys that it collected.
    abbrev pub IsUnreported : List Text → OrderReconciliationIssue F → Type 0
    IsUnreported keys d =
        IsMissed office_id start_date end_date keys d.office_id d.service_date d.status d.issue_key

    abbrev pub IsResolved : OrderReconciliationIssue F → OrderReconciliationIssue F → Type 0
    IsResolved d x =
        (x.id ≡ d.id)
        × (x.issue_key ≡ d.issue_key)
        × (order_life x
            ≡ closed_as order_issue_resolved now d.resolved_by (auto_resolution now) (order_life d))

    -- The two phases, with the issues between them: the keys of all that was detected, and what the
    -- second phase resolves.
    abbrev pub IsScan : issues.State → issues.State → Type 0
    IsScan s s' =
        (sources : List (OrderIssueSource F)) × (scan : List Text × OrderIssueScanResult)
        × (between : issues.State) × (orders.find_sorted
              (is_scanned fl calendar office_id start_date end_date) (λ a b. false) o
            ≡ ok sources)
        × (scan_orders fl calendar hex issues new_id orders find_beautician now sources
              ([], empty_scan) s
            ≡ (ok scan, between))
        × All (IsReported fl calendar hex issues new_id orders find_beautician now scan.0) sources
        × Swept (IsUnreported scan.0) IsResolved (issues.documents between) (issues.documents s')

    auto_resolve-IsResolved : (d : OrderReconciliationIssue F) → IsResolved d (auto_resolve now d)
    unfolding auto_resolve
    auto_resolve-IsResolved d = (refl, refl, refl)

    is_stale-IsMissed :
        (keys : List Text) (d : OrderReconciliationIssue F)
        → is_stale office_id start_date end_date keys d ≡ true
        → IsUnreported keys d
    unfolding is_stale
    is_stale-IsMissed keys d =
        filter-IsMissed office_id start_date end_date keys d.office_id d.service_date d.status
          d.issue_key

    not_stale-IsMissed :
        (keys : List Text) (d : OrderReconciliationIssue F)
        → is_stale office_id start_date end_date keys d ≡ false
        → ¬ IsUnreported keys d
    unfolding is_stale
    not_stale-IsMissed keys d =
        not_filter-IsMissed office_id start_date end_date keys d.office_id d.service_date d.status
          d.issue_key

    resolve_stale-Swept :
        (scan : List Text × OrderIssueScanResult) (s s' : issues.State)
        (result : OrderIssueScanResult)
        → resolve_stale fl calendar hex issues new_id orders find_beautician office_id start_date
            end_date now scan s
          ≡ (ok result, s')
        → Swept (IsUnreported scan.0) IsResolved (issues.documents s) (issues.documents s')
    unfolding resolve_stale
    resolve_stale-Swept (keys, counts) s s' result e =
        let stale = is_stale office_id start_date end_date keys in
        let counted : ℕ → OrderIssueScanResult =
          λ resolved. record counts { auto_resolved = resolved } in
        let (n, v, first, second) =
          >>=-eq-ok (issues.update_many stale (auto_resolve now))
            (λ resolved. pure (counted resolved)) s s' result e in
        let same : s' ≡ v = (pure-eq-ok (counted n) result v s' second).1 in
        let swept =
          update_all-Swept (IsUnreported keys) IsResolved stale (auto_resolve now)
            (is_stale-IsMissed keys) (not_stale-IsMissed keys) auto_resolve-IsResolved
            (issues.documents s) in
        subst (λ l. Swept (IsUnreported keys) IsResolved (issues.documents s) l)
          (sym (ap issues.documents same ∙ (issues.update_many_done _ _ s v n first).0)) swept

    scan_order_issues-IsScan :
        (s s' : issues.State) (result : OrderIssueScanResult)
        → scan_order_issues fl calendar hex issues new_id orders find_beautician o office_id
            start_date end_date now s
          ≡ (ok result, s')
        → IsScan s s'
    unfolding scan_order_issues
    scan_order_issues-IsScan s s' result e =
        let found =
          orders.find_sorted (is_scanned fl calendar office_id start_date end_date) (λ a b. false)
            o in
        let scanning : List (OrderIssueSource F)
            → Action issues.State (List Text × OrderIssueScanResult) =
          λ sources.
            scan_orders fl calendar hex issues new_id orders find_beautician now sources
              ([], empty_scan) in
        let resolving =
          resolve_stale fl calendar hex issues new_id orders find_beautician office_id start_date
            end_date now in
        let (sources, v, loaded, rest) =
          >>=-eq-ok (lift found) (λ sources. scanning sources >>= resolving) s s' result e in
        let (is_found, same) = lift-eq-ok found s v sources loaded in
        let (scan, between, first, second) =
          >>=-eq-ok (scanning sources) resolving v s' result rest in
        let from_start = subst (λ u. scanning sources u ≡ (ok scan, between)) same first in
        let reported =
          (scan_orders-AreReported fl calendar hex issues new_id orders find_beautician now sources
            ([], empty_scan) scan s between from_start).1 in
        (
          sources,
          scan,
          between,
          is_found,
          from_start,
          reported,
          resolve_stale-Swept scan between s' result second,
        )

  -- A scan that succeeds takes the issues through steps of their life, keeps the ids apart, and
  -- leaves every issue consistent if all were: an open one bears no trace of a resolution, and a
  -- closed one tells the last entry of its history. Its first phase stores what it detects in the
  -- orders and collects the key of every issue of every valid order; its second phase resolves
  -- the open issues of the office and the dates whose key was not collected, and no others.
  pub scan_order_issues-Progress :
      (o : orders.State) (office_id : ObjectId) (start_date end_date : Text) (now : Instant)
      (s s' : issues.State) (result : OrderIssueScanResult)
      → IdsApart issue_id (issues.documents s)
      → All (λ d. IsConsistent (order_life d)) (issues.documents s)
      → scan_order_issues fl calendar hex issues new_id orders find_beautician o office_id
          start_date end_date now s
        ≡ (ok result, s')
      → Progress order_life issue_id issues s s'
        × All (λ d. IsConsistent (order_life d)) (issues.documents s')
        × IsScan o office_id start_date end_date now s s'
  scan_order_issues-Progress o office_id start_date end_date now s s' result apart consistent e =
      let progress =
        (scan_order_issues-Preserves s o office_id start_date end_date now).preserved s s' result
          (Progress-refl order_life issue_id issues s apart) e in
      (
        progress,
        Evolves-IsConsistent order_life (issues.documents s) (issues.documents s') progress.0
            consistent,
        scan_order_issues-IsScan o office_id start_date end_date now s s' result e,
      )
