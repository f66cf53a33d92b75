-- ===== src/Earnings/TripIssues/Actions/Refinement.antt =====
-- Every action on a trip issue is a run of steps of the life of issues, and has a reason.
use hom_swag_reporting.Base.{
  ◌==◌, ◌≡◌, refl, sym, ap, subst, not, ◌&&◌, inl, inr, Option, none, some, Text, eqb_text,
  if◌then◌else◌,
}
use hom_swag_reporting.Money.{Float64}
use hom_swag_reporting.Mongo.{first_match, Collection}
use hom_swag_reporting.Mongo.Keeps.{first_match-All}
use hom_swag_reporting.Earnings.Types.{
  ObjectId, Instant, no_documents, trip_issue_not_found, trip_issue_already_closed,
  trip_issue_unsupported, trip_issue_paid,
}
use hom_swag_reporting.Earnings.Action.{Action, lift, >>=-eq-ok, lift-eq-ok}
use hom_swag_reporting.Earnings.Action.Preserves.{
  Preserves, Preserves->>=, Preserves-still, Preserves-pure, Preserves-raise, Preserves-lift,
  Preserves-raise_if, Preserves-if,
}
use hom_swag_reporting.Earnings.Issues.{IsOpen, IsClosing}
use hom_swag_reporting.Earnings.Issues.Progress.{Progress}
use hom_swag_reporting.Earnings.OrderIssues.{
  order_issue_open, order_issue_resolved, order_issue_accepted,
}
use hom_swag_reporting.Earnings.Trips.{
  TripSource, allowance_worker, canonical_trip_calculation, rider, beautician,
}
use hom_swag_reporting.Earnings.TripIssues.{
  TripReconciliationIssue, trip_issue_action_recheck, trip_issue_action_accept,
  trip_issue_action_rebuild,
}
use hom_swag_reporting.Earnings.TripIssues.Detection.{detect_trip_issues}
use hom_swag_reporting.Earnings.TripIssues.Detection.Opened.{detect_trip_issues-AreOpen}
use hom_swag_reporting.Earnings.TripIssues.Store.{
  TripIssueActionInput, upsert_trip_issue, close_trip_issue,
}
use hom_swag_reporting.Earnings.TripIssues.Store.Steps.{trip_life}
use hom_swag_reporting.Earnings.TripIssues.Actions.{
  TripReads, TripWorld, in_issues, in_trips, found_trip, is_trip_of, load_trip_for_issue,
  office_rates, with_rates, recheck_input, has_trip_type, finish_trip_recheck, recheck_trip_issue,
  require_active_worker, write_snapshot, is_paid_snapshot, rebuild_trip_snapshot, act_on_found_trip,
  find_trip_issue, act_on_trip_issue,
}

module _ (fl : Float64) (hex : ObjectId → Text) (reads : TripReads fl.F)
    (issues : Collection (TripReconciliationIssue fl.F)) (new_id : issues.State → ObjectId)
    (trips : Collection (TripSource fl.F)) where
  open fl use {F}

  abbrev W : Type 0
  W = TripWorld fl hex reads issues new_id trips

  -- What of the actions does not touch the issues, for any property that only speaks of them, and
  -- what writes them.
  module _ (P : issues.State → Type 0) where
    abbrev Q : W → Type 0
    Q w = P w.0

    pub in_trips-Preserves :
        {A : Type 0} (m : Action trips.State A)
        → Preserves Q (in_trips fl hex reads issues new_id trips m)
    in_trips-Preserves m = record { preserved = λ w w' a p e. subst P (ap (λ r. r.1.0) e) p }

    pub in_issues-Preserves :
        {A : Type 0} (m : Action issues.State A)
        → Preserves P m
        → Preserves Q (in_issues fl hex reads issues new_id trips m)
    in_issues-Preserves m keeps = record {
      preserved = λ w w' a p e. keeps.preserved w.0 w'.0 a p (ap (λ r. (r.0, r.1.0)) e);
    }

  -- The parts that read, whatever the property of the state.
  module _ (P : W → Type 0) where
    found_trip-Preserves :
        (found : Option (TripSource F))
        → Preserves P (found_trip fl hex reads issues new_id trips found)
    unfolding found_trip
    found_trip-Preserves none = Preserves-raise P no_documents
    found_trip-Preserves (some trip) = Preserves-pure P trip

    pub load_trip-Preserves :
        (trip_id office_id : ObjectId)
        → Preserves P (load_trip_for_issue fl hex reads issues new_id trips trip_id office_id)
    unfolding load_trip_for_issue
    load_trip-Preserves trip_id office_id =
        Preserves->>= P
          (Preserves-still P
            (in_trips fl hex reads issues new_id trips
              (λ t. (trips.find_one (is_trip_of trip_id office_id) t, t)))
            (λ w. refl))
          (λ found. Preserves->>= P (found_trip-Preserves found) (λ trip.
            Preserves->>= P (Preserves-lift P (reads.find_rates office_id))
              (λ rates. Preserves-pure P (with_rates (office_rates fl rates) trip))))

    pub require_active_worker-Preserves :
        (trip : TripSource F) (id : Option ObjectId) (worker_type : Text)
        → Preserves P (require_active_worker fl hex reads issues new_id trips trip id worker_type)
    unfolding require_active_worker
    require_active_worker-Preserves trip none worker_type = Preserves-raise P trip_issue_unsupported
    require_active_worker-Preserves trip (some id) worker_type =
        Preserves-if P (id == 0) (Preserves-raise P trip_issue_unsupported) (
          Preserves->>= P
            (Preserves-lift P (
              reads.count_active (if eqb_text worker_type beautician then beautician else rider) id
                trip.office_id))
            (λ active. Preserves-raise_if P (not (active == 1)) trip_issue_unsupported))

  -- What an action preserves, if what it does to the issues and the write of a snapshot do.
  module _ (P : W → Type 0)
      (close : (issue : TripReconciliationIssue F) (status : Text) (input : TripIssueActionInput)
          (later : Instant)
        → IsClosing status
        → Preserves P (
            in_issues fl hex reads issues new_id trips
              (close_trip_issue issues new_id issue status input later)))
      (upsert : (d : TripReconciliationIssue F)
        → IsOpen (trip_life d)
        → Preserves P
            (in_issues fl hex reads issues new_id trips (upsert_trip_issue issues new_id 2 d)))
      (write : (trip : TripSource F) (now : Instant)
        → Preserves P (
            in_trips fl hex reads issues new_id trips
              (write_snapshot fl hex reads issues new_id trips trip now))) where
    finish-Preserves :
        (issue : TripReconciliationIssue F) (input : TripIssueActionInput) (later : Instant)
        (detected : Option (TripReconciliationIssue F))
        → ((d : TripReconciliationIssue F) → detected ≡ some d → IsOpen (trip_life d))
        → Preserves P
            (finish_trip_recheck fl hex reads issues new_id trips issue input later detected)
    unfolding finish_trip_recheck
    finish-Preserves issue input later none new =
        close issue order_issue_resolved (recheck_input input) later (inl refl)
    finish-Preserves issue input later (some d) new =
        Preserves->>= P (upsert d (new d refl)) (λ (stored, created). Preserves-pure P stored)

    recheck-Preserves :
        (issue : TripReconciliationIssue F) (input : TripIssueActionInput) (now later : Instant)
        → Preserves P (recheck_trip_issue fl hex reads issues new_id trips issue input now later)
    unfolding recheck_trip_issue
    recheck-Preserves issue input now later =
        Preserves->>= P (load_trip-Preserves P issue.trip_id issue.office_id) (λ trip. record {
          preserved = λ w w' stored p e.
              let (detected, v, read, rest) =
                >>=-eq-ok (lift (detect_trip_issues fl hex reads.profiles trip now))
                  (λ detected.
                    finish_trip_recheck fl hex reads issues new_id trips issue input later
                      (first_match (has_trip_type issue.issue_type) detected))
                  w w' stored e in
              let (same, still) =
                lift-eq-ok (detect_trip_issues fl hex reads.profiles trip now) w v detected read in
              (finish-Preserves issue input later
                  (first_match (has_trip_type issue.issue_type) detected)
                  (λ d found.
                    first_match-All (λ x. IsOpen (trip_life x)) (has_trip_type issue.issue_type)
                      detected
                      (detect_trip_issues-AreOpen fl hex reads.profiles trip now detected same)
                      found)).preserved
                v w' stored (subst P (sym still) p) rest;
        })

    abbrev rebuilding : TripIssueActionInput → TripIssueActionInput
    rebuilding input = record {
      action = trip_issue_action_rebuild;
      reason = input.reason;
      actor = input.actor;
    }

    rebuild-Preserves :
        (issue : TripReconciliationIssue F) (input : TripIssueActionInput) (now later : Instant)
        → Preserves P (rebuild_trip_snapshot fl hex reads issues new_id trips issue input now later)
    unfolding rebuild_trip_snapshot
    rebuild-Preserves issue input now later =
        Preserves->>= P (load_trip-Preserves P issue.trip_id issue.office_id) (λ trip.
          Preserves->>= P (Preserves-raise_if P (is_paid_snapshot trip.snapshot) trip_issue_paid)
            (λ a.
              Preserves->>= P
                (require_active_worker-Preserves P trip (allowance_worker trip).0
                  (allowance_worker trip).1)
                (λ b.
                  Preserves->>= P
                    (Preserves-raise_if P (not (canonical_trip_calculation fl trip).valid)
                      trip_issue_unsupported)
                    (λ c. Preserves->>= P (write trip now) (λ matched.
                      Preserves->>= P (Preserves-raise_if P (not (matched == 1)) trip_issue_paid)
                        (λ d. recheck-Preserves issue (rebuilding input) now later))))))

    pub act_on_trip_issue-Preserves :
        (office_id id : ObjectId) (input : TripIssueActionInput) (now later : Instant)
        → Preserves P
            (act_on_trip_issue fl hex reads issues new_id trips office_id id input now later)
    unfolding act_on_trip_issue act_on_found_trip
    act_on_trip_issue-Preserves office_id id input now later =
        Preserves->>= P
          (Preserves-still P (find_trip_issue fl hex reads issues new_id trips office_id id)
            (λ w. refl))
          found-Preserves
      where
        found-Preserves :
            (found : Option (TripReconciliationIssue F))
            → Preserves P (act_on_found_trip fl hex reads issues new_id trips input now later found)
        found-Preserves none = Preserves-raise P trip_issue_not_found
        found-Preserves (some issue) =
            Preserves-if P
              (not (eqb_text issue.status order_issue_open)
                && not (eqb_text input.action trip_issue_action_recheck))
              (Preserves-raise P trip_issue_already_closed)
              (Preserves-if P (eqb_text input.action trip_issue_action_recheck)
                (recheck-Preserves issue input now later)
                (Preserves-if P (eqb_text input.action trip_issue_action_accept)
                  (close issue order_issue_accepted input later (inr refl))
                  (Preserves-if P (eqb_text input.action trip_issue_action_rebuild)
                    (Preserves-if P (not issue.auto_fixable)
                      (Preserves-raise P trip_issue_unsupported)
                      (rebuild-Preserves issue input now later))
                    (Preserves-raise P trip_issue_unsupported))))
