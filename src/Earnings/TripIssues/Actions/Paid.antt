-- ===== src/Earnings/TripIssues/Actions/Paid.antt =====
-- No action rewrites a trip whose snapshot is paid.
use hom_swag_reporting.Base.{
  ◌==◌, ◌≡◌, sym, ap, subst, Bool, true, false, not, ◌&&◌, Memᴰ, Text, arith,
}
use hom_swag_reporting.Money.{Float64}
use hom_swag_reporting.Mongo.{Collection}
use hom_swag_reporting.Mongo.Keeps.{update_first-mem}
use hom_swag_reporting.Earnings.Types.{ObjectId, Instant, ok}
use hom_swag_reporting.Earnings.Action.{Action}
use hom_swag_reporting.Earnings.Action.Preserves.{Preserves}
use hom_swag_reporting.Earnings.Trips.{TripSource}
use hom_swag_reporting.Earnings.TripIssues.{TripReconciliationIssue}
use hom_swag_reporting.Earnings.TripIssues.Store.{
  TripIssueActionInput, upsert_trip_issue, close_trip_issue,
}
use hom_swag_reporting.Earnings.TripIssues.Actions.{
  TripReads, TripWorld, in_issues, in_trips, is_paid_snapshot, is_rebuildable, with_snapshot,
  canonical_snapshot, write_snapshot, act_on_trip_issue,
}
use hom_swag_reporting.Earnings.TripIssues.Actions.Refinement.{act_on_trip_issue-Preserves}

paid-not-rebuildable :
    {F : Type 0} (trip_id office_id : ObjectId) (d : TripSource F)
    → is_paid_snapshot d.snapshot ≡ true
    → is_rebuildable trip_id office_id d ≡ false
unfolding is_rebuildable
paid-not-rebuildable trip_id office_id d paid =
    unpaid_false (d.id == trip_id) (d.office_id == office_id) (is_paid_snapshot d.snapshot) paid
  where
    unpaid_false : (a b c : Bool) → c ≡ true → (a && b && not c) ≡ false
    unpaid_false a b c h = ground arith

module _ (fl : Float64) (hex : ObjectId → Text) (reads : TripReads fl.F)
    (issues : Collection (TripReconciliationIssue fl.F)) (new_id : issues.State → ObjectId)
    (trips : Collection (TripSource fl.F)) where
  open fl use {F}

  abbrev W : Type 0
  W = TripWorld fl hex reads issues new_id trips

  module _ (trip : TripSource F) (paid : is_paid_snapshot trip.snapshot ≡ true) where
    abbrev IsKept : W → Type 0
    IsKept w = Memᴰ trip (trips.documents w.1)

    in_issues-IsKept :
        {A : Type 0} (m : Action issues.State A)
        → Preserves IsKept (in_issues fl hex reads issues new_id trips m)
    in_issues-IsKept m = record {
      preserved = λ w w' a p e. subst (λ t. Memᴰ trip (trips.documents t)) (ap (λ r. r.1.1) e) p;
    }

    write-IsKept :
        (other : TripSource F) (now : Instant)
        → Preserves IsKept (
            in_trips fl hex reads issues new_id trips
              (write_snapshot fl hex reads issues new_id trips other now))
    unfolding write_snapshot
    write-IsKept other now = record {
      preserved = λ w w' n p e.
          let guard = is_rebuildable other.id other.office_id in
          let change : TripSource F → TripSource F =
            with_snapshot (canonical_snapshot fl other now) in
          let done = trips.update_one_done guard change w.1 w'.1 n (ap (λ r. (r.0, r.1.1)) e) in
          subst (λ docs. Memᴰ trip docs) (sym (ap (λ r. r.0) done))
            (update_first-mem guard change p
              (paid-not-rebuildable other.id other.office_id trip paid));
    }

    -- A trip with a paid snapshot is among the trips, as it stands, after every action on a trip
    -- issue that succeeds.
    pub act_on_trip_issue_keeps_paid :
        (office_id id : ObjectId) (input : TripIssueActionInput) (now later : Instant) (w w' : W)
        (stored : TripReconciliationIssue F)
        → Memᴰ trip (trips.documents w.1)
        → act_on_trip_issue fl hex reads issues new_id trips office_id id input now later w
          ≡ (ok stored, w')
        → Memᴰ trip (trips.documents w'.1)
    act_on_trip_issue_keeps_paid office_id id input now later w w' stored =
        (act_on_trip_issue-Preserves fl hex reads issues new_id trips IsKept
            (λ issue status input later closing.
              in_issues-IsKept (close_trip_issue issues new_id issue status input later))
            (λ d new. in_issues-IsKept (upsert_trip_issue issues new_id 2 d)) write-IsKept office_id
            id input now later).preserved
          w w' stored
