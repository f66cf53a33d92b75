-- ===== src/Earnings/Rebuild/Process.antt =====
-- `process` and `ProcessNext` (internal/earnings/rebuild.go).
use hom_swag_reporting.Base.{
  pos, ltb_ℤ, Bool, true, false, ◌||◌, Option, none, some, Text, codes, eqb_text, if◌then◌else◌,
}
use hom_swag_reporting.Money.{Float64}
use hom_swag_reporting.Earnings.Types.{
  ObjectId, RebuildJob, RebuildStats, Error, no_queued_rebuild, Result, ok, err,
}
use hom_swag_reporting.Earnings.Action.{Action, pure, ◌>>◌}
use hom_swag_reporting.Earnings.Rebuild.{Calendar, LeaderboardPrizes, RebuildBackend, Run}
use hom_swag_reporting.Earnings.Rebuild.Orders.{process_orders}
use hom_swag_reporting.Earnings.Rebuild.Trips.{process_trips}
use hom_swag_reporting.Earnings.Rebuild.Leaderboards.{process_leaderboards}

abbrev pub no_stats : RebuildStats
no_stats = record {
  scanned = pos 0;
  inserted = pos 0;
  unchanged = pos 0;
  conflicts = pos 0;
  missing_snapshots = pos 0;
}

-- The status of a finished job.
unfoldable pub final_status : RebuildStats → Result (Unit {0}) → Text
final_status stats (err e) = codes "failed"
final_status stats (ok u) =
    if ltb_ℤ (pos 0) stats.conflicts || ltb_ℤ (pos 0) stats.missing_snapshots
    then codes "completed_with_issues"
    else codes "completed"

unfoldable pub error_of : {A : Type 0} → Result A → Option Error
error_of (ok a) = none
error_of (err e) = some e

-- The error of `FinishRebuild`, or else that of the run.
unfoldable pub first_error : Result (Unit {0}) → Result (Unit {0}) → Option Error
unfolding error_of
first_error (err e) run = some e
first_error (ok u) run = error_of run

module _ (fl : Float64) (hex : ObjectId → Text) (calendar : Calendar)
    (fingerprint : LeaderboardPrizes fl.F → Text) (backend : RebuildBackend fl.F) where
  abbrev Step : Type 0
  Step = Action (Run backend.State) (Unit {0})

  unfoldable pub when : Bool → Step → Step
  when c step = if c then step else pure tt

  unfoldable pub process : RebuildJob → Step
  unfolding when
  process job =
      let is_all = eqb_text job.scope (codes "all") in
      let is_commissions = eqb_text job.scope (codes "commissions") in
      when (is_all || is_commissions) (process_orders fl hex calendar backend job)
      >> when (is_all || is_commissions || eqb_text job.scope (codes "petrol"))
          (process_trips fl hex calendar backend job)
      >> when (eqb_text job.scope (codes "leaderboards") || is_all)
          (process_leaderboards fl hex fingerprint backend job)

  -- `ProcessNext` once a job is claimed: whether there was one, the error, and the new state.
  unfoldable pub process_claimed :
      Result RebuildJob → backend.State → (Bool × Option Error) × backend.State
  unfolding process final_status error_of first_error
  process_claimed (err no_queued_rebuild) s = ((false, none), s)
  process_claimed (err e) s = ((false, some e), s)
  process_claimed (ok job) s =
      let (run, (s', stats)) = process job (s, no_stats) in
      let (finished, s'') =
        backend.finish_rebuild job.id (final_status stats run) stats (error_of run) s' in
      ((true, first_error finished run), s'')

  unfoldable pub process_next : backend.State → (Bool × Option Error) × backend.State
  unfolding process_claimed
  process_next s = let (claimed, s') = backend.claim_next_rebuild s in process_claimed claimed s'
