-- ===== src/Earnings/Rebuild.antt =====
-- The rebuild processor (internal/earnings/rebuild.go): its sources, its backend, and how it puts
-- ledger entries and counts what it does. Go's `time` package is a parameter, as is `ObjectID.Hex`.
pub mod Orders
pub mod Trips
pub mod Leaderboards
pub mod Process
pub mod Keeps
pub mod Steps
pub mod Immutable
use hom_swag_reporting.Base.{
  ℕ, suc, zero, ◌==◌, ℤ, pos, add64, Bool, true, false, not, ◌&&◌, ◌||◌, Option, none, some, List,
  [], ◌∷◌, ◌++◌, Text, codes, ltb_text, if◌then◌else◌,
}
use hom_swag_reporting.Money.{Float64}
use hom_swag_reporting.Earnings.Types.{
  ObjectId, Instant, LedgerEntry, RebuildJob, RebuildStats, Error, Result, ok, err, invalid_date,
}
use hom_swag_reporting.Earnings.Action.{Action, pure, ◌>>=◌, ◌>>◌}
use hom_swag_reporting.Earnings.OrderIssues.{CommissionSnapshot}
use hom_swag_reporting.Earnings.Trips.{TripSource}
use hom_swag_reporting.Earnings.SourceEntries.{same_source_entry}

pub record OrderSource (F : Type 0) : Type 0 where
  pub id : ObjectId
  pub office_id : ObjectId
  pub beautician_id : ObjectId
  pub status : Text
  pub is_deleted : Bool
  pub booking_date : Text
  pub snapshot : Option (CommissionSnapshot F)

-- The zero time is 0.
pub record WorkerTarget (F : Type 0) : Type 0 where
  pub worker_id : ObjectId
  pub target1 : F
  pub target2 : F
  pub commission_applicable_from : Option Instant
  pub joining_date : Option Instant
  pub created_at : Instant

pub record BeauticianLeaderboardSource (F : Type 0) : Type 0 where
  pub worker_id : ObjectId
  pub revenue : F
  pub order_count : ℤ
  pub gender : Text

pub record RiderLeaderboardSource (F : Type 0) : Type 0 where
  pub worker_id : ObjectId
  pub worker_type : Text
  pub trip_count : ℤ
  pub total_distance_km : F
  pub gender : Text

-- internal/leaderboard/service.go.
pub record GenderCommissionSettings (F : Type 0) : Type 0 where
  pub leaderboard_bonus_enabled : Option Bool
  pub leaderboard_prizes : List F

pub record BeauticianCommissionSettings (F : Type 0) : Type 0 where
  pub female : GenderCommissionSettings F
  pub male : GenderCommissionSettings F
  pub other : GenderCommissionSettings F

pub record LeaderboardPrizes (F : Type 0) : Type 0 where
  pub beautician : List F
  pub rider : List F
  pub beautician_by_gender : BeauticianCommissionSettings F
  pub rider_by_gender : BeauticianCommissionSettings F

-- What the program uses of Go's `time`: dates as `2006-01-02`, the first and the last day of a
-- date's month, and the date of an instant in India.
pub record Calendar : Type 1 where
  pub Day : Type 0
  pub parse : Text → Option Day
  pub format : Day → Text
  pub first_of_month : Day → Day
  pub last_of_month : Day → Day
  pub format_ist : Instant → Text

-- `RebuildBackend`. The loads read other collections than the puts write. The message of
-- `FinishRebuild` is the error whose text it is.
pub record RebuildBackend (F : Type 0) : Type 1 where
  pub State : Type 0
  pub claim_next_rebuild : State → Result RebuildJob × State
  pub finish_rebuild :
      ObjectId → Text → RebuildStats → Option Error → State → Result (Unit {0}) × State
  pub load_order_sources : ObjectId → Text → Text → Result (List (OrderSource F))
  pub load_trip_sources : ObjectId → Text → Text → Result (List (TripSource F))
  pub load_worker_targets : ObjectId → Result (List (WorkerTarget F))
  pub load_target2_bonus : ObjectId → Result F
  pub load_beautician_leaderboard_sources :
      ObjectId → Text → Text → Result (List (BeauticianLeaderboardSource F))
  pub load_rider_leaderboard_sources :
      ObjectId → Text → Text → Result (List (RiderLeaderboardSource F))
  pub load_leaderboard_prizes : ObjectId → Result (LeaderboardPrizes F)
  pub put_source_entry : LedgerEntry F → State → Result (LedgerEntry F × Bool) × State

abbrev pub is_some_day : {A : Type 0} → Option A → Bool
is_some_day none = false
is_some_day (some a) = true

module _ (calendar : Calendar) where
  unfoldable pub valid_source_date : Text → Bool
  valid_source_date value = is_some_day (calendar.parse value)

  unfoldable pub months_of : Option calendar.Day → Option calendar.Day → Result (Text × Text)
  months_of none last = err invalid_date
  months_of (some first) none = err invalid_date
  months_of (some first) (some last) = ok (
    calendar.format (calendar.first_of_month first),
    calendar.format (calendar.last_of_month last),
  )

  unfoldable pub covering_months : Text → Text → Result (Text × Text)
  unfolding months_of
  covering_months start end = months_of (calendar.parse start) (calendar.parse end)

  -- The caller has parsed the date before; an invalid one gives the empty text here.
  unfoldable pub month_end : Option calendar.Day → Text
  month_end none = []
  month_end (some day) = calendar.format (calendar.last_of_month day)

  unfoldable pub month_end_date : Text → Text
  unfolding month_end
  month_end_date value = month_end (calendar.parse value)

  unfoldable pub first_date : Option Instant → Option Instant → Instant → Text
  first_date (some date) joining created = calendar.format_ist date
  first_date none (some date) created = calendar.format_ist date
  first_date none none created =
      if created == 0 then codes "1970-01-01" else calendar.format_ist created

  unfoldable pub commission_applicable_from_key : {F : Type 0} → WorkerTarget F → Text
  unfolding first_date
  commission_applicable_from_key target =
      first_date target.commission_applicable_from target.joining_date target.created_at

-- `date[:7]`; a shorter date stays.
unfoldable pub take : {A : Type 0} → ℕ → List A → List A
take zero s = []
take (suc n) [] = []
take (suc n) (c ∷ s) = c ∷ take n s

unfoldable pub worker_month_key : (ObjectId → Text) → ObjectId → Text → Text
unfolding take
worker_month_key hex worker date = hex worker ++ (codes ":" ++ take 7 date)

-- The state of a run: the backend's, and the counters, which survive an error.
abbrev pub Run : Type 0 → Type 0
Run S = S × RebuildStats

module _ {S : Type 0} where
  unfoldable pub count_scanned : Action (Run S) (Unit {0})
  count_scanned (s, stats) = pure tt (s, record stats { scanned = add64 stats.scanned (pos 1) })

  unfoldable pub count_missing : Action (Run S) (Unit {0})
  count_missing (s, stats) =
      pure tt (s, record stats { missing_snapshots = add64 stats.missing_snapshots (pos 1) })

  -- The body of a `for` loop that returns on the first error, over the items.
  unfoldable pub each :
      {A : Type 0} → (A → Action (Run S) (Unit {0})) → List A → Action (Run S) (Unit {0})
  each body [] = pure tt
  each body (a ∷ items) = body a >> each body items

  unfoldable pub load : {A : Type 0} → Result A → Action (Run S) A
  load r run = (r, run)

module _ (fl : Float64) (backend : RebuildBackend fl.F) where
  open fl use {F}

  -- The counter that a put raises.
  unfoldable pub count_put : LedgerEntry F → LedgerEntry F → Bool → RebuildStats → RebuildStats
  count_put entry stored created stats =
      if created
      then record stats { inserted = add64 stats.inserted (pos 1) }
      else if same_source_entry fl stored entry
      then record stats { unchanged = add64 stats.unchanged (pos 1) }
      else record stats { conflicts = add64 stats.conflicts (pos 1) }

  unfoldable pub put_in_ledger : LedgerEntry F → Action (Run backend.State) (LedgerEntry F × Bool)
  put_in_ledger entry (s, stats) =
      let (r, s') = backend.put_source_entry entry s in (r, (s', stats))

  unfoldable pub count_stored :
      LedgerEntry F → LedgerEntry F × Bool → Action (Run backend.State) (Unit {0})
  unfolding count_put
  count_stored entry (stored, created) (s, stats) =
      pure tt (s, count_put entry stored created stats)

  unfoldable pub put_ledger_entry : LedgerEntry F → Action (Run backend.State) (Unit {0})
  unfolding put_in_ledger count_stored
  put_ledger_entry entry = put_in_ledger entry >>= count_stored entry
