-- ===== src/Earnings/Rebuild/Leaderboards.antt =====
-- `processLeaderboards` (internal/earnings/rebuild.go), and the prize schedules by gender of
-- internal/leaderboard/service.go. `fingerprint` is the SHA-256 of the printed configuration.
use hom_swag_reporting.Base.{
  ◌==◌, ℤ, pos, ltb_ℤ, Bool, true, not, ◌&&◌, ◌||◌, Option, none, some, List, [], ◌∷◌, ◌++◌, map,
  Text, codes, any, eqb_text, if◌then◌else◌,
}
use hom_swag_reporting.Money.{Float64, valid_money, money_to_paise}
use hom_swag_reporting.Earnings.Types.{
  ObjectId, leaderboard_bonus, commission_bucket, status_open, number, printed, slice, ConfigItems,
  no_items, item, LedgerEntry, RebuildJob, invalid_amounts, invalid_aggregate, duplicate_aggregate,
}
use hom_swag_reporting.Earnings.Action.{Action, pure, raise, ◌>>=◌, ◌>>◌, raise_if}
use hom_swag_reporting.Leaderboard.Ranking.{
  BeauticianScore, RiderScore, Award, rank_beauticians, rank_riders,
}
use hom_swag_reporting.Earnings.Rebuild.{
  BeauticianLeaderboardSource, RiderLeaderboardSource, GenderCommissionSettings,
  BeauticianCommissionSettings, LeaderboardPrizes, RebuildBackend, Run, count_scanned,
  count_missing, each, load, put_ledger_entry,
}

-- The board of a row: every other gender is on the female one.
unfoldable pub board_of : Text → Text
board_of gender =
    if eqb_text gender (codes "male") || eqb_text gender (codes "other")
    then gender
    else codes "female"

module _ {F : Type 0} where
  unfoldable pub gender_setting : Text → BeauticianCommissionSettings F → GenderCommissionSettings F
  gender_setting gender settings =
      if eqb_text gender (codes "male")
      then settings.male
      else if eqb_text gender (codes "other")
      then settings.other
      else settings.female

  unfoldable pub schedule : GenderCommissionSettings F → Option Bool → List F → List F × Bool
  schedule setting none default = (default, true)
  schedule setting (some enabled) default = (setting.leaderboard_prizes, enabled)

  -- The prizes of a gender, and whether its board is enabled.
  unfoldable pub gender_prizes : List F → BeauticianCommissionSettings F → Text → List F × Bool
  unfolding schedule gender_setting
  gender_prizes default settings gender =
      let setting = gender_setting gender settings in
      schedule setting setting.leaderboard_bonus_enabled default

  -- `if !enabled { genderPrizes = nil }`.
  unfoldable pub enabled_prizes : List F × Bool → List F
  enabled_prizes (prizes, enabled) = if enabled then prizes else []

  unfoldable pub beautician_scores :
      Text → List (BeauticianLeaderboardSource F) → List (BeauticianScore F)
  unfolding board_of
  beautician_scores gender [] = []
  beautician_scores gender (row ∷ rows) =
      let rest = beautician_scores gender rows in
      if eqb_text (board_of row.gender) gender
      then record {
        worker_id = row.worker_id;
        revenue = row.revenue;
        order_count = row.order_count;
      }
        ∷ rest
      else rest

  unfoldable pub rider_scores : Text → List (RiderLeaderboardSource F) → List (RiderScore F)
  unfolding board_of
  rider_scores gender [] = []
  rider_scores gender (row ∷ rows) =
      let rest = rider_scores gender rows in
      if eqb_text (board_of row.gender) gender
      then record {
        worker_id = row.worker_id;
        trip_count = row.trip_count;
        total_distance_km = row.total_distance_km;
      }
        ∷ rest
      else rest

  -- `typeByWorker[id]`; the ids are distinct.
  unfoldable pub type_of_worker : List (RiderLeaderboardSource F) → ObjectId → Text
  type_of_worker [] id = []
  type_of_worker (row ∷ rows) id =
      let rest = type_of_worker rows id in if row.worker_id == id then row.worker_type else rest

unfoldable pub genders : List Text
genders = codes "female" ∷ codes "male" ∷ codes "other" ∷ []

module _ (fl : Float64) (hex : ObjectId → Text) (fingerprint : LeaderboardPrizes fl.F → Text) where
  open fl use {F, zero_f, eq_f, of_int64}

  unfoldable pub valid_prizes : List F → Bool
  valid_prizes prizes = not (any (λ prize. not (valid_money fl prize)) prizes)

  unfoldable pub prizes_to_paise : List F → List ℤ
  prizes_to_paise prizes = map (money_to_paise fl) prizes

  unfoldable pub valid_beautician : BeauticianLeaderboardSource F → Bool
  valid_beautician row =
      not (row.worker_id == 0) && valid_money fl row.revenue && not (ltb_ℤ row.order_count (pos 0))

  unfoldable pub valid_rider : RiderLeaderboardSource F → Bool
  valid_rider row =
      not (row.worker_id == 0)
      && (eqb_text row.worker_type (codes "rider") || eqb_text row.worker_type (codes "beautician"))
      && not (ltb_ℤ row.trip_count (pos 0))
      && valid_money fl row.total_distance_km

  -- The awards of all boards, in the order of the genders.
  unfoldable pub all_beautician_awards :
      LeaderboardPrizes F → List (BeauticianLeaderboardSource F) → List Text → List (Award F)
  unfolding enabled_prizes gender_prizes beautician_scores
  all_beautician_awards prizes rows [] = []
  all_beautician_awards prizes rows (gender ∷ genders) =
      rank_beauticians fl hex (beautician_scores gender rows)
        (enabled_prizes (gender_prizes prizes.beautician prizes.beautician_by_gender gender))
      ++ all_beautician_awards prizes rows genders

  unfoldable pub all_rider_awards :
      LeaderboardPrizes F → List (RiderLeaderboardSource F) → List Text → List (Award F)
  unfolding enabled_prizes gender_prizes rider_scores
  all_rider_awards prizes rows [] = []
  all_rider_awards prizes rows (gender ∷ genders) =
      rank_riders fl hex (rider_scores gender rows)
        (enabled_prizes (gender_prizes prizes.rider prizes.rider_by_gender gender))
      ++ all_rider_awards prizes rows genders

  unfoldable pub paise_items : List ℤ → ConfigItems F
  paise_items [] = no_items
  paise_items (amount ∷ amounts) = item (number (of_int64 amount)) (paise_items amounts)

  unfoldable pub award_entry :
      RebuildJob → LeaderboardPrizes F → Award F → Text → Text → LedgerEntry F
  unfolding paise_items prizes_to_paise
  award_entry job prizes award worker_type leaderboard_type =
      let is_beautician = eqb_text leaderboard_type (codes "beautician") in
      record {
        id = 0;
        office_id = job.office_id;
        worker_id = award.worker_id;
        worker_type = worker_type;
        service_date_key = job.end_date;
        component = leaderboard_bonus;
        settlement_bucket = commission_bucket;
        amount_paise = money_to_paise fl award.bonus;
        settled_amount_paise = pos 0;
        status = status_open;
        source_type = codes "leaderboards";
        source_id = none;
        reverses_entry_id = none;
        calculation_version = 3;
        configuration_snapshot =
            (codes "period_start", printed job.start_date)
            ∷ (codes "period_end", printed job.end_date)
            ∷ (codes "leaderboard_type", printed leaderboard_type)
            ∷ (codes "rank", number (of_int64 (pos award.rank)))
            ∷ (codes "prize_paise", number (of_int64 (money_to_paise fl award.bonus)))
            ∷ (
              codes "prize_schedule_paise",
              slice (
                  paise_items
                    (prizes_to_paise (if is_beautician then prizes.beautician else prizes.rider))),
            )
            ∷ (codes "configuration_version", printed (fingerprint prizes))
            ∷ (
              codes "ranking_contract",
              printed (
                  if is_beautician
                  then codes "revenue_desc,order_count_desc,worker_id_asc"
                  else codes "trip_count_desc,total_distance_km_desc,worker_id_asc"),
            )
            ∷ [];
        reason = [];
        idempotency_key =
            codes "leaderboard:"
            ++ (hex job.office_id
                ++ (codes ":"
                    ++ (leaderboard_type
                        ++ (codes ":"
                            ++ (job.start_date
                                ++ (codes ":"
                                    ++ (job.end_date
                                        ++ (codes ":"
                                            ++ (hex award.worker_id ++ codes ":v1")))))))));
        created_by = job.requested_by;
        created_at = 0;
        updated_at = 0;
      }

  module _ (backend : RebuildBackend F) where
    abbrev Step : Type 0
    Step = Action (Run backend.State) (Unit {0})

    -- The check of the rows before anything is written; `seen` are the ids of the earlier rows.
    unfoldable pub check_beauticians : List ObjectId → List (BeauticianLeaderboardSource F) → Step
    check_beauticians seen [] = pure tt
    check_beauticians seen (row ∷ rows) =
        count_scanned
        >> (if not (valid_beautician row)
            then (count_missing >> raise invalid_aggregate)
            else raise_if (any (λ id. id == row.worker_id) seen) duplicate_aggregate)
        >> check_beauticians (row.worker_id ∷ seen) rows

    unfoldable pub check_riders : List ObjectId → List (RiderLeaderboardSource F) → Step
    check_riders seen [] = pure tt
    check_riders seen (row ∷ rows) =
        count_scanned
        >> (if not (valid_rider row)
            then (count_missing >> raise invalid_aggregate)
            else raise_if (any (λ id. id == row.worker_id) seen) duplicate_aggregate)
        >> check_riders (row.worker_id ∷ seen) rows

    unfoldable pub put_leaderboard_award :
        RebuildJob → LeaderboardPrizes F → (Award F → Text) → Text → Award F → Step
    unfolding award_entry
    put_leaderboard_award job prizes worker_type leaderboard_type award =
        if eq_f award.bonus zero_f
        then pure tt
        else put_ledger_entry fl backend
            (award_entry job prizes award (worker_type award) leaderboard_type)

    -- `processLeaderboards` from where everything is loaded.
    unfoldable pub put_leaderboards :
        RebuildJob
        → List (BeauticianLeaderboardSource F)
        → List (RiderLeaderboardSource F)
        → LeaderboardPrizes F
        → Step
    unfolding check_beauticians check_riders put_leaderboard_award
    put_leaderboards job beauticians riders prizes =
        raise_if (not (valid_prizes prizes.beautician) || not (valid_prizes prizes.rider))
          invalid_amounts
        >> check_beauticians [] beauticians
        >> check_riders [] riders
        >> each
            (put_leaderboard_award job prizes (λ award. codes "beautician") (codes "beautician"))
            (all_beautician_awards prizes beauticians genders)
        >> each
            (put_leaderboard_award job prizes (λ award. type_of_worker riders award.worker_id)
              (codes "rider"))
            (all_rider_awards prizes riders genders)

    unfoldable pub process_leaderboards : RebuildJob → Step
    process_leaderboards job =
        load (backend.load_beautician_leaderboard_sources job.office_id job.start_date job.end_date)
        >>= λ beauticians.
            load (backend.load_rider_leaderboard_sources job.office_id job.start_date job.end_date)
            >>= λ riders.
                load (backend.load_leaderboard_prizes job.office_id)
                >>= put_leaderboards job beauticians riders
