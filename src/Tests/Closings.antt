-- ===== src/Tests/Closings.antt =====
-- A week is closed; a day in it is then closed.
use hom_swag_reporting.Base.{◌≡◌, refl, true, [], ◌∷◌, codes}
use hom_swag_reporting.Earnings.Types.{Period, ok}
use hom_swag_reporting.Earnings.Periods.{
  overlaps, closed, is_positive, has_closed_period_overlap, close_period, close_period_closes,
}
use hom_swag_reporting.Mongo.{Collection}
use hom_swag_reporting.Mongo.Memory.{memory, upserted}

abbrev periods : Collection Period
periods = memory Period

abbrev week : Period
week = record {
  id = 0;
  office_id = 7;
  kind = codes "week";
  start_date = codes "2026-01-05";
  end_date = codes "2026-01-11";
  status = [];
  closed_by = 4;
  closed_at = 0;
  created_at = 0;
  updated_at = 0;
}

abbrev nothing : periods.State
unfolding memory
nothing = []

abbrev one_week : periods.State
unfolding memory
one_week = closed week 1 1000 ∷ []

run-close_period :
    close_period periods week 1 1000 nothing ≡ (ok (closed week 1 1000, true), one_week)
unfolding close_period memory upserted closed
run-close_period = refl

run-has_closed_period_overlap :
    has_closed_period_overlap periods 7 (codes "2026-01-07") (codes "2026-01-07") one_week
    ≡ (ok true, one_week)
unfolding has_closed_period_overlap is_positive overlaps memory closed
run-has_closed_period_overlap = refl

close_period_closes_example : true ≡ true
unfolding memory
close_period_closes_example =
    close_period_closes periods week 1 1000 (codes "2026-01-07") (codes "2026-01-07") nothing
      one_week one_week (closed week 1 1000, true) true refl run-close_period refl refl
      run-has_closed_period_overlap
