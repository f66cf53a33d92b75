-- ===== src/Leaderboard/Ranking.antt =====
-- internal/leaderboard/ranking.go: the two rankings and their awards. `hex` is `ObjectID.Hex`.
pub mod Order
pub mod Beauticians
pub mod Riders
pub mod Awards
use hom_swag_reporting.Base.{
  ℕ, suc, ℤ, ltb_ℤ, eqb_ℤ, Bool, true, false, not, List, [], ◌∷◌, Text, ltb_text, if◌then◌else◌,
}
use hom_swag_reporting.Money.{Float64}
use hom_swag_reporting.Leaderboard.Sorting.{sort_slice}

pub record BeauticianScore (F : Type 0) : Type 0 where
  pub worker_id : ℕ
  pub revenue : F
  pub order_count : ℤ

pub record RiderScore (F : Type 0) : Type 0 where
  pub worker_id : ℕ
  pub trip_count : ℤ
  pub total_distance_km : F

pub record Award (F : Type 0) : Type 0 where
  pub worker_id : ℕ
  pub rank : ℕ
  pub bonus : F

module _ {F : Type 0} where
  unfoldable pub beautician_ids : List (BeauticianScore F) → List ℕ
  beautician_ids [] = []
  beautician_ids (score ∷ scores) = score.worker_id ∷ beautician_ids scores

  unfoldable pub rider_ids : List (RiderScore F) → List ℕ
  rider_ids [] = []
  rider_ids (score ∷ scores) = score.worker_id ∷ rider_ids scores

module _ (fl : Float64) (hex : ℕ → Text) where
  open fl use {F, zero_f, lt_f, eq_f}

  -- The `less` of `RankBeauticians`: revenue, then orders, both descending, then the id.
  unfoldable pub beautician_less : BeauticianScore F → BeauticianScore F → Bool
  beautician_less a b =
      if not (eq_f a.revenue b.revenue)
      then lt_f b.revenue a.revenue
      else if not (eqb_ℤ a.order_count b.order_count)
      then ltb_ℤ b.order_count a.order_count
      else ltb_text (hex a.worker_id) (hex b.worker_id)

  -- The `less` of `RankRiders`: trips, then distance, both descending, then the id.
  unfoldable pub rider_less : RiderScore F → RiderScore F → Bool
  rider_less a b =
      if not (eqb_ℤ a.trip_count b.trip_count)
      then ltb_ℤ b.trip_count a.trip_count
      else if not (eq_f a.total_distance_km b.total_distance_km)
      then lt_f b.total_distance_km a.total_distance_km
      else ltb_text (hex a.worker_id) (hex b.worker_id)

  -- The prize at the head of those that are left, and 0 past the end.
  unfoldable pub next_prize : List F → F
  next_prize [] = zero_f
  next_prize (prize ∷ prizes) = prize

  unfoldable pub later_prizes : List F → List F
  later_prizes [] = []
  later_prizes (prize ∷ prizes) = prizes

  -- The loop over the ranked workers, at a given index: their ranks count on from it.
  unfoldable pub awards_from : ℕ → List ℕ → List F → List (Award F)
  unfolding next_prize later_prizes
  awards_from index [] prizes = []
  awards_from index (worker ∷ workers) prizes =
      record { worker_id = worker; rank = suc index; bonus = next_prize prizes }
      ∷ awards_from (suc index) workers (later_prizes prizes)

  unfoldable pub beautician_awards : List (BeauticianScore F) → List F → List (Award F)
  unfolding awards_from beautician_ids
  beautician_awards scores prizes = awards_from 0 (beautician_ids scores) prizes

  unfoldable pub rank_beauticians : List (BeauticianScore F) → List F → List (Award F)
  rank_beauticians scores prizes = beautician_awards (sort_slice beautician_less scores) prizes

  unfoldable pub rank_riders : List (RiderScore F) → List F → List (Award F)
  unfolding awards_from rider_ids
  rank_riders scores prizes = awards_from 0 (rider_ids (sort_slice rider_less scores)) prizes
