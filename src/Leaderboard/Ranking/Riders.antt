-- ===== src/Leaderboard/Ranking/Riders.antt =====
-- The ranking of riders does not depend on the order in which the scores were read.
use hom_swag_reporting.Base.{ℕ, ◌≡◌, ◌≢◌, ap, false, List, [], ◌∷◌, Text, All, arith}
use mathlib.Core.List.{Permᴰ}
use hom_swag_reporting.Money.{Float64}
use hom_swag_reporting.Leaderboard.Sorting.{
  IsApart, IsApartAll, IsTransitive, sort_slice-eq_of_perm,
}
use hom_swag_reporting.Leaderboard.Ranking.{
  RiderScore, rider_less, awards_from, rider_ids, rank_riders,
}
use hom_swag_reporting.Leaderboard.Ranking.Order.{
  ltb_text_total, ltb_text_trans, IsOrdered, IsDistinct,
}

module _ (fl : Float64) (hex : ℕ → Text) (ordered : IsOrdered fl)
    (hex_injective : (a b : ℕ) → hex a ≡ hex b → a ≡ b) where
  open fl use {F, is_nan, lt_f, eq_f}

  abbrev pub HasDistance : RiderScore F → Type 0
  HasDistance score = is_nan score.total_distance_km ≡ false

  rider_less-IsApart :
      (a b : RiderScore F)
      → HasDistance a
      → HasDistance b
      → hex a.worker_id ≢ hex b.worker_id
      → IsApart (rider_less fl hex) a b
  unfolding rider_less
  rider_less-IsApart a b ha hb ne = ground (
    arith,
    ltb_text_total (hex a.worker_id) (hex b.worker_id) ne,
    ordered.same a.total_distance_km b.total_distance_km ha hb,
    ordered.same b.total_distance_km a.total_distance_km hb ha,
    ordered.asym a.total_distance_km b.total_distance_km ha hb,
    ordered.asym b.total_distance_km a.total_distance_km hb ha,
  )

  rider_less_trans : IsTransitive (rider_less fl hex) HasDistance
  unfolding rider_less
  rider_less_trans a b c ha hb hc ab bc = ground (
    arith,
    ltb_text_trans (hex a.worker_id) (hex b.worker_id) (hex c.worker_id),
    ordered.trans c.total_distance_km b.total_distance_km a.total_distance_km hc hb ha,
    ordered.asym b.total_distance_km a.total_distance_km hb ha,
    ordered.asym c.total_distance_km a.total_distance_km hc ha,
    ordered.same a.total_distance_km b.total_distance_km ha hb,
    ordered.same b.total_distance_km c.total_distance_km hb hc,
    ordered.same a.total_distance_km c.total_distance_km ha hc,
    ordered.same_trans a.total_distance_km b.total_distance_km c.total_distance_km ha hb hc,
    ordered.same_trans' a.total_distance_km b.total_distance_km c.total_distance_km ha hb hc,
    ordered.same_trans b.total_distance_km c.total_distance_km a.total_distance_km hb hc ha,
    ordered.same_trans' b.total_distance_km c.total_distance_km a.total_distance_km hb hc ha,
  )

  riders-IsApart :
      (score : RiderScore F) (scores : List (RiderScore F))
      → HasDistance score
      → All HasDistance scores
      → All (λ y. score.worker_id ≢ y) (rider_ids scores)
      → All (IsApart (rider_less fl hex) score) scores
  unfolding rider_ids
  riders-IsApart score [] h hs d = tt
  riders-IsApart score (other ∷ scores) h hs d = (
    rider_less-IsApart score other h hs.0 (λ e. d.0 (hex_injective _ _ e)),
    riders-IsApart score scores h hs.1 d.1,
  )

  All-riders-IsApart :
      (scores : List (RiderScore F))
      → All HasDistance scores
      → IsDistinct (rider_ids scores)
      → IsApartAll (rider_less fl hex) scores
  unfolding rider_ids
  All-riders-IsApart [] hs d = tt
  All-riders-IsApart (score ∷ scores) hs d =
      (riders-IsApart score scores hs.0 hs.1 d.0, All-riders-IsApart scores hs.1 d.1)

  -- Where `ObjectID.Hex` is injective, float64 is ordered as documented, no distance is NaN and no
  -- worker is listed twice: the awards do not depend on the order in which the scores are given.
  pub rank_riders-eq_of_perm :
      {xs ys : List (RiderScore F)} (prizes : List F)
      → Permᴰ xs ys
      → All HasDistance xs
      → IsDistinct (rider_ids xs)
      → rank_riders fl hex xs prizes ≡ rank_riders fl hex ys prizes
  unfolding rank_riders
  rank_riders-eq_of_perm {xs} prizes d hs distinct =
      ap (λ ranked. awards_from fl hex 0 (rider_ids ranked) prizes)
        (sort_slice-eq_of_perm (rider_less fl hex) HasDistance rider_less_trans d hs
          (All-riders-IsApart xs hs distinct))
