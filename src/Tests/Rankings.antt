-- ===== src/Tests/Rankings.antt =====
-- Two workers with equal scores, given in either order: the id decides.
use hom_swag_reporting.Base.{ℕ, pos, ◌≡◌, refl, ap, inl, List, [], ◌∷◌, Text, get_elem?, arith}
use mathlib.Core.List.{Permᴰ}
use hom_swag_reporting.Money.Decimal.{Decimal, hundredths, decimals, less, equal}
use hom_swag_reporting.Tests.Floats.{decimals-IsOrdered}
use hom_swag_reporting.Leaderboard.Ranking.{
  BeauticianScore, RiderScore, beautician_ids, rider_ids, beautician_awards, awards_from,
  next_prize, later_prizes, beautician_less, rank_beauticians, rank_riders,
}
use hom_swag_reporting.Leaderboard.Ranking.Beauticians.{rank_beauticians-eq_of_perm}
use hom_swag_reporting.Leaderboard.Ranking.Riders.{rank_riders-eq_of_perm}
use hom_swag_reporting.Leaderboard.Ranking.Awards.{
  award_workers, rankings_award_everybody, ranking_places,
}
use hom_swag_reporting.Leaderboard.Sorting.{insert, sort_slice}

abbrev hex : ℕ → Text
hex n = n ∷ []

hex_injective : (a b : ℕ) → hex a ≡ hex b → a ≡ b
hex_injective a b e = cc

abbrev first_beautician : BeauticianScore Decimal
first_beautician = record { worker_id = 4; revenue = hundredths (pos 5000); order_count = pos 2 }

abbrev second_beautician : BeauticianScore Decimal
second_beautician = record { worker_id = 3; revenue = hundredths (pos 5000); order_count = pos 2 }

abbrev first_rider : RiderScore Decimal
first_rider = record { worker_id = 4; trip_count = pos 7; total_distance_km = hundredths (pos 900) }

abbrev second_rider : RiderScore Decimal
second_rider = record {
  worker_id = 3;
  trip_count = pos 7;
  total_distance_km = hundredths (pos 900);
}

abbrev prizes : List Decimal
prizes = hundredths (pos 100000) ∷ []

run-rank_beauticians :
    rank_beauticians decimals hex (first_beautician ∷ second_beautician ∷ []) prizes
    ≡ record { worker_id = 3; rank = 1; bonus = hundredths (pos 100000) }
      ∷ record { worker_id = 4; rank = 2; bonus = hundredths (pos 0) }
      ∷ []
unfolding rank_beauticians beautician_awards awards_from beautician_ids next_prize later_prizes
    sort_slice insert beautician_less less equal
run-rank_beauticians = refl

rank_beauticians-eq_of_perm_example :
    rank_beauticians decimals hex (first_beautician ∷ second_beautician ∷ []) prizes
    ≡ rank_beauticians decimals hex (second_beautician ∷ first_beautician ∷ []) prizes
unfolding beautician_ids
rank_beauticians-eq_of_perm_example =
    rank_beauticians-eq_of_perm decimals hex decimals-IsOrdered hex_injective
      {xs = first_beautician ∷ second_beautician ∷ []} prizes (Permᴰ.swap refl refl)
      (refl, (refl, tt)) ((λ e. omega (arith, e), tt), (tt, tt))

rank_riders-eq_of_perm_example :
    rank_riders decimals hex (first_rider ∷ second_rider ∷ []) prizes
    ≡ rank_riders decimals hex (second_rider ∷ first_rider ∷ []) prizes
unfolding rider_ids
rank_riders-eq_of_perm_example =
    rank_riders-eq_of_perm decimals hex decimals-IsOrdered hex_injective
      {xs = first_rider ∷ second_rider ∷ []} prizes (Permᴰ.swap refl refl) (refl, (refl, tt))
      ((λ e. omega (arith, e), tt), (tt, tt))

rankings_award_everybody_example :
    Permᴰ
      (award_workers
        (rank_beauticians decimals hex (first_beautician ∷ second_beautician ∷ []) prizes))
      (beautician_ids (first_beautician ∷ second_beautician ∷ []))
    × Permᴰ
        (award_workers (rank_riders decimals hex (first_rider ∷ second_rider ∷ []) prizes))
        (rider_ids (first_rider ∷ second_rider ∷ []))
rankings_award_everybody_example =
    rankings_award_everybody decimals hex (first_beautician ∷ second_beautician ∷ [])
      (first_rider ∷ second_rider ∷ []) prizes

ranking_places_example : ◌≡◌ {A = ℕ} 2 2 × (hundredths (pos 0) ≡ hundredths (pos 0))
ranking_places_example =
    ranking_places decimals hex (first_beautician ∷ second_beautician ∷ []) [] prizes 1
      (inl (ap (λ awards. get_elem? awards 1) run-rank_beauticians))
