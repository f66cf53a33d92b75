-- ===== src/Leaderboard/Ranking/Awards.antt =====
-- Every worker gets one award; the award at each place has that rank and that place's prize.
use hom_swag_reporting.Base.{
  ℕ, zero, suc, ◌+◌, ◌≡◌, refl, ap, ◌⊎◌, inl, inr, List, [], ◌∷◌, Text, arith, some, get_elem?,
  get_or,
}
use mathlib.Core.List.{Permᴰ}
use hom_swag_reporting.Money.{Float64}
use hom_swag_reporting.Leaderboard.Sorting.{sort_slice-perm}
use hom_swag_reporting.Leaderboard.Ranking.{
  BeauticianScore, RiderScore, Award, later_prizes, awards_from, beautician_ids, rider_ids,
  beautician_awards, rank_beauticians, rank_riders,
}

module _ {F : Type 0} where
  abbrev pub award_workers : List (Award F) → List ℕ
  award_workers [] = []
  award_workers (award ∷ awards) = award.worker_id ∷ award_workers awards

  beautician_ids-perm :
      {xs ys : List (BeauticianScore F)}
      → Permᴰ xs ys
      → Permᴰ (beautician_ids xs) (beautician_ids ys)
  unfolding beautician_ids
  beautician_ids-perm Permᴰ.nil = Permᴰ.nil
  beautician_ids-perm (Permᴰ.cons e d) =
      Permᴰ.cons (ap (λ s. s.worker_id) e) (beautician_ids-perm d)
  beautician_ids-perm (Permᴰ.swap e f) =
      Permᴰ.swap (ap (λ s. s.worker_id) e) (ap (λ s. s.worker_id) f)
  beautician_ids-perm (Permᴰ.trans d e) =
      Permᴰ.trans (beautician_ids-perm d) (beautician_ids-perm e)

  rider_ids-perm : {xs ys : List (RiderScore F)} → Permᴰ xs ys → Permᴰ (rider_ids xs) (rider_ids ys)
  unfolding rider_ids
  rider_ids-perm Permᴰ.nil = Permᴰ.nil
  rider_ids-perm (Permᴰ.cons e d) = Permᴰ.cons (ap (λ s. s.worker_id) e) (rider_ids-perm d)
  rider_ids-perm (Permᴰ.swap e f) = Permᴰ.swap (ap (λ s. s.worker_id) e) (ap (λ s. s.worker_id) f)
  rider_ids-perm (Permᴰ.trans d e) = Permᴰ.trans (rider_ids-perm d) (rider_ids-perm e)

module _ (fl : Float64) (hex : ℕ → Text) where
  open fl use {F, zero_f}

  award_workers-awards_from :
      (index : ℕ) (workers : List ℕ) (prizes : List F)
      → award_workers (awards_from fl hex index workers prizes) ≡ workers
  unfolding awards_from
  award_workers-awards_from index [] prizes = refl
  award_workers-awards_from index (worker ∷ workers) prizes =
      ap (◌∷◌ worker) (award_workers-awards_from (suc index) workers (later_prizes fl hex prizes))

  awards_from_places :
      (index i : ℕ) (workers : List ℕ) (prizes : List F) {award : Award F}
      → get_elem? (awards_from fl hex index workers prizes) i ≡ some award
      → (award.rank ≡ suc (index + i)) × (award.bonus ≡ get_or prizes i zero_f)
  unfolding awards_from
  awards_from_places index i [] prizes e = cc
  awards_from_places index zero (worker ∷ workers) [] e = ground arith
  awards_from_places index zero (worker ∷ workers) (prize ∷ prizes) e = ground arith
  awards_from_places index (suc i) (worker ∷ workers) [] e =
      ground (arith, awards_from_places (suc index) i workers [] e)
  awards_from_places index (suc i) (worker ∷ workers) (prize ∷ prizes) e =
      ground (arith, awards_from_places (suc index) i workers prizes e)

  -- Each ranking awards every worker among the scores, as often as it is listed there.
  pub rankings_award_everybody :
      (beauticians : List (BeauticianScore F)) (riders : List (RiderScore F)) (prizes : List F)
      → Permᴰ
          (award_workers (rank_beauticians fl hex beauticians prizes))
          (beautician_ids beauticians)
        × Permᴰ (award_workers (rank_riders fl hex riders prizes)) (rider_ids riders)
  unfolding rank_beauticians rank_riders beautician_awards
  rankings_award_everybody beauticians riders prizes = (
    rw award_workers-awards_from (beautician_ids-perm (sort_slice-perm _ beauticians)),
    rw award_workers-awards_from (rider_ids-perm (sort_slice-perm _ riders)),
  )

  -- In both rankings the award at place i (from 0) has the rank i + 1 and the prize that the
  -- schedule lists at place i, or 0 past its end.
  pub ranking_places :
      (beauticians : List (BeauticianScore F)) (riders : List (RiderScore F)) (prizes : List F)
      (i : ℕ) {award : Award F}
      → (get_elem? (rank_beauticians fl hex beauticians prizes) i ≡ some award)
        ⊎ (get_elem? (rank_riders fl hex riders prizes) i ≡ some award)
      → (award.rank ≡ suc i) × (award.bonus ≡ get_or prizes i zero_f)
  unfolding rank_beauticians rank_riders beautician_awards
  ranking_places beauticians riders prizes i (inl e) =
      ground (arith, awards_from_places 0 i _ prizes e)
  ranking_places beauticians riders prizes i (inr e) =
      ground (arith, awards_from_places 0 i _ prizes e)
