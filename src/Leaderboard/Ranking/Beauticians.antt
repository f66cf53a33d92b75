-- ===== src/Leaderboard/Ranking/Beauticians.antt =====
-- The ranking of beauticians does not depend on the order in which the scores were read.
use hom_swag_reporting.Base.{ℕ, ◌≡◌, ◌≢◌, ap, false, List, [], ◌∷◌, Text, All, arith}
use mathlib.Core.List.{Permᴰ}
use hom_swag_reporting.Money.{Float64}
use hom_swag_reporting.Leaderboard.Sorting.{
  IsApart, IsApartAll, IsTransitive, sort_slice-eq_of_perm,
}
use hom_swag_reporting.Leaderboard.Ranking.{
  BeauticianScore, beautician_less, beautician_ids, beautician_awards, rank_beauticians,
}
use hom_swag_reporting.Leaderboard.Ranking.Order.{
  ltb_text_total, ltb_text_trans, IsOrdered, IsDistinct,
}

module _ (fl : Float64) (hex : ℕ → Text) (ordered : IsOrdered fl)
    (hex_injective : (a b : ℕ) → hex a ≡ hex b → a ≡ b) where
  open fl use {F, is_nan, lt_f, eq_f}

  abbrev pub HasRevenue : BeauticianScore F → Type 0
  HasRevenue score = is_nan score.revenue ≡ false

  beautician_less-IsApart :
      (a b : BeauticianScore F)
      → HasRevenue a
      → HasRevenue b
      → hex a.worker_id ≢ hex b.worker_id
      → IsApart (beautician_less fl hex) a b
  unfolding beautician_less
  beautician_less-IsApart a b ha hb ne = ground (
    arith,
    ltb_text_total (hex a.worker_id) (hex b.worker_id) ne,
    ordered.same a.revenue b.revenue ha hb,
    ordered.same b.revenue a.revenue hb ha,
    ordered.asym a.revenue b.revenue ha hb,
    ordered.asym b.revenue a.revenue hb ha,
  )

  beautician_less_trans : IsTransitive (beautician_less fl hex) HasRevenue
  unfolding beautician_less
  beautician_less_trans a b c ha hb hc ab bc = ground (
    arith,
    ltb_text_trans (hex a.worker_id) (hex b.worker_id) (hex c.worker_id),
    ordered.trans c.revenue b.revenue a.revenue hc hb ha,
    ordered.asym b.revenue a.revenue hb ha,
    ordered.asym c.revenue a.revenue hc ha,
    ordered.same a.revenue b.revenue ha hb,
    ordered.same b.revenue c.revenue hb hc,
    ordered.same a.revenue c.revenue ha hc,
    ordered.same_trans a.revenue b.revenue c.revenue ha hb hc,
    ordered.same_trans' a.revenue b.revenue c.revenue ha hb hc,
    ordered.same_trans b.revenue c.revenue a.revenue hb hc ha,
    ordered.same_trans' b.revenue c.revenue a.revenue hb hc ha,
  )

  beauticians-IsApart :
      (score : BeauticianScore F) (scores : List (BeauticianScore F))
      → HasRevenue score
      → All HasRevenue scores
      → All (λ y. score.worker_id ≢ y) (beautician_ids scores)
      → All (IsApart (beautician_less fl hex) score) scores
  unfolding beautician_ids
  beauticians-IsApart score [] h hs d = tt
  beauticians-IsApart score (other ∷ scores) h hs d = (
    beautician_less-IsApart score other h hs.0 (λ e. d.0 (hex_injective _ _ e)),
    beauticians-IsApart score scores h hs.1 d.1,
  )

  All-beauticians-IsApart :
      (scores : List (BeauticianScore F))
      → All HasRevenue scores
      → IsDistinct (beautician_ids scores)
      → IsApartAll (beautician_less fl hex) scores
  unfolding beautician_ids
  All-beauticians-IsApart [] hs d = tt
  All-beauticians-IsApart (score ∷ scores) hs d =
      (beauticians-IsApart score scores hs.0 hs.1 d.0, All-beauticians-IsApart scores hs.1 d.1)

  -- Where `ObjectID.Hex` is injective, float64 is ordered as documented, no revenue is NaN and no
  -- worker is listed twice: the awards do not depend on the order in which the scores are given.
  pub rank_beauticians-eq_of_perm :
      {xs ys : List (BeauticianScore F)} (prizes : List F)
      → Permᴰ xs ys
      → All HasRevenue xs
      → IsDistinct (beautician_ids xs)
      → rank_beauticians fl hex xs prizes ≡ rank_beauticians fl hex ys prizes
  unfolding rank_beauticians
  rank_beauticians-eq_of_perm {xs} prizes d hs distinct =
      ap (λ ranked. beautician_awards fl hex ranked prizes)
        (sort_slice-eq_of_perm (beautician_less fl hex) HasRevenue beautician_less_trans d hs
          (All-beauticians-IsApart xs hs distinct))
