-- ===== src/Leaderboard/Ranking/Order.antt =====
-- The orders that the rankings rest on: of texts, which is total, and of float64, on numbers.
use hom_swag_reporting.Base.{
  ℕ, ◌≡◌, ◌≢◌, refl, ◌⊎◌, inl, inr, true, false, not, ◌&&◌, List, [], ◌∷◌, Text, ltb_text, All,
  arith,
}
use hom_swag_reporting.Money.{Float64}

-- The order of the texts is total.
pub ltb_text_total :
    (s t : Text)
    → s ≢ t
    → ((ltb_text s t ≡ true) × (ltb_text t s ≡ false))
      ⊎ ((ltb_text t s ≡ true) × (ltb_text s t ≡ false))
ltb_text_total [] [] h = absurd (h refl)
ltb_text_total [] (b ∷ t) h = inl (refl, refl)
ltb_text_total (a ∷ s) [] h = inr (refl, refl)
ltb_text_total (a ∷ s) (b ∷ t) h = ground (arith, ltb_text_total s t)

pub ltb_text_trans :
    (s t u : Text) → ltb_text s t ≡ true → ltb_text t u ≡ true → ltb_text s u ≡ true
ltb_text_trans [] [] u h k = cc
ltb_text_trans [] (b ∷ t) [] h k = cc
ltb_text_trans [] (b ∷ t) (c ∷ u) h k = refl
ltb_text_trans (a ∷ s) [] u h k = cc
ltb_text_trans (a ∷ s) (b ∷ t) [] h k = cc
ltb_text_trans (a ∷ s) (b ∷ t) (c ∷ u) h k = ground (arith, ltb_text_trans s t u)

-- What float64 gives on numbers: `<` is asymmetric and cotransitive, and `==` holds where neither
-- is less. NaN is excluded, and 0 and -0 are equal.
pub record IsOrdered (fl : Float64) : Type 0 where
  pub asym :
      (a b : fl.F)
      → fl.is_nan a ≡ false
      → fl.is_nan b ≡ false
      → fl.lt_f a b ≡ true
      → fl.lt_f b a ≡ false
  pub trans :
      (a b c : fl.F)
      → fl.is_nan a ≡ false
      → fl.is_nan b ≡ false
      → fl.is_nan c ≡ false
      → fl.lt_f a b ≡ true
      → fl.lt_f b c ≡ true
      → fl.lt_f a c ≡ true
  pub same :
      (a b : fl.F)
      → fl.is_nan a ≡ false
      → fl.is_nan b ≡ false
      → fl.eq_f a b ≡ not (fl.lt_f a b) && not (fl.lt_f b a)
  pub same_trans :
      (a b c : fl.F)
      → fl.is_nan a ≡ false
      → fl.is_nan b ≡ false
      → fl.is_nan c ≡ false
      → fl.eq_f a b ≡ true
      → fl.lt_f a c ≡ fl.lt_f b c
  pub same_trans' :
      (a b c : fl.F)
      → fl.is_nan a ≡ false
      → fl.is_nan b ≡ false
      → fl.is_nan c ≡ false
      → fl.eq_f a b ≡ true
      → fl.lt_f c a ≡ fl.lt_f c b

-- Every two of the numbers differ.
abbrev pub IsDistinct : List ℕ → Type 0
IsDistinct [] = Unit
IsDistinct (x ∷ xs) = All (λ y. x ≢ y) xs × IsDistinct xs
