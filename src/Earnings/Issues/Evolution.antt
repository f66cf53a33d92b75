-- ===== src/Earnings/Issues/Evolution.antt =====
-- A collection of issues after some operations: every issue that was there has gone on by steps of
-- its life, and every new one has come from a newly opened one.
use hom_swag_reporting.Base.{
  ◌≡◌, refl, Bool, true, Bool-cases, inl, inr, some, List, [], ◌∷◌, ◌++◌, All,
}
use hom_swag_reporting.Mongo.{first_match, update_first, update_all}
use hom_swag_reporting.Earnings.Issues.{
  Life, Step, Steps, stays, goes_on, Steps-trans, IsOpen, IsConsistent, Steps-IsConsistent,
}

module _ {R : Type 0} {D : Type 0} (life : D → Life R) where
  abbrev pub IsNew : D → Type 0
  IsNew d = (l : Life R) × IsOpen l × Steps l (life d)

  abbrev pub Evolves : List D → List D → Type 0
  Evolves [] docs' = All IsNew docs'
  Evolves (d ∷ docs) [] = ⊥
  Evolves (d ∷ docs) (d' ∷ docs') = Steps (life d) (life d') × Evolves docs docs'

  pub Evolves-refl : (docs : List D) → Evolves docs docs
  Evolves-refl [] = tt
  Evolves-refl (d ∷ docs) = (stays, Evolves-refl docs)

  pub Evolves-append : (docs : List D) (d : D) → IsOpen (life d) → Evolves docs (docs ++ d ∷ [])
  Evolves-append [] d new = ((life d, new, stays), tt)
  Evolves-append (x ∷ docs) d new = (stays, Evolves-append docs d new)

  All-IsNew : (docs docs' : List D) → All IsNew docs → Evolves docs docs' → All IsNew docs'
  All-IsNew [] docs' new e = e
  All-IsNew (d ∷ docs) [] new e = elim e [ ]
  All-IsNew (d ∷ docs) (d' ∷ docs') ((l, fresh, steps), new) e =
      ((l, fresh, Steps-trans steps e.0), All-IsNew docs docs' new e.1)

  pub Evolves-trans :
      (docs docs' docs'' : List D) → Evolves docs docs' → Evolves docs' docs'' → Evolves docs docs''
  Evolves-trans [] docs' docs'' e f = All-IsNew docs' docs'' e f
  Evolves-trans (d ∷ docs) [] docs'' e f = elim e [ ]
  Evolves-trans (d ∷ docs) (d' ∷ docs') [] e f = elim f [ ]
  Evolves-trans (d ∷ docs) (d' ∷ docs') (x ∷ docs'') e f =
      (Steps-trans e.0 f.0, Evolves-trans docs docs' docs'' e.1 f.1)

  All-new-IsConsistent : (docs : List D) → All IsNew docs → All (λ d. IsConsistent (life d)) docs
  All-new-IsConsistent [] new = tt
  All-new-IsConsistent (d ∷ docs) ((l, fresh, steps), new) =
      (Steps-IsConsistent steps (inl fresh), All-new-IsConsistent docs new)

  pub Evolves-IsConsistent :
      (docs docs' : List D)
      → Evolves docs docs'
      → All (λ d. IsConsistent (life d)) docs
      → All (λ d. IsConsistent (life d)) docs'
  Evolves-IsConsistent [] docs' e c = All-new-IsConsistent docs' e
  Evolves-IsConsistent (d ∷ docs) [] e c = elim e [ ]
  Evolves-IsConsistent (d ∷ docs) (d' ∷ docs') e c =
      (Steps-IsConsistent e.0 c.0, Evolves-IsConsistent docs docs' e.1 c.1)

  module _ (matches : D → Bool) (change : D → D) where
    pub update_first-Evolves :
        (docs : List D)
        → ((d : D) → first_match matches docs ≡ some d → Step (life d) (life (change d)))
        → Evolves docs (update_first matches change docs).0
    unfolding update_first
    update_first-Evolves [] good = tt
    update_first-Evolves (d ∷ docs) good = elim (Bool-cases (matches d)) [
      | inl here ↦ rw here (goes_on (good d (rw here refl)) stays, Evolves-refl docs)
      | inr later ↦ rw later (stays, update_first-Evolves docs (λ x e. good x (rw later e)))
    ]

    pub update_all-Evolves :
        (docs : List D)
        → ((d : D) → matches d ≡ true → Step (life d) (life (change d)))
        → Evolves docs (update_all matches change docs)
    unfolding update_all
    update_all-Evolves [] good = tt
    update_all-Evolves (d ∷ docs) good = elim (Bool-cases (matches d)) [
      | inl here ↦ rw here (goes_on (good d here) stays, update_all-Evolves docs good)
      | inr later ↦ rw later (stays, update_all-Evolves docs good)
    ]
