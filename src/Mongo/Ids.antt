-- ===== src/Mongo/Ids.antt =====
-- Documents with an id of their own: what is found by another field is found by its id.
use hom_swag_reporting.Base.{
  ℕ, ◌≡◌, refl, sym, ◌==◌, ==_iff, ==_refl, Bool, false, Bool-cases, inl, inr, none, some, List, [],
  ◌∷◌, ◌++◌, arith,
}
use hom_swag_reporting.Mongo.{first_match, update_first, update_all}

module _ {D : Type 0} (id : D → ℕ) where
  abbrev pub has_id : ℕ → D → Bool
  has_id key d = id d == key

  abbrev pub IdsApart : List D → Type 0
  IdsApart [] = Unit
  IdsApart (d ∷ docs) = (first_match (has_id (id d)) docs ≡ none) × IdsApart docs

  -- Two lists with the same ids.
  abbrev pub SameIds : List D → List D → Type 0
  SameIds [] [] = Unit
  SameIds (d ∷ docs) (e ∷ docs') = (id d ≡ id e) × SameIds docs docs'
  SameIds _ _ = ⊥

  first_match-SameIds :
      (key : ℕ) (docs docs' : List D)
      → SameIds docs docs'
      → first_match (has_id key) docs ≡ none
      → first_match (has_id key) docs' ≡ none
  first_match-SameIds key [] [] same e = refl
  first_match-SameIds key [] (d ∷ docs') same e = elim same [ ]
  first_match-SameIds key (d ∷ docs) [] same e = elim same [ ]
  first_match-SameIds key (d ∷ docs) (x ∷ docs') same e = elim (Bool-cases (id d == key)) [
    | inl here ↦ absurd (ground arith)
    | inr other ↦
        let next : (id x == key) ≡ false = rw (← same.0) other in
        rw next (first_match-SameIds key docs docs' same.1 (rw other at e))
  ]

  pub IdsApart-SameIds : (docs docs' : List D) → SameIds docs docs' → IdsApart docs → IdsApart docs'
  IdsApart-SameIds [] [] same apart = apart
  IdsApart-SameIds [] (d ∷ docs') same apart = elim same [ ]
  IdsApart-SameIds (d ∷ docs) [] same apart = elim same [ ]
  IdsApart-SameIds (d ∷ docs) (x ∷ docs') same apart = (
    rw (← same.0) (first_match-SameIds (id d) docs docs' same.1 apart.0),
    IdsApart-SameIds docs docs' same.1 apart.1,
  )

  SameIds-refl : (docs : List D) → SameIds docs docs
  SameIds-refl [] = tt
  SameIds-refl (d ∷ docs) = (refl, SameIds-refl docs)

  module _ (matches : D → Bool) (change : D → D) (same_id : (d : D) → id (change d) ≡ id d) where
    pub update_first-SameIds : (docs : List D) → SameIds docs (update_first matches change docs).0
    unfolding update_first
    update_first-SameIds [] = tt
    update_first-SameIds (d ∷ docs) = elim (Bool-cases (matches d)) [
      | inl here ↦ rw here (sym (same_id d), SameIds-refl docs)
      | inr other ↦ rw other (refl, update_first-SameIds docs)
    ]

    pub update_all-SameIds : (docs : List D) → SameIds docs (update_all matches change docs)
    unfolding update_all
    update_all-SameIds [] = tt
    update_all-SameIds (d ∷ docs) = elim (Bool-cases (matches d)) [
      | inl here ↦ rw here (sym (same_id d), update_all-SameIds docs)
      | inr other ↦ rw other (refl, update_all-SameIds docs)
    ]

  first_match-append :
      (key : ℕ) (docs : List D) (d : D)
      → first_match (has_id key) docs ≡ none
      → (id d == key) ≡ false
      → first_match (has_id key) (docs ++ d ∷ []) ≡ none
  first_match-append key [] d e other = rw other refl
  first_match-append key (x ∷ docs) d e other = elim (Bool-cases (id x == key)) [
    | inl here ↦ absurd (ground arith)
    | inr next ↦ rw next (first_match-append key docs d (rw next at e) other)
  ]

  pub IdsApart-append :
      (docs : List D) (d : D)
      → IdsApart docs
      → first_match (has_id (id d)) docs ≡ none
      → IdsApart (docs ++ d ∷ [])
  IdsApart-append [] d apart fresh = (refl, tt)
  IdsApart-append (x ∷ docs) d apart fresh = elim (Bool-cases (id x == id d)) [
    | inl here ↦ absurd (ground arith)
    | inr other ↦ (
      first_match-append (id x) docs d apart.0 (ground (arith, ==_iff (id d) (id x))),
      IdsApart-append docs d apart.1 (rw other at fresh),
    )
  ]

  -- What is found by any filter is what is found by its id.
  pub first_match-id :
      (matches : D → Bool) (docs : List D) {d : D}
      → IdsApart docs
      → first_match matches docs ≡ some d
      → first_match (has_id (id d)) docs ≡ some d
  first_match-id matches [] apart e = cc
  first_match-id matches (x ∷ docs) {d} apart e = elim (Bool-cases (matches x)) [
    | inl here ↦ let same : x ≡ d = ground arith in rw (← same) (rw (==_refl (id x)) refl)
    | inr later ↦ elim (Bool-cases (id x == id d)) [
      | inl clash ↦
          let found = first_match-id matches docs apart.1 (rw later at e) in
          let equal : id x ≡ id d = (==_iff (id x) (id d)).0 clash in
          let missing : first_match (has_id (id d)) docs ≡ none = rw (← equal) apart.0 in
          absurd (ground arith)
      | inr other ↦ rw other (first_match-id matches docs apart.1 (rw later at e))
    ]
  ]
