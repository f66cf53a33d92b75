-- ===== src/Mongo/Keeps.antt =====
-- A property of all documents of a collection, and what keeps it.
use hom_swag_reporting.Base.{
  Memᴰ, ◌≡◌, refl, subst, Bool, true, false, Bool-cases, inl, inr, some, List, [], ◌∷◌, All, arith,
}
use hom_swag_reporting.Mongo.{first_match, update_first, update_all}

module _ {D : Type 0} (matches : D → Bool) where
  pub first_match-matches :
      (docs : List D) {d : D} → first_match matches docs ≡ some d → matches d ≡ true
  first_match-matches [] e = cc
  first_match-matches (x ∷ docs) e = elim (Bool-cases (matches x)) [
    | inl here ↦ ground arith
    | inr later ↦ first_match-matches docs (rw later at e)
  ]

module _ {D : Type 0} (P : D → Type 0) (matches : D → Bool) where
  pub first_match-All :
      (docs : List D) {d : D} → All P docs → first_match matches docs ≡ some d → P d
  first_match-All [] all e = cc
  first_match-All (x ∷ docs) all e = elim (Bool-cases (matches x)) [
    | inl here ↦ subst P (ground arith) all.0
    | inr later ↦ first_match-All docs all.1 (rw later at e)
  ]

  module _ (change : D → D) where
    -- A change that need only be good for the document that is found.
    pub update_first-All :
        (docs : List D)
        → All P docs
        → ((d : D) → first_match matches docs ≡ some d → P d → P (change d))
        → All P (update_first matches change docs).0
    unfolding update_first
    update_first-All [] all good = all
    update_first-All (x ∷ docs) all good = elim (Bool-cases (matches x)) [
      | inl here ↦ rw here (good x (rw here refl) all.0, all.1)
      | inr later ↦ rw later (all.0, update_first-All docs all.1 (λ d e p. good d (rw later e) p))
    ]

    pub update_all-All :
        (docs : List D)
        → All P docs
        → ((d : D) → matches d ≡ true → P d → P (change d))
        → All P (update_all matches change docs)
    unfolding update_all
    update_all-All [] all good = all
    update_all-All (x ∷ docs) all good = elim (Bool-cases (matches x)) [
      | inl here ↦ rw here (good x here all.0, update_all-All docs all.1 good)
      | inr later ↦ rw later (all.0, update_all-All docs all.1 good)
    ]

-- A document that does not match stays.
module _ {D : Type 0} (matches : D → Bool) (change : D → D) where
  pub update_first-mem :
      {x : D} {docs : List D}
      → Memᴰ x docs
      → matches x ≡ false
      → Memᴰ x (update_first matches change docs).0
  unfolding update_first
  update_first-mem {x} (Memᴰ.head {x = y} {xs = docs} same) other =
      rw (← same, other) (Memᴰ.head refl)
  update_first-mem {x} (Memᴰ.tail {x = y} {xs = docs} there) other = elim (Bool-cases (matches y)) [
    | inl here ↦ rw here (Memᴰ.tail there)
    | inr later ↦ rw later (Memᴰ.tail (update_first-mem there other))
  ]
