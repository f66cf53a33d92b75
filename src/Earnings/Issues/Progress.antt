-- ===== src/Earnings/Issues/Progress.antt =====
-- From a state of a collection of issues to a later one: the issues have evolved, and their ids
-- are still apart.
use hom_swag_reporting.Base.{
  ℕ, ◌≡◌, ◌≢◌, sym, subst, Bool, true, Option, none, some, List, [], ◌∷◌, ◌++◌, Text, eqb_text,
}
use hom_swag_reporting.Mongo.{first_match, update_first, update_all, Collection}
use hom_swag_reporting.Mongo.Ids.{
  has_id, IdsApart, IdsApart-SameIds, update_first-SameIds, update_all-SameIds, IdsApart-append,
}
use hom_swag_reporting.Earnings.Types.{ObjectId, ok, err, duplicate_key}
use hom_swag_reporting.Earnings.Issues.{Life, Step, IsOpen}
use hom_swag_reporting.Earnings.Issues.Evolution.{
  Evolves, Evolves-refl, Evolves-trans, Evolves-append, update_first-Evolves, update_all-Evolves,
}

module _ {R : Type 0} {D : Type 0} (life : D → Life R) (id : D → ObjectId)
    (issues : Collection D) where
  open issues use {State, documents}

  abbrev pub Progress : State → State → Type 0
  Progress s s' = Evolves life (documents s) (documents s') × IdsApart id (documents s')

  -- What a collection with a unique index on the issue key promises where several clients write to
  -- it: a new id is not in use; an insertion that meets a duplicate key leaves a document with that
  -- key to be found, and what the other clients wrote meanwhile is progress too.
  pub record IsIndexed (key : D → Text) (new_id : State → ObjectId) : Type 0 where
    pub fresh : (s : State) → first_match (has_id id (new_id s)) (documents s) ≡ none
    pub duplicate_present :
        (d : D) (s s' : State)
        → issues.insert_one d s ≡ (err duplicate_key, s')
        → first_match (λ x. eqb_text (key x) (key d)) (documents s') ≢ none
    pub others_progress :
        (d : D) (s s' : State)
        → issues.insert_one d s ≡ (err duplicate_key, s')
        → IdsApart id (documents s)
        → Progress s s'

  pub Progress-trans : (s t u : State) → Progress s t → Progress t u → Progress s u
  Progress-trans s t u p q =
      (Evolves-trans life (documents s) (documents t) (documents u) p.0 q.0, q.1)

  pub Progress-refl : (s : State) → IdsApart id (documents s) → Progress s s
  Progress-refl s apart = (Evolves-refl life (documents s), apart)

  -- The same documents, whatever else the state holds.
  Progress-documents :
      (s s' : State) (docs : List D)
      → documents s' ≡ docs
      → Evolves life (documents s) docs × IdsApart id docs
      → Progress s s'
  Progress-documents s s' docs e p =
      subst (λ l. Evolves life (documents s) l × IdsApart id l) (sym e) p

  pub insert-Progress :
      (d : D) (s s' : State)
      → IsOpen (life d)
      → first_match (has_id id (id d)) (documents s) ≡ none
      → IdsApart id (documents s)
      → issues.insert_one d s ≡ (ok tt, s')
      → Progress s s'
  insert-Progress d s s' new fresh apart e =
      Progress-documents s s' (documents s ++ d ∷ []) (issues.insert_one_done d s s' e)
        (Evolves-append life (documents s) d new, IdsApart-append id (documents s) d apart fresh)

  module _ (matches : D → Bool) (change : D → D) (same_id : (d : D) → id (change d) ≡ id d)
      (s s' : State) (apart : IdsApart id (documents s)) where
    pub update_one-Progress :
        ((d : D) → first_match matches (documents s) ≡ some d → Step (life d) (life (change d)))
        → (after : Option D) → issues.find_one_and_update matches change s ≡ (ok after, s')
        → Progress s s'
    update_one-Progress good after e =
        Progress-documents s s' (update_first matches change (documents s)).0
          (issues.find_one_and_update_done matches change s s' after e).0
          (
            update_first-Evolves life matches change (documents s) good,
            IdsApart-SameIds id (documents s) (update_first matches change (documents s)).0
                (update_first-SameIds id matches change same_id (documents s)) apart,
          )

    pub update_many-Progress :
        ((d : D) → matches d ≡ true → Step (life d) (life (change d)))
        → (n : ℕ) → issues.update_many matches change s ≡ (ok n, s')
        → Progress s s'
    update_many-Progress good n e =
        Progress-documents s s' (update_all matches change (documents s))
          (issues.update_many_done matches change s s' n e).0
          (
            update_all-Evolves life matches change (documents s) good,
            IdsApart-SameIds id (documents s) (update_all matches change (documents s))
                (update_all-SameIds id matches change same_id (documents s)) apart,
          )
