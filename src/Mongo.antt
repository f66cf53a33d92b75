-- ===== src/Mongo.antt =====
-- The Mongo driver, which the repository only calls: a collection is a parameter, with the
-- documented effect of each call on the documents that it holds. A call may fail; then nothing is
-- said of the state. `Mongo/Memory.antt` is an instance.
pub mod Memory
pub mod Sums
pub mod Keeps
pub mod Ids
use hom_swag_reporting.Base.{
  ℕ, ◌≡◌, ◌⊎◌, Bool, true, false, List, [], ◌∷◌, ◌++◌, Option, none, some, select, length,
  if◌then◌else◌,
}
use mathlib.Core.List.{Permᴰ}
use hom_swag_reporting.Earnings.Types.{Error, Result, ok, err}

module _ {D : Type 0} where
  -- The first document that matches a filter.
  abbrev pub first_match : (D → Bool) → List D → Option D
  first_match matches [] = none
  first_match matches (d ∷ docs) =
      let rest = first_match matches docs in if matches d then some d else rest

  -- The documents after one that matches is changed, and the number that matched.
  unfoldable pub update_first : (D → Bool) → (D → D) → List D → List D × ℕ
  update_first matches change [] = ([], 0)
  update_first matches change (d ∷ docs) =
      let rest = update_first matches change docs in
      if matches d then (change d ∷ docs, 1) else (d ∷ rest.0, rest.1)

  -- The document after an update, if one matched.
  abbrev pub changed_match : (D → D) → Option D → Option D
  changed_match change none = none
  changed_match change (some d) = some (change d)

  unfoldable pub update_all : (D → Bool) → (D → D) → List D → List D
  update_all matches change [] = []
  update_all matches change (d ∷ docs) =
      (if matches d then change d else d) ∷ update_all matches change docs

-- `FindOne`, `Find` with a sort, `UpdateOne` and `InsertOne` of a collection. The number that
-- `update_one` returns is 1 if a document matched; every update of the program sets a time, so that
-- it is also the number of the documents that it modified. `upsert_one` is `FindOneAndUpdate` with
-- `$setOnInsert`, which inserts the document if none matches, and returns the one stored;
-- `find_one_and_update` returns the document after the update, or none if none matched.
pub record Collection (D : Type 0) : Type 1 where
  pub State : Type 0
  pub documents : State → List D
  pub find_one : (D → Bool) → State → Result (Option D)
  pub find_sorted : (D → Bool) → (D → D → Bool) → State → Result (List D)
  pub update_one : (D → Bool) → (D → D) → State → Result ℕ × State
  pub insert_one : D → State → Result (Unit {0}) × State
  pub upsert_one : (D → Bool) → D → State → Result D × State
  pub count_documents : (D → Bool) → State → Result ℕ
  pub find_one_and_update : (D → Bool) → (D → D) → State → Result (Option D) × State
  pub update_many : (D → Bool) → (D → D) → State → Result ℕ × State
  pub find_one_found :
      (matches : D → Bool) (s : State) (found : Option D)
      → find_one matches s ≡ ok found
      → found ≡ first_match matches (documents s)
  pub find_sorted_found :
      (matches : D → Bool) (before : D → D → Bool) (s : State) (found : List D)
      → find_sorted matches before s ≡ ok found
      → Permᴰ found (select matches (documents s))
  pub update_one_done :
      (matches : D → Bool) (change : D → D) (s s' : State) (n : ℕ)
      → update_one matches change s ≡ (ok n, s')
      → (documents s', n) ≡ update_first matches change (documents s)
  pub insert_one_done :
      (d : D) (s s' : State) → insert_one d s ≡ (ok tt, s') → documents s' ≡ documents s ++ d ∷ []
  pub upsert_one_done :
      (matches : D → Bool) (d found : D) (s s' : State)
      → upsert_one matches d s ≡ (ok found, s')
      → ((first_match matches (documents s) ≡ some found) × (documents s' ≡ documents s))
        ⊎ ((first_match matches (documents s) ≡ none)
            × (found ≡ d)
            × (documents s' ≡ documents s ++ d ∷ []))
  pub count_documents_counted :
      (matches : D → Bool) (s : State) (n : ℕ)
      → count_documents matches s ≡ ok n
      → n ≡ length (select matches (documents s))
  pub find_one_and_update_done :
      (matches : D → Bool) (change : D → D) (s s' : State) (after : Option D)
      → find_one_and_update matches change s ≡ (ok after, s')
      → (documents s' ≡ (update_first matches change (documents s)).0)
        × (after ≡ changed_match change (first_match matches (documents s)))
  pub update_many_done :
      (matches : D → Bool) (change : D → D) (s s' : State) (n : ℕ)
      → update_many matches change s ≡ (ok n, s')
      → (documents s' ≡ update_all matches change (documents s))
        × (n ≡ length (select matches (documents s)))

-- `WithTransaction` over the states that a callback works on. `A` is the type of the variables that
-- the callback captures and sets: an attempt that is given up does not reset them, so that the one
-- that is committed may begin with others, `begins`, than the first. What it commits is a whole run
-- of the callback, and after an error nothing of it remains in the database.
pub record Transactions (W : Type 0) (A : Type 0) : Type 0 where
  pub with_transaction : (A → W → Result A × W) → A → W → Result A × W
  pub begins : (A → W → Result A × W) → A → W → A
  pub committed :
      (operation : A → W → Result A × W) (start : A) (w w' : W) (a : A)
      → with_transaction operation start w ≡ (ok a, w')
      → operation (begins operation start w) w ≡ (ok a, w')
  pub aborted :
      (operation : A → W → Result A × W) (start : A) (w w' : W) (e : Error)
      → with_transaction operation start w ≡ (err e, w')
      → w' ≡ w
