-- ===== src/Earnings/Issues/Store/Retries.antt =====
-- The calls of `upsertOrderIssue` and `upsertTripIssue` end.
use hom_swag_reporting.Base.{
  ℕ, suc, ◌≡◌, ◌≢◌, refl, sym, ◌∙◌, Bool, Bool-cases, inl, inr, Option, none, some,
}
use hom_swag_reporting.Mongo.{first_match, Collection}
use hom_swag_reporting.Earnings.Types.{ObjectId, Result, ok, err}
use hom_swag_reporting.Earnings.Action.{Action}
use hom_swag_reporting.Earnings.Issues.{Life}
use hom_swag_reporting.Earnings.Issues.Progress.{IsIndexed}
use hom_swag_reporting.Earnings.Issues.Store.{
  IssueKind, is_duplicate_key, has_issue_key, after_insert, refresh_existing, upsert_issue,
}
use hom_swag_reporting.Earnings.Issues.Store.Steps.{is_duplicate_key-eq}

module _ {D : Type 0} {R : Type 0} (kind : IssueKind D) (life : D → Life R) (issues : Collection D)
    (new_id : issues.State → ObjectId) (indexed : IsIndexed life kind.id issues kind.key new_id)
    (same_key : (i : ObjectId) (d : D) → kind.key (kind.with_id i d) ≡ kind.key d) where
  open issues use {State, documents}
  open kind use {id, key, with_id, refreshed}

  abbrev upsert : ℕ → D → Action State (D × Bool)
  upsert = upsert_issue kind issues new_id

  abbrev insert_of : D → State → D
  insert_of issue s = with_id (new_id s) issue

  -- One round, by what the search finds.
  abbrev round : ℕ → D → State → Result (Option D) → Result (D × Bool) × State
  round fuel issue s found = elim found [
    | err e ↦ (err e, s)
    | ok o ↦ elim o [
      | none ↦
          after_insert kind issues new_id (insert_of issue s) (upsert fuel issue)
            (issues.insert_one (insert_of issue s) s)
      | some existing ↦ refresh_existing kind issues new_id issue existing s
    ]
  ]

  upsert-round :
      (fuel : ℕ) (issue : D) (s : State)
      → upsert (suc fuel) issue s
        ≡ round fuel issue s (issues.find_one (has_issue_key kind issues new_id (key issue)) s)
  unfolding upsert_issue
  upsert-round fuel issue s = refl

  -- Where the document is there, nothing is called again.
  present-fuel :
      (n m : ℕ) (issue : D) (s : State)
      → first_match (has_issue_key kind issues new_id (key issue)) (documents s) ≢ none
      → upsert (suc n) issue s ≡ upsert (suc m) issue s
  present-fuel n m issue s present =
      upsert-round n issue s
      ∙ go (issues.find_one (has_issue_key kind issues new_id (key issue)) s) refl
      ∙ sym (upsert-round m issue s)
    where
      go :
          (found : Result (Option D))
          → issues.find_one (has_issue_key kind issues new_id (key issue)) s ≡ found
          → round n issue s found ≡ round m issue s found
      go (err e) same = refl
      go (ok (some existing)) same = refl
      go (ok none) same = absurd (
          present (
            sym (issues.find_one_found (has_issue_key kind issues new_id (key issue)) s none same)))

  after_insert-fuel :
      (n m : ℕ) (issue insert : D) (outcome : Result (Unit {0})) (s t : State)
      → key insert ≡ key issue
      → issues.insert_one insert s ≡ (outcome, t)
      → after_insert kind issues new_id insert (upsert (suc n) issue) (outcome, t)
        ≡ after_insert kind issues new_id insert (upsert (suc m) issue) (outcome, t)
  unfolding after_insert has_issue_key
  after_insert-fuel n m issue insert (ok done) s t key e = refl
  after_insert-fuel n m issue insert (err x) s t key e = elim (Bool-cases (is_duplicate_key x)) [
    | inr other ↦ rw other refl
    | inl duplicate ↦
        let met = rw (is_duplicate_key-eq x duplicate) at e in
        rw duplicate
          (present-fuel n m issue t (rw (← key) (indexed.duplicate_present insert s t met)))
  ]

  -- With a unique index on the issue key, two calls of `upsertOrderIssue` (or `upsertTripIssue`) are enough: more fuel
  -- changes nothing, so that the fuel does not run out.
  pub upsert_issue-fuel :
      (fuel : ℕ) (issue : D) (s : State)
      → upsert_issue kind issues new_id (suc (suc fuel)) issue s
        ≡ upsert_issue kind issues new_id 2 issue s
  upsert_issue-fuel fuel issue s =
      upsert-round (suc fuel) issue s
      ∙ go (issues.find_one (has_issue_key kind issues new_id (key issue)) s)
      ∙ sym (upsert-round 1 issue s)
    where
      go : (found : Result (Option D)) → round (suc fuel) issue s found ≡ round 1 issue s found
      go (err e) = refl
      go (ok (some existing)) = refl
      go (ok none) =
          after_insert-fuel fuel 0 issue (insert_of issue s)
            (issues.insert_one (insert_of issue s) s).0 s
            (issues.insert_one (insert_of issue s) s).1 (same_key (new_id s) issue) refl
