-- ===== src/Earnings/Issues/Store/Steps.antt =====
-- `upsertOrderIssue` and `upsertTripIssue` take an issue through steps of its life.
use hom_swag_reporting.Base.{
  ℕ, zero, suc, ◌==◌, ◌≡◌, refl, sym, ap, ◌∙◌, subst, Bool, true, false, Bool-cases, inl, inr,
  Option, none, some, arith,
}
use hom_swag_reporting.Mongo.{first_match, Collection}
use hom_swag_reporting.Mongo.Ids.{has_id, IdsApart, first_match-id}
use hom_swag_reporting.Earnings.Types.{ObjectId, Error, Result, ok, err, duplicate_key}
use hom_swag_reporting.Earnings.Action.{Action, pure, ◌>>=◌, >>=-eq-ok, pure-eq-ok}
use hom_swag_reporting.Earnings.Issues.{Life, Step, IsOpen}
use hom_swag_reporting.Earnings.Issues.Progress.{
  Progress, IsIndexed, Progress-trans, insert-Progress, update_one-Progress,
}
use hom_swag_reporting.Earnings.Issues.Store.{
  IssueKind, is_duplicate_key, decoded, after_insert, refresh_existing, has_issue_key, upsert_issue,
}

-- What the updates of a kind of issue must do for it to have the life that is specified.
pub record IsLawful {D : Type 0} {R : Type 0} (kind : IssueKind D) (life : D → Life R)
    : Type 0 where
  pub own_id : (i : ObjectId) (d : D) → kind.id (kind.with_id i d) ≡ i
  pub same_key : (i : ObjectId) (d : D) → kind.key (kind.with_id i d) ≡ kind.key d
  pub same_life : (i : ObjectId) (d : D) → life (kind.with_id i d) ≡ life d
  pub refreshed_id : (existing issue d : D) → kind.id (kind.refreshed existing issue d) ≡ kind.id d
  pub refreshed_step : (issue d : D) → Step (life d) (life (kind.refreshed d issue d))

err_not_ok :
    {W A : Type 0} {e : Error} {a : A} {w w' : W} → ◌≡◌ {A = Result A × W} (err e, w) (ok a, w') → ⊥
err_not_ok h = cc

some_injective : {A : Type 0} {a b : A} → some a ≡ some b → b ≡ a
some_injective e = cc

pub decoded-state :
    {W D : Type 0} (o : Option D) (d : D) (w w' : W) → decoded o w ≡ (ok d, w') → w' ≡ w
unfolding decoded
decoded-state none d w w' h = cc
decoded-state (some x) d w w' h = sym (ap (λ p. p.1) h)

pub is_duplicate_key-eq : (e : Error) → is_duplicate_key e ≡ true → e ≡ duplicate_key
unfolding is_duplicate_key
is_duplicate_key-eq e h = ground arith

module _ {D : Type 0} {R : Type 0} (kind : IssueKind D) (life : D → Life R)
    (lawful : IsLawful kind life) (issues : Collection D) (new_id : issues.State → ObjectId) where
  open issues use {State, documents}
  open kind use {id, key, with_id, refreshed}

  abbrev pub Advances : State → State → Type 0
  Advances = Progress life id issues

  abbrev as_old : D → Action State (D × Bool)
  as_old stored = pure (stored, false)

  -- What is read by key is the document that is then updated by id, and the update is one step.
  refresh_existing-Progress :
      (issue existing : D) (r : D × Bool) (s s' : State)
      → IdsApart id (documents s)
      → first_match (has_issue_key kind issues new_id (key issue)) (documents s) ≡ some existing
      → refresh_existing kind issues new_id issue existing s ≡ (ok r, s')
      → Advances s s'
  unfolding refresh_existing
  refresh_existing-Progress issue existing r s s' apart found h =
      let change = refreshed existing issue in
      let matches : D → Bool = λ d. id d == id existing in
      let (after, t, updated, h1) =
        >>=-eq-ok (issues.find_one_and_update matches change) (λ after. decoded after >>= as_old) s
          s' r h in
      let (stored, u, read, h2) = >>=-eq-ok (decoded after) as_old t s' r h1 in
      let there = first_match-id id _ (documents s) apart found in
      let progress =
        update_one-Progress life id issues matches change (lawful.refreshed_id existing issue) s t
          apart
          (λ d e.
            subst (λ x. Step (life d) (life (refreshed x issue d)))
              (sym (some_injective (sym e ∙ there))) (lawful.refreshed_step issue d))
          after updated in
      let same : s' ≡ t =
        (pure-eq-ok (stored, false) r u s' h2).1 ∙ decoded-state after stored t u read in
      subst (λ x. Advances s x) (sym same) progress

  after_insert-Progress :
      IsIndexed life id issues key new_id
      → (insert : D) (retry : Action State (D × Bool)) (outcome : Result (Unit {0})) (r : D × Bool)
        (s t s' : State)
      → IsOpen (life insert)
      → first_match (has_id id (id insert)) (documents s) ≡ none
      → IdsApart id (documents s)
      → issues.insert_one insert s ≡ (outcome, t)
      → (IdsApart id (documents t) → retry t ≡ (ok r, s') → Advances t s')
      → after_insert kind issues new_id insert retry (outcome, t) ≡ (ok r, s')
      → Advances s s'
  unfolding after_insert
  after_insert-Progress indexed insert retry (ok done) r s t s' new fresh apart e again h =
      let same : s' ≡ t = sym (ap (λ p. p.1) h) in
      subst (λ x. Advances s x) (sym same)
        (insert-Progress life id issues insert s t new fresh apart e)
  after_insert-Progress indexed insert retry (err x) r s t s' new fresh apart e again h =
      elim (Bool-cases (is_duplicate_key x)) [
        | inl duplicate ↦
            let met = rw (is_duplicate_key-eq x duplicate) at e in
            let others = indexed.others_progress insert s t met apart in
            Progress-trans life id issues s t s' others (again others.1 (rw duplicate at h))
        | inr other ↦ absurd (err_not_ok (rw other at h))
      ]

  pub upsert_issue-Progress :
      IsIndexed life id issues key new_id
      → (fuel : ℕ) (issue : D) (r : D × Bool) (s s' : State) → IsOpen (life issue)
      → IdsApart id (documents s)
      → upsert_issue kind issues new_id fuel issue s ≡ (ok r, s')
      → Advances s s'
  unfolding upsert_issue
  upsert_issue-Progress indexed zero issue r s s' new apart h = cc
  upsert_issue-Progress indexed (suc fuel) issue r s s' new apart h =
      go (λ t later again. upsert_issue-Progress indexed fuel issue r t s' new later again)
        (issues.find_one (has_issue_key kind issues new_id (key issue)) s) refl h
    where
      retry : Action State (D × Bool)
      retry = upsert_issue kind issues new_id fuel issue

      insert : D
      insert = with_id (new_id s) issue

      go :
          ((t : State)
            → IdsApart id (documents t)
            → upsert_issue kind issues new_id fuel issue t ≡ (ok r, s')
            → Advances t s')
          → (found : Result (Option D))
          → issues.find_one (has_issue_key kind issues new_id (key issue)) s ≡ found
          → ◌≡◌ {A = Result (D × Bool) × State}
              (elim found [
                | err e ↦ (err e, s)
                | ok o ↦ elim o [
                  | none ↦ after_insert kind issues new_id insert retry (issues.insert_one insert s)
                  | some existing ↦ refresh_existing kind issues new_id issue existing s
                ]
              ])
              (ok r, s')
          → Advances s s'
      go ih (err e) same k = cc
      go ih (ok none) same k =
          after_insert-Progress indexed insert retry (issues.insert_one insert s).0 r s
            (issues.insert_one insert s).1 s' (rw (lawful.same_life (new_id s) issue) new)
            (rw (lawful.own_id (new_id s) issue) (indexed.fresh s)) apart refl
            (ih (issues.insert_one insert s).1) k
      go ih (ok (some existing)) same k =
          refresh_existing-Progress issue existing r s s' apart
            (sym (
              issues.find_one_found (has_issue_key kind issues new_id (key issue)) s (some existing)
                same))
            k

-- `FindOneAndUpdate` and `Decode` of what it returns, as both repositories close an issue.
pub updated-Progress :
    {D : Type 0} {R : Type 0} (life : D → Life R) (id : D → ObjectId) (issues : Collection D)
    (matches : D → Bool) (change : D → D)
    → ((d : D) → id (change d) ≡ id d)
    → ((d : D) → Step (life d) (life (change d)))
    → (s s' : issues.State) (stored : D) → IdsApart id (issues.documents s)
    → (issues.find_one_and_update matches change >>= decoded) s ≡ (ok stored, s')
    → Progress life id issues s s'
updated-Progress life id issues matches change same_id good s s' stored apart h =
    let (after, t, updated, h1) =
      >>=-eq-ok (issues.find_one_and_update matches change) decoded s s' stored h in
    let progress =
      update_one-Progress life id issues matches change same_id s t apart (λ d e. good d) after
        updated in
    subst (λ x. Progress life id issues s x) (sym (decoded-state after stored t s' h1)) progress
