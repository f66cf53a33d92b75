-- ===== src/Tests/Contended.antt =====
-- A collection of issues that another client writes to as well: once, an insertion meets a
-- duplicate key, since the other client has just stored an open issue with that key. The state is
-- whether that is still to come, and the documents.
use hom_swag_reporting.Base.{
  ℕ, ◌≡◌, ◌≢◌, refl, sym, ap, subst, Bool-cases, inl, inr, Bool, true, false, none, List, [], ◌∷◌,
  ◌++◌, eqb_text, eqb_text_refl, select, length, arith,
}
use hom_swag_reporting.Mongo.{first_match, update_first, update_all, changed_match, Collection}
use hom_swag_reporting.Mongo.Memory.{
  ok_injective, memory_find_sorted, memory_update_one, memory_find_one_and_update,
  memory_update_many, upserted, memory_upsert_one,
}
use hom_swag_reporting.Mongo.Ids.{IdsApart, IdsApart-append}
use hom_swag_reporting.Leaderboard.Sorting.{sort_slice}
use hom_swag_reporting.Earnings.Types.{Result, ok, err, duplicate_key, database}
use hom_swag_reporting.Earnings.Issues.Evolution.{Evolves, Evolves-append}
use hom_swag_reporting.Earnings.Issues.Progress.{IsIndexed}
use hom_swag_reporting.Earnings.OrderIssues.{order_issue_open}
use hom_swag_reporting.Earnings.OrderIssues.Store.{upsert_order_issue, refresh, needs_reopen}
use hom_swag_reporting.Earnings.Issues.Store.{
  upsert_issue, after_insert, is_duplicate_key, has_issue_key, refresh_existing, decoded,
}
use hom_swag_reporting.Earnings.OrderIssues.Store.Steps.{
  order_life, issue_id, issue_key, upsert_order_issue-fuel,
}
use hom_swag_reporting.Tests.Issues.{Issue, next_id, above_ids}
use hom_swag_reporting.Tests.Orders.{issue}
use hom_swag_reporting.Earnings.OrderIssues.Detection.{new_order_issue}

-- What the other client has stored.
abbrev theirs : Issue → List Issue → Issue
theirs d docs = record d {
  id = next_id issue_id docs;
  status = order_issue_open;
  resolved_at = none;
  resolved_by = none;
  resolution = none;
}

abbrev Shared : Type 0
Shared = Bool × List Issue

abbrev shared_insert : Issue → Shared → Result (Unit {0}) × Shared
shared_insert d (true, docs) = (err duplicate_key, (false, docs ++ theirs d docs ∷ []))
shared_insert d (false, docs) = (ok tt, (false, docs ++ d ∷ []))

shared_insert_done :
    (d : Issue) (s s' : Shared) → shared_insert d s ≡ (ok tt, s') → s'.1 ≡ s.1 ++ d ∷ []
shared_insert_done d (true, docs) s' e = cc
shared_insert_done d (false, docs) s' e = sym (ap (λ p. p.1.1) e)

-- A call that succeeds on the documents, and leaves the flag as it is.
abbrev on_documents :
    {A : Type 0} → (List Issue → Result A × List Issue) → Shared → Result A × Shared
on_documents m (b, docs) = ((m docs).0, (b, (m docs).1))

unfoldable contended : Collection Issue
unfolding sort_slice update_first update_all upserted
contended = record {
  State = Shared;
  documents = λ s. s.1;
  find_one = λ matches s. ok (first_match matches s.1);
  find_sorted = λ matches before s. ok (sort_slice before (select matches s.1));
  update_one = λ matches change.
      on_documents
        (λ docs. (ok (update_first matches change docs).1, (update_first matches change docs).0));
  insert_one = shared_insert;
  upsert_one = λ matches d. on_documents (λ docs. upserted (first_match matches docs) d docs);
  count_documents = λ matches s. ok (length (select matches s.1));
  find_one_and_update = λ matches change. on_documents (λ docs.
      (ok (changed_match change (first_match matches docs)), (update_first matches change docs).0));
  update_many = λ matches change.
      on_documents (λ docs. (ok (length (select matches docs)), update_all matches change docs));
  find_one_and_update_done = λ matches change s s' after e.
      memory_find_one_and_update matches change s.1 s'.1 after (ap (λ p. (p.0, p.1.1)) e);
  update_many_done = λ matches change s s' n e.
      memory_update_many matches change s.1 s'.1 n (ap (λ p. (p.0, p.1.1)) e);
  count_documents_counted = λ matches s n e. ok_injective _ _ e;
  find_one_found = λ matches s found e. ok_injective _ _ e;
  find_sorted_found = λ matches before s found e. memory_find_sorted matches before s.1 found e;
  update_one_done = λ matches change s s' n e.
      memory_update_one matches change s.1 s'.1 n (ap (λ p. (p.0, p.1.1)) e);
  upsert_one_done = λ matches d found s s' e.
      memory_upsert_one (first_match matches s.1) d found s.1 s'.1 (ap (λ p. (p.0, p.1.1)) e);
  insert_one_done = shared_insert_done;
}

abbrev contended_id : contended.State → ℕ
unfolding contended
contended_id s = next_id issue_id s.1

first_match-last :
    (matches : Issue → Bool) (docs : List Issue) (d : Issue)
    → matches d ≡ true
    → first_match matches (docs ++ d ∷ []) ≢ none
first_match-last matches [] d here e = let found = rw here at e in cc
first_match-last matches (x ∷ docs) d here e = elim (Bool-cases (matches x)) [
  | inl first ↦ let found = rw first at e in cc
  | inr later ↦ first_match-last matches docs d here (rw later at e)
]

taken :
    (d : Issue) (s s' : Shared)
    → shared_insert d s ≡ (err duplicate_key, s')
    → s'.1 ≡ s.1 ++ theirs d s.1 ∷ []
taken d (true, docs) s' e = sym (ap (λ p. p.1.1) e)
taken d (false, docs) s' e = cc

contended-IsIndexed : IsIndexed order_life issue_id contended issue_key contended_id
unfolding contended
contended-IsIndexed = record {
  fresh = λ s. above_ids issue_id (next_id issue_id s.1) s.1 (omega arith);
  duplicate_present = λ d s s' e.
      subst (λ l. first_match (λ x. eqb_text (issue_key x) (issue_key d)) l ≢ none)
        (sym (taken d s s' e))
        (first_match-last (λ x. eqb_text (issue_key x) (issue_key d)) s.1 (theirs d s.1)
          (eqb_text_refl (issue_key d)));
  others_progress = λ d s s' e apart.
      subst (λ l. Evolves order_life s.1 l × IdsApart issue_id l) (sym (taken d s s' e))
        (
          Evolves-append order_life s.1 (theirs d s.1) (refl, refl, refl, refl),
          IdsApart-append issue_id s.1 (theirs d s.1) apart
              (above_ids issue_id (next_id issue_id s.1) s.1 (omega arith)),
        );
}

abbrev to_contend : contended.State
unfolding contended
to_contend = (true, [])

upsert_order_issue-fuel_example :
    upsert_order_issue contended contended_id 5 issue to_contend
    ≡ upsert_order_issue contended contended_id 2 issue to_contend
upsert_order_issue-fuel_example =
    upsert_order_issue-fuel contended contended_id contended-IsIndexed 3 issue to_contend

-- One call is not enough there, and the second finds what the other client stored.
one_call : (upsert_order_issue contended contended_id 1 issue to_contend).0 ≡ err database
unfolding contended upsert_order_issue upsert_issue after_insert is_duplicate_key has_issue_key
one_call = refl

two_calls :
    (upsert_order_issue contended contended_id 2 issue to_contend).0
    ≡ ok (refresh false issue (theirs issue []), false)
unfolding contended upsert_order_issue upsert_issue after_insert is_duplicate_key has_issue_key
    refresh_existing decoded needs_reopen update_first new_order_issue
two_calls = refl
