-- ===== src/Mongo/Memory.antt =====
-- A collection held in memory, as a list: every call succeeds.
use hom_swag_reporting.Base.{
  Option, none, some, ◌⊎◌, inl, inr, refl, ℕ, ◌≡◌, sym, ap, Bool, List, [], ◌∷◌, ◌++◌, select,
  length, subst, arith,
}
use mathlib.Core.List.{Permᴰ}
use hom_swag_reporting.Earnings.Types.{Error, Result, ok, err}
use hom_swag_reporting.Mongo.{
  first_match, update_first, changed_match, update_all, Collection, Transactions,
}
use hom_swag_reporting.Leaderboard.Sorting.{sort_slice, sort_slice-perm}

pub ok_injective : {A : Type 0} (a b : A) → ok a ≡ ok b → b ≡ a
ok_injective a b e = cc

module _ {D : Type 0} where
  pub memory_find_sorted :
      (matches : D → Bool) (before : D → D → Bool) (docs found : List D)
      → ok (sort_slice before (select matches docs)) ≡ ok found
      → Permᴰ found (select matches docs)
  memory_find_sorted matches before docs found e =
      subst (λ l. Permᴰ l (select matches docs)) (sym (ok_injective _ _ e))
        (sort_slice-perm before (select matches docs))

  pub memory_update_one :
      (matches : D → Bool) (change : D → D) (s s' : List D) (n : ℕ)
      → ◌≡◌ {A = Result ℕ × List D}
          (ok (update_first matches change s).1, (update_first matches change s).0)
          (ok n, s')
      → (s', n) ≡ update_first matches change s
  memory_update_one matches change s s' n e = ground arith

module _ {D : Type 0} (matches : D → Bool) (change : D → D) (s s' : List D) where
  pub memory_find_one_and_update :
      (after : Option D)
      → ◌≡◌ {A = Result (Option D) × List D}
          (ok (changed_match change (first_match matches s)), (update_first matches change s).0)
          (ok after, s')
      → (s' ≡ (update_first matches change s).0)
        × (after ≡ changed_match change (first_match matches s))
  memory_find_one_and_update after e = (sym (ap (λ p. p.1) e), ok_injective _ _ (ap (λ p. p.0) e))

  pub memory_update_many :
      (n : ℕ)
      → ◌≡◌ {A = Result ℕ × List D}
          (ok (length (select matches s)), update_all matches change s)
          (ok n, s')
      → (s' ≡ update_all matches change s) × (n ≡ length (select matches s))
  memory_update_many n e = (sym (ap (λ p. p.1) e), ok_injective _ _ (ap (λ p. p.0) e))

unfoldable pub upserted : {D : Type 0} → Option D → D → List D → Result D × List D
upserted none d docs = (ok d, docs ++ d ∷ [])
upserted (some found) d docs = (ok found, docs)

pub memory_upsert_one :
    {D : Type 0} (o : Option D) (d found : D) (docs docs' : List D)
    → upserted o d docs ≡ (ok found, docs')
    → ((o ≡ some found) × (docs' ≡ docs)) ⊎ ((o ≡ none) × (found ≡ d) × (docs' ≡ docs ++ d ∷ []))
unfolding upserted
memory_upsert_one none d found docs docs' e =
    inr (refl, ok_injective _ _ (ap (λ (r, l). r) e), sym (ap (λ (r, l). l) e))
memory_upsert_one (some x) d found docs docs' e =
    inl (ap some (sym (ok_injective _ _ (ap (λ (r, l). r) e))), sym (ap (λ (r, l). l) e))

unfoldable pub memory : (D : Type 0) → Collection D
unfolding sort_slice update_first update_all upserted
memory D = record {
  State = List D;
  documents = λ docs. docs;
  find_one = λ matches docs. ok (first_match matches docs);
  find_sorted = λ matches before docs. ok (sort_slice before (select matches docs));
  update_one = λ matches change docs.
      (ok (update_first matches change docs).1, (update_first matches change docs).0);
  insert_one = λ d docs. (ok tt, docs ++ d ∷ []);
  upsert_one = λ matches d docs. upserted (first_match matches docs) d docs;
  count_documents = λ matches docs. ok (length (select matches docs));
  find_one_and_update = λ matches change docs.
      (ok (changed_match change (first_match matches docs)), (update_first matches change docs).0);
  update_many =
      λ matches change docs. (ok (length (select matches docs)), update_all matches change docs);
  find_one_and_update_done = memory_find_one_and_update;
  update_many_done = memory_update_many;
  count_documents_counted = λ matches s n e. ok_injective _ _ e;
  find_one_found = λ matches s found e. ok_injective _ _ e;
  find_sorted_found = memory_find_sorted;
  update_one_done = memory_update_one;
  upsert_one_done =
      λ matches d found s s' e. memory_upsert_one (first_match matches s) d found s s' e;
  insert_one_done = λ d s s' e. sym (ap (λ (r, docs). docs) e);
}

-- Transactions over states that are values: after an error the state is the old one.
pub rolled_back : {W A : Type 0} → W → Result A × W → Result A × W
rolled_back w (ok a, w') = (ok a, w')
rolled_back w (err e, w') = (err e, w)

module _ {W A : Type 0} where
  pub rolled_back-ok :
      (w w' : W) (a : A) (r : Result A × W) → rolled_back w r ≡ (ok a, w') → r ≡ (ok a, w')
  unfolding rolled_back
  rolled_back-ok w w' a (ok b, v) h = h
  rolled_back-ok w w' a (err e, v) h = cc

  pub rolled_back-err :
      (w w' : W) (e : Error) (r : Result A × W) → rolled_back w r ≡ (err e, w') → w' ≡ w
  unfolding rolled_back
  rolled_back-err w w' e (ok b, v) h = cc
  rolled_back-err w w' e (err x, v) h = sym (ap (λ p. p.1) h)

unfoldable pub memory_transactions : (W A : Type 0) → Transactions W A
unfolding rolled_back
memory_transactions W A = record {
  with_transaction = λ operation start w. rolled_back w (operation start w);
  begins = λ operation start w. start;
  committed = λ operation start w w' a h. rolled_back-ok w w' a (operation start w) h;
  aborted = λ operation start w w' e h. rolled_back-err w w' e (operation start w) h;
}
