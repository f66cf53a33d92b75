-- ===== src/Earnings/Periods.antt =====
-- Closed periods: `ClosePeriod`, `IsDateClosed` and `HasClosedPeriodOverlap` of
-- internal/earnings/repository.go.
use hom_swag_reporting.Base.{
  ℕ, ◌<◌, ◌==◌, ltb, Bool, true, false, not, ◌&&◌, Bool-cases, ◌≡◌, refl, sym, ap, ◌∙◌, inl, inr,
  List, [], ◌∷◌, ◌++◌, Text, codes, eqb_text, none, ltb_text, length, select, arith,
}
use hom_swag_reporting.Earnings.Types.{ObjectId, Instant, Period, Result, ok, err}
use hom_swag_reporting.Earnings.Action.{Action, pure, ◌>>=◌, >>=-eq-ok, pure-eq-ok}
use hom_swag_reporting.Mongo.{first_match, Collection}

-- The filter of `HasClosedPeriodOverlap`.
unfoldable pub overlaps : ObjectId → Text → Text → Period → Bool
overlaps office_id start_date end_date p =
    p.office_id == office_id
    && eqb_text p.status (codes "closed")
    && not (ltb_text end_date p.start_date)
    && not (ltb_text p.end_date start_date)

-- The filter of the upsert.
unfoldable pub is_same_period : Period → Period → Bool
is_same_period period d =
    d.office_id == period.office_id
    && eqb_text d.kind period.kind
    && eqb_text d.start_date period.start_date
    && eqb_text d.end_date period.end_date

unfoldable pub closed : Period → ObjectId → Instant → Period
closed period id now = record period {
  id = id;
  status = codes "closed";
  closed_at = now;
  created_at = now;
  updated_at = now;
}

-- `count > 0, err`.
unfoldable pub is_positive : Result ℕ → Result Bool
is_positive (ok n) = ok (ltb 0 n)
is_positive (err e) = err e

module _ (periods : Collection Period) where
  unfoldable pub has_closed_period_overlap : ObjectId → Text → Text → Action periods.State Bool
  has_closed_period_overlap office_id start_date end_date s =
      (is_positive (periods.count_documents (overlaps office_id start_date end_date) s), s)

  -- `IsDateClosed`: the period contains the date.
  unfoldable pub is_date_closed : ObjectId → Text → Action periods.State Bool
  unfolding has_closed_period_overlap
  is_date_closed office_id service_date =
      has_closed_period_overlap office_id service_date service_date

  unfoldable pub close_period : Period → ObjectId → Instant → Action periods.State (Period × Bool)
  close_period period id now =
      periods.upsert_one (is_same_period period) (closed period id now) >>= λ stored.
      pure (stored, stored.id == id)

select-snoc-pos :
    {A : Type 0} (p : A → Bool) (docs : List A) (a : A)
    → p a ≡ true
    → 0 < length (select p (docs ++ a ∷ []))
select-snoc-pos p [] a h = rw h (omega arith)
select-snoc-pos p (d ∷ docs) a h = elim (Bool-cases (p d)) [
  | inl hit ↦ rw hit (omega arith)
  | inr miss ↦ rw miss (select-snoc-pos p docs a h)
]

overlaps-closed :
    (period : Period) (id : ObjectId) (now : Instant) (start_date end_date : Text)
    → ltb_text end_date period.start_date ≡ false
    → ltb_text period.end_date start_date ≡ false
    → overlaps period.office_id start_date end_date (closed period id now) ≡ true
unfolding overlaps closed
overlaps-closed period id now start_date end_date h k = rw (h, k) (ground arith)

is_positive-eq-ok :
    (m : Result ℕ) (answer : Bool)
    → is_positive m ≡ ok answer
    → (n : ℕ) × (m ≡ ok n) × (ltb 0 n ≡ answer)
unfolding is_positive
is_positive-eq-ok (ok n) answer e = (n, refl, cc)
is_positive-eq-ok (err x) answer e = cc

ltb_positive : (n : ℕ) → 0 < n → ltb 0 n ≡ true
ltb_positive n h = ground arith

-- Where no period of the office with the same kind and bounds exists: after a call of `ClosePeriod`
-- that returns no error, every range of dates that meets the period overlaps a closed period of the
-- office, if the question is answered without an error.
pub close_period_closes :
    (periods : Collection Period) (period : Period) (id : ObjectId) (now : Instant)
    (start_date end_date : Text) (s s' s'' : periods.State) (r : Period × Bool) (answer : Bool)
    → first_match (is_same_period period) (periods.documents s) ≡ none
    → close_period periods period id now s ≡ (ok r, s')
    → ltb_text end_date period.start_date ≡ false
    → ltb_text period.end_date start_date ≡ false
    → has_closed_period_overlap periods period.office_id start_date end_date s' ≡ (ok answer, s'')
    → answer ≡ true
unfolding close_period has_closed_period_overlap
close_period_closes periods period id now start_date end_date s s' s'' r answer fresh e h k asked =
    let new = closed period id now in
    let (stored, v, upserted, returned) =
      >>=-eq-ok (periods.upsert_one (is_same_period period) new)
        (λ stored. pure (stored, stored.id == id)) s s' r e in
    let (same, kept) = pure-eq-ok (stored, stored.id == id) r v s' returned in
    let (n, counted, test) =
      is_positive-eq-ok (periods.count_documents (overlaps period.office_id start_date end_date) s')
        answer (ap (λ p. p.0) asked) in
    let total =
      periods.count_documents_counted (overlaps period.office_id start_date end_date) s' n
        counted in
    elim (periods.upsert_one_done (is_same_period period) new stored s v upserted) [
      | inl (found, unchanged) ↦ cc
      | inr (missing, is_new, grown) ↦
          let positive =
            select-snoc-pos (overlaps period.office_id start_date end_date) (periods.documents s)
              new (overlaps-closed period id now start_date end_date h k) in
          let documents = ap periods.documents kept ∙ grown in
          sym test ∙ ltb_positive n (rw (total, documents) positive)
    ]
