-- ===== src/Earnings/OrderIssues/Scan/Sweep.antt =====
-- The second phase of a scan, apart from what the issues are about: the filter and the update of
-- the issues that were not detected again, in ScanOrderIssues
-- (internal/earnings/order_issues_repository.go) and ScanTripIssues (trip_issues_repository.go).
use hom_swag_reporting.Base.{
  ◌==◌, ==_iff, ◌≡◌, ◌⊎◌, inl, inr, subst, Bool, true, false, not, ◌&&◌, Bool-cases, List, [], ◌∷◌,
  Text, eqb_text, eqb_text→eq, eqb_text_refl, ltb_text, any, any_iff, if◌then◌else◌, refl, arith,
}
use mathlib.Core.List.{Memᴰ}
use hom_swag_reporting.Mongo.{update_all}
use hom_swag_reporting.Earnings.Types.{ObjectId}
use hom_swag_reporting.Earnings.OrderIssues.{order_issue_open}
use hom_swag_reporting.Earnings.OrderIssues.Scan.{is_within}

-- An open issue of the office and the dates of the scan, whose key was not detected.
pub record IsMissed (office_id : ObjectId) (start_date end_date : Text) (keys : List Text)
    (office : ObjectId) (date status key : Text) : Type 0 where
  pub of_office : office ≡ office_id
  pub not_before : ltb_text date start_date ≡ false
  pub not_after : ltb_text end_date date ≡ false
  pub is_open : status ≡ order_issue_open
  pub not_detected : ¬ Memᴰ key keys

module _ (office_id : ObjectId) (start_date end_date : Text) (keys : List Text) (office : ObjectId)
    (date status key : Text) where
  abbrev filter : Bool
  filter =
      (office == office_id)
      && is_within start_date end_date date
      && eqb_text status order_issue_open
      && not (any (λ k. eqb_text k key) keys)

  parts :
      (a b c d e : Bool)
      → (a && (not b && not c) && d && not e) ≡ true
      → (a ≡ true) × (b ≡ false) × (c ≡ false) × (d ≡ true) × (e ≡ false)
  parts a b c d e h = ground arith

  pub filter-IsMissed :
      filter ≡ true → IsMissed office_id start_date end_date keys office date status key
  unfolding is_within
  filter-IsMissed h =
      let (same, before, after, opened, absent) =
        parts (office == office_id) (ltb_text date start_date) (ltb_text end_date date)
          (eqb_text status order_issue_open) (any (λ k. eqb_text k key) keys) h in
      record {
        of_office = (==_iff office office_id).0 same;
        not_before = before;
        not_after = after;
        is_open = eqb_text→eq status order_issue_open opened;
        not_detected = λ there.
            let found = (any_iff (λ k. eqb_text k key) keys).1 (key, there, eqb_text_refl key) in
            cc;
      }

  pub not_filter-IsMissed :
      filter ≡ false → ¬ IsMissed office_id start_date end_date keys office date status key
  unfolding is_within
  not_filter-IsMissed h missed = elim (Bool-cases (any (λ k. eqb_text k key) keys)) [
    | inl some_key ↦
        let (k, there, same) = (any_iff (λ k. eqb_text k key) keys).0 some_key in
        missed.not_detected (subst (λ x. Memᴰ x keys) (eqb_text→eq k key same) there)
    | inr absent ↦
        let office_same = (==_iff office office_id).1 missed.of_office in
        let opened : eqb_text status order_issue_open ≡ true =
          rw missed.is_open (eqb_text_refl order_issue_open) in
        let before = missed.not_before in let after = missed.not_after in ground arith
  ]

module _ {D : Type 0} (Missed : D → Type 0) (Resolved : D → D → Type 0) where
  -- Each document either was missed and is resolved, or was not and stays.
  abbrev pub Swept : List D → List D → Type 0
  Swept [] [] = Unit {0}
  Swept (d ∷ docs) (x ∷ docs') =
      ((Missed d × Resolved d x) ⊎ ((¬ Missed d) × (x ≡ d))) × Swept docs docs'
  Swept _ _ = ⊥

  pub update_all-Swept :
      (matches : D → Bool) (change : D → D)
      → ((d : D) → matches d ≡ true → Missed d)
      → ((d : D) → matches d ≡ false → ¬ Missed d)
      → ((d : D) → Resolved d (change d))
      → (docs : List D) → Swept docs (update_all matches change docs)
  unfolding update_all
  update_all-Swept matches change sound complete good [] = tt
  update_all-Swept matches change sound complete good (d ∷ docs) =
      (split (matches d) refl, update_all-Swept matches change sound complete good docs)
    where
      split :
          (b : Bool)
          → matches d ≡ b
          → (Missed d × Resolved d (if b then change d else d))
            ⊎ ((¬ Missed d) × ((if b then change d else d) ≡ d))
      split true here = inl (sound d here, good d)
      split false other = inr (complete d other, refl)
