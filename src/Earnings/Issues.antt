-- ===== src/Earnings/Issues.antt =====
-- The life of a reconciliation issue, apart from what it is about: the part of the documents of
-- internal/earnings/order_issues.go and trip_issues.go that the two repositories treat alike. It
-- is a specification of what order_issues_repository.go and trip_issues_repository.go do to an issue.
pub mod Evolution
pub mod Progress
pub mod Store
pub mod Rechecks
use hom_swag_reporting.Base.{
  ℤ, eqb_ℤ, ◌≡◌, ◌≢◌, refl, sym, ap, ◌⊎◌, inl, inr, Bool, true, false, not, ◌&&◌, ◌||◌, Bool-cases,
  Option, none, some, List, [], ◌∷◌, ◌++◌, Text, codes, eqb_text, if◌then◌else◌, arith,
}
use hom_swag_reporting.Earnings.Types.{ObjectId, Instant}
use hom_swag_reporting.Earnings.OrderIssues.{
  order_issue_open, order_issue_resolved, order_issue_accepted,
}

-- `R` is the type of the resolutions.
pub record Life (R : Type 0) : Type 0 where
  pub status : Text
  pub difference : ℤ
  pub resolved_at : Option Instant
  pub resolved_by : Option ObjectId
  pub resolution : Option R
  pub history : List R

-- A new detection opens an issue again that was resolved, or whose accepted difference changed.
abbrev pub is_reopened : Text → ℤ → ℤ → Bool
is_reopened status old new =
    eqb_text status order_issue_resolved
    || (eqb_text status order_issue_accepted && not (eqb_ℤ old new))

abbrev pub IsClosing : Text → Type 0
IsClosing status = (status ≡ order_issue_resolved) ⊎ (status ≡ order_issue_accepted)

module _ {R : Type 0} where
  abbrev pub redetected : ℤ → Life R → Life R
  redetected new l =
      if is_reopened l.status l.difference new
      then record {
        status = order_issue_open;
        difference = new;
        resolved_at = none;
        resolved_by = none;
        resolution = none;
        history = l.history;
      }
      else record l { difference = new }

  abbrev pub closed_as : Text → Instant → Option ObjectId → R → Life R → Life R
  closed_as status now by resolution l = record {
    status = status;
    difference = l.difference;
    resolved_at = some now;
    resolved_by = by;
    resolution = some resolution;
    history = l.history ++ resolution ∷ [];
  }

  pub data Step : Life R → Life R → Type 0 where
    detects : {l m : Life R} (new : ℤ) → m ≡ redetected new l → Step l m
    closes :
        {l m : Life R} (status : Text) (now : Instant) (by : Option ObjectId) (resolution : R)
        → IsClosing status
        → m ≡ closed_as status now by resolution l
        → Step l m

  pub data Steps : Life R → Life R → Type 0 where
    stays : {l : Life R} → Steps l l
    goes_on : {l m n : Life R} → Step l m → Steps m n → Steps l n

  pub Steps-trans : {l m n : Life R} → Steps l m → Steps m n → Steps l n
  Steps-trans stays q = q
  Steps-trans (goes_on s p) q = goes_on s (Steps-trans p q)

  abbrev pub IsOpen : Life R → Type 0
  IsOpen l =
      (l.status ≡ order_issue_open)
      × (l.resolved_at ≡ none)
      × (l.resolved_by ≡ none)
      × (l.resolution ≡ none)

  -- A closed issue tells how it was closed, and that is the last entry of its history.
  abbrev pub IsClosed : Life R → Type 0
  IsClosed l =
      IsClosing l.status
      × (now : Instant) × (resolution : R) × (earlier : List R) × (l.resolved_at ≡ some now)
      × (l.resolution ≡ some resolution)
      × (l.history ≡ earlier ++ resolution ∷ [])

  abbrev pub IsConsistent : Life R → Type 0
  IsConsistent l = IsOpen l ⊎ IsClosed l

  Step-IsConsistent : {l m : Life R} → Step l m → IsConsistent l → IsConsistent m
  Step-IsConsistent {l} (closes status now by resolution closing e) c =
      rw e (inr (closing, now, resolution, l.history, refl, refl, refl))
  Step-IsConsistent {l} (detects new e) c =
      elim (Bool-cases (is_reopened l.status l.difference new)) [
        | inl reopened ↦ rw (e, reopened) (inl (refl, refl, refl, refl))
        | inr kept ↦ rw (e, kept) c
      ]

  pub Steps-IsConsistent : {l m : Life R} → Steps l m → IsConsistent l → IsConsistent m
  Steps-IsConsistent stays c = c
  Steps-IsConsistent (goes_on s p) c = Steps-IsConsistent p (Step-IsConsistent s c)
