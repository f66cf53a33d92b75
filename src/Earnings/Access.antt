-- ===== src/Earnings/Access.antt =====
-- Who may do what (internal/earnings/auth.go): the principal of a token, its permissions and its
-- offices. `SplitN(required, sep, 2)` is read through `before_separator`.
pub mod Permissions
pub mod Offices
pub mod Tokens
use hom_swag_reporting.Base.{
  ℕ, Bool, true, false, not, ◌||◌, Option, none, some, List, [], ◌∷◌, ◌++◌, Text, codes, eqb_text,
  is_empty, any, if◌then◌else◌,
}
use hom_swag_reporting.Base.Split.{before_separator}

pub record Principal : Type 0 where
  pub staff_id : Text
  pub office_id : Text
  pub is_admin : Bool
  pub office_ids : List Text
  pub permissions : List Text

-- `permission == parts[0]+separator+"*"`, or with `"**"`.
unfoldable pub matches_prefix : Text → ℕ → Option Text → Bool
matches_prefix permission separator none = false
matches_prefix permission separator (some part) =
    eqb_text permission (part ++ separator ∷ codes "*")
    || eqb_text permission (part ++ separator ∷ codes "**")

unfoldable pub matches_permission : Text → Text → Bool
unfolding matches_prefix
matches_permission required permission =
    (eqb_text permission required
      || (eqb_text permission (codes "*:*") || eqb_text permission (codes "*.*")))
    || (matches_prefix permission b':' (before_separator b':' required)
        || matches_prefix permission b'.' (before_separator b'.' required))

unfoldable pub has_permission : Principal → Text → Bool
unfolding matches_permission
has_permission p required =
    if p.is_admin then true else any (matches_permission required) p.permissions

pub data AccessError : Type 0 where
  office_required outside_scope not_assigned : AccessError

-- `none` is a nil error.
unfoldable pub can_access_office : Principal → Text → Option AccessError
can_access_office p office_id =
    if is_empty office_id
    then some office_required
    else if eqb_text p.office_id office_id
    then none
    else if not p.is_admin
    then some outside_scope
    else if is_empty p.office_ids
    then none
    else if any (λ allowed. eqb_text allowed office_id) p.office_ids
    then none
    else some not_assigned
