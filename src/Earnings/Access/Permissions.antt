-- ===== src/Earnings/Access/Permissions.antt =====
-- Which permissions cover a required one.
use hom_swag_reporting.Base.{
  ℕ, ◌≡◌, refl, ◌⊎◌, inl, inr, ◌↔◌, Bool, true, ◌||◌, Bool-cases, some, Option-cases, ◌∷◌, ◌++◌,
  Text, codes, eqb_text, or_iff, eqb_text_iff, any_iff, Memᴰ, arith,
}
use hom_swag_reporting.Base.Split.{
  lacks, before_separator, before_separator-eq_some, before_separator-append,
}
use hom_swag_reporting.Earnings.Access.{
  Principal, matches_prefix, matches_permission, has_permission,
}

-- A permission names a whole namespace of the required one: what stands before its first
-- separator, then the separator and one star or two.
abbrev pub IsWildcard : ℕ → Text → Text → Type 0
IsWildcard separator required permission =
    (part : Text) × (rest : Text) × (required ≡ part ++ separator ∷ rest)
    × (lacks separator part ≡ true)
    × ((permission ≡ part ++ separator ∷ codes "*") ⊎ (permission ≡ part ++ separator ∷ codes "**"))

-- A permission covers a required one: it is the same, stands for all, or is a wildcard over its
-- namespace.
abbrev pub Covers : Text → Text → Type 0
Covers required permission =
    (permission ≡ required)
    ⊎ ((permission ≡ codes "*:*")
        ⊎ ((permission ≡ codes "*.*")
            ⊎ (IsWildcard b':' required permission ⊎ IsWildcard b'.' required permission)))

or_iff_of :
    {P Q : Type 0} (a b : Bool) → ((a ≡ true) ↔ P) → ((b ≡ true) ↔ Q) → ((a || b) ≡ true) ↔ (P ⊎ Q)
or_iff_of a b p q = (
  λ h. elim ((or_iff a b).0 h) [ inl e ↦ inl (p.0 e) | inr e ↦ inr (q.0 e) ],
  λ h. (or_iff a b).1 (elim h [ inl e ↦ inl (p.1 e) | inr e ↦ inr (q.1 e) ]),
)

matches_prefix_iff :
    (separator : ℕ) (required permission : Text)
    → (matches_prefix permission separator (before_separator separator required) ≡ true)
      ↔ IsWildcard separator required permission
unfolding matches_prefix
matches_prefix_iff separator required permission = (covers, matches)
  where
    named :
        (part : Text)
        → (matches_prefix permission separator (some part) ≡ true) ↔ (
            (permission ≡ part ++ separator ∷ codes "*")
            ⊎ (permission ≡ part ++ separator ∷ codes "**"))
    named part = or_iff_of _ _ (eqb_text_iff permission _) (eqb_text_iff permission _)

    covers :
        matches_prefix permission separator (before_separator separator required) ≡ true
        → IsWildcard separator required permission
    covers h = elim (Option-cases (before_separator separator required)) [
      | inl missing ↦ absurd (ground arith)
      | inr (part, found) ↦
          let (rest, whole, clean) = before_separator-eq_some separator required part found in
          (part, rest, whole, clean, (named part).0 (rw found at h))
    ]

    matches :
        IsWildcard separator required permission
        → matches_prefix permission separator (before_separator separator required) ≡ true
    matches (part, rest, whole, clean, name) =
        rw (whole, before_separator-append separator part rest clean) ((named part).1 name)

plain_iff :
    (required permission : Text)
    → ((eqb_text permission required
          || (eqb_text permission (codes "*:*") || eqb_text permission (codes "*.*")))
        ≡ true)
      ↔ ((permission ≡ required) ⊎ ((permission ≡ codes "*:*") ⊎ (permission ≡ codes "*.*")))
plain_iff required permission =
    or_iff_of _ _ (eqb_text_iff _ _) (or_iff_of _ _ (eqb_text_iff _ _) (eqb_text_iff _ _))

wild_iff :
    (required permission : Text)
    → ((matches_prefix permission b':' (before_separator b':' required)
          || matches_prefix permission b'.' (before_separator b'.' required))
        ≡ true)
      ↔ (IsWildcard b':' required permission ⊎ IsWildcard b'.' required permission)
wild_iff required permission =
    or_iff_of _ _ (matches_prefix_iff b':' required permission)
      (matches_prefix_iff b'.' required permission)

matches_permission_iff :
    (required permission : Text)
    → (matches_permission required permission ≡ true) ↔ Covers required permission
unfolding matches_permission
matches_permission_iff required permission = (
  λ h. elim ((or_iff _ _).0 h) [
    | inl plain ↦ elim ((plain_iff required permission).0 plain) [
      | inl same ↦ inl same
      | inr other ↦ elim other [ inl colon ↦ inr (inl colon) | inr dot ↦ inr (inr (inl dot)) ]
    ]
    | inr wild ↦ inr (inr (inr ((wild_iff required permission).0 wild)))
  ],
  λ h. (or_iff _ _).1 (elim h [
    | inl same ↦ inl ((plain_iff required permission).1 (inl same))
    | inr (inl colon) ↦ inl ((plain_iff required permission).1 (inr (inl colon)))
    | inr (inr (inl dot)) ↦ inl ((plain_iff required permission).1 (inr (inr dot)))
    | inr (inr (inr wild)) ↦ inr ((wild_iff required permission).1 wild)
  ]),
)

-- A principal has a permission exactly if it is an administrator, or one of its permissions
-- covers the required one: the same text, `*:*`, `*.*`, or a wildcard, `ns:*`, `ns:**`, `ns.*` or
-- `ns.**`, where `ns` is what stands before the first such separator of the required one.
pub has_permission_iff :
    (p : Principal) (required : Text)
    → (has_permission p required ≡ true) ↔ (
        (p.is_admin ≡ true)
        ⊎ ((permission : Text) × Memᴰ permission p.permissions × Covers required permission))
unfolding has_permission
has_permission_iff p required = (
  λ h. elim (Bool-cases p.is_admin) [
    | inl admin ↦ inl admin
    | inr other ↦
        let (permission, there, matches) =
          (any_iff (matches_permission required) p.permissions).0 (rw other at h) in
        inr (permission, there, (matches_permission_iff required permission).0 matches)
  ],
  λ h. elim h [
    | inl admin ↦ rw admin refl
    | inr (permission, there, covers) ↦ elim (Bool-cases p.is_admin) [
      | inl admin ↦ rw admin refl
      | inr other ↦ rw other (
          (any_iff (matches_permission required) p.permissions).1
            (permission, there, (matches_permission_iff required permission).1 covers))
    ]
  ],
)
