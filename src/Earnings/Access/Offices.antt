-- ===== src/Earnings/Access/Offices.antt =====
-- Which offices a principal may work in.
use hom_swag_reporting.Base.{
  ◌≡◌, ◌≢◌, subst, ◌⊎◌, ◌↔◌, true, false, none, some, [], Text, eqb_text, eqb_text_refl,
  eqb_text→eq, eqb_text_iff, is_empty_iff, any, any_iff, Memᴰ, arith,
}
use hom_swag_reporting.Earnings.Access.{
  Principal, office_required, outside_scope, can_access_office,
}

module _ (p : Principal) (office_id : Text) where
  assigned_iff :
      (any (λ allowed. eqb_text allowed office_id) p.office_ids ≡ true)
      ↔ Memᴰ office_id p.office_ids
  assigned_iff = (
    λ h.
        let (allowed, there, same) = (any_iff _ p.office_ids).0 h in
        subst (λ o. Memᴰ o p.office_ids) (eqb_text→eq allowed office_id same) there,
    λ there. (any_iff _ p.office_ids).1 (office_id, there, eqb_text_refl office_id),
  )

  own_iff : (eqb_text p.office_id office_id ≡ true) ↔ (p.office_id ≡ office_id)
  own_iff = eqb_text_iff p.office_id office_id

  -- Access is given exactly to the selected office, and to an administrator who has no list of
  -- offices or has the office on the list; the office must be named, and where it is not, that is
  -- the error. Outside the selected office the error says of the others whether the principal is an
  -- administrator.
  pub can_access_office_iff :
      ((can_access_office p office_id ≡ none) ↔ (
        (office_id ≢ [])
        × ((p.office_id ≡ office_id)
            ⊎ ((p.is_admin ≡ true) × ((p.office_ids ≡ []) ⊎ Memᴰ office_id p.office_ids)))))
      × ((can_access_office p office_id ≡ some office_required) ↔ (office_id ≡ []))
      × ((can_access_office p office_id ≡ some outside_scope)
          ↔ ((office_id ≢ []) × (p.office_id ≢ office_id) × (p.is_admin ≡ false)))
  unfolding can_access_office
  can_access_office_iff = (
    (
      λ h. grind (arith, is_empty_iff office_id, is_empty_iff p.office_ids, own_iff, assigned_iff),
      λ h. ground (arith, is_empty_iff office_id, is_empty_iff p.office_ids, own_iff, assigned_iff),
    ),
    (λ h. ground (arith, is_empty_iff office_id), λ h. ground arith),
    (
      λ h. ground (arith, is_empty_iff office_id, own_iff),
      λ h. ground (arith, is_empty_iff office_id, own_iff),
    ),
  )
