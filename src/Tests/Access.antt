-- ===== src/Tests/Access.antt =====
-- Principals and tokens. The codec of the tests takes a text as its own encoding, reads one header
-- and one payload, and signs by writing the secret behind the input.
use hom_swag_reporting.Base.{
  pos, ◌≡◌, ◌≢◌, refl, ◌⊎◌, ◌↔◌, true, false, none, some, [], ◌∷◌, Text, codes, eqb_text, is_empty,
  Memᴰ, if◌then◌else◌,
}
use hom_swag_reporting.Base.Strings.{trim_space, trim_left, trim_right, to_lower}
use hom_swag_reporting.Base.Split.{split, fields}
use hom_swag_reporting.Base.Checked.{passed}
use hom_swag_reporting.Earnings.Access.{
  Principal, has_permission, can_access_office, office_required, outside_scope,
}
use hom_swag_reporting.Earnings.Access.Permissions.{Covers, has_permission_iff}
use hom_swag_reporting.Earnings.Access.Offices.{can_access_office_iff}
use hom_swag_reporting.Earnings.Access.Tokens.{
  TokenPayload, TokenCodec, TokenParts, principal_of, verify_admin_token,
}
use hom_swag_reporting.Earnings.Access.Tokens.Accepted.{
  IsGenuine, verify_admin_token-IsGenuine, verify_admin_token-signed,
}

abbrev clerk : Principal
clerk = record {
  staff_id = codes "s1";
  office_id = codes "o1";
  is_admin = false;
  office_ids = [];
  permissions = codes "ledger.*" ∷ [];
}

has_permission_iff_example : (has_permission clerk (codes "ledger.payout") ≡ true) ↔ (
    (clerk.is_admin ≡ true)
    ⊎ ((permission : Text) × Memᴰ permission clerk.permissions
        × Covers (codes "ledger.payout") permission))
has_permission_iff_example = has_permission_iff clerk (codes "ledger.payout")

can_access_office_iff_example :
    ((can_access_office clerk (codes "o2") ≡ none) ↔ (
      (codes "o2" ≢ [])
      × ((clerk.office_id ≡ codes "o2")
          ⊎ ((clerk.is_admin ≡ true)
              × ((clerk.office_ids ≡ []) ⊎ Memᴰ (codes "o2") clerk.office_ids)))))
    × ((can_access_office clerk (codes "o2") ≡ some office_required) ↔ (codes "o2" ≡ []))
    × ((can_access_office clerk (codes "o2") ≡ some outside_scope)
        ↔ ((codes "o2" ≢ []) × (clerk.office_id ≢ codes "o2") × (clerk.is_admin ≡ false)))
can_access_office_iff_example = can_access_office_iff clerk (codes "o2")

abbrev claimed : TokenPayload
claimed = record {
  sub = codes "s1";
  office_id = codes "o1";
  is_admin = false;
  office_ids = [];
  permissions = codes "ledger.read" ∷ [];
}

abbrev codec : TokenCodec
codec = record {
  decode_string = some;
  unmarshal_header = λ json.
      if eqb_text json (codes "h")
      then some (record { algorithm = codes "HS256"; type_name = codes "JWT" })
      else none;
  unmarshal_claims = λ json.
      if eqb_text json (codes "p")
      then some (record { payload = claimed; expires_at = pos 900 })
      else none;
  hmac_sha256 = λ secret input. secret;
}

abbrev parts : TokenParts
parts = record { header = codes "h"; payload = codes "p"; signature = codes "k" }

genuine : IsGenuine codec (codes "k") parts (pos 800) claimed
genuine = record {
  header_json = codes "h";
  header = record { algorithm = codes "HS256"; type_name = codes "JWT" };
  claims_json = codes "p";
  claims = record { payload = claimed; expires_at = pos 900 };
  header_decoded = refl;
  header_read = refl;
  is_hs256 = refl;
  signed = refl;
  claims_decoded = refl;
  claims_read = refl;
  expires_later = refl;
  has_subject = refl;
  payload_claimed = refl;
}

verify_admin_token-signed_example :
    verify_admin_token codec (codes "k") (codes "Bearer h.p.k") (pos 800)
    ≡ passed (principal_of claimed)
unfolding trim_space trim_left trim_right
verify_admin_token-signed_example =
    verify_admin_token-signed codec (codes "k") parts (pos 800) claimed genuine refl
      (refl, refl, refl) refl

verify_admin_token-IsGenuine_example :
    (scheme : Text) × (token : Text) × (t : TokenParts) × (payload : TokenPayload) × (fields
        (codes "Bearer h.p.k")
      ≡ scheme ∷ token ∷ [])
    × (to_lower scheme ≡ codes "bearer")
    × (split b'.' token ≡ t.header ∷ t.payload ∷ t.signature ∷ [])
    × IsGenuine codec (codes "k") t (pos 800) payload
    × (principal_of claimed ≡ principal_of payload)
    × (is_empty (trim_space (codes "k")) ≡ false)
verify_admin_token-IsGenuine_example =
    verify_admin_token-IsGenuine codec (codes "k") (codes "Bearer h.p.k") (pos 800)
      (principal_of claimed) verify_admin_token-signed_example
