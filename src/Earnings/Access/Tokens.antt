-- ===== src/Earnings/Access/Tokens.antt =====
-- `VerifyAdminToken` (internal/earnings/auth.go). Base64, JSON and HMAC-SHA-256 are packages of Go:
-- a record of functions, `none` being an error. The clock's value is an argument.
pub mod Accepted
use hom_swag_reporting.Base.{
  ℕ, ℤ, leb_ℤ, Bool, not, Option, none, some, List, [], ◌∷◌, ◌++◌, Text, codes, eqb_text, is_empty,
}
use hom_swag_reporting.Base.Strings.{trim_space, to_lower}
use hom_swag_reporting.Base.Split.{split, fields}
use hom_swag_reporting.Base.Checked.{Checked, passed, failed, ◌>>=◌, ◌>>◌, demand, from_option}
use hom_swag_reporting.Earnings.Access.{Principal}

pub record TokenPayload : Type 0 where
  pub sub : Text
  pub office_id : Text
  pub is_admin : Bool
  pub office_ids : List Text
  pub permissions : List Text

pub record TokenClaims : Type 0 where
  pub payload : TokenPayload
  pub expires_at : ℤ

pub record TokenHeader : Type 0 where
  pub algorithm : Text
  pub type_name : Text

pub data TokenError : Type 0 where
  secret_missing bearer_required invalid_jwt invalid_header not_hs256 : TokenError
  invalid_signature invalid_payload invalid_claims expired subject_missing : TokenError

pub record TokenCodec : Type 0 where
  pub decode_string : Text → Option Text
  pub unmarshal_header : Text → Option TokenHeader
  pub unmarshal_claims : Text → Option TokenClaims
  pub hmac_sha256 : Text → Text → Text

-- `len(parts) != 2 || !strings.EqualFold(parts[0], "Bearer")`.
unfoldable pub bearer_token : List Text → Checked TokenError Text
bearer_token (scheme ∷ token ∷ []) = do
  demand (eqb_text (to_lower scheme) (codes "bearer")) bearer_required
  passed token
bearer_token _ = failed bearer_required

pub record TokenParts : Type 0 where
  pub header : Text
  pub payload : Text
  pub signature : Text

unfoldable pub token_parts : List Text → Checked TokenError TokenParts
token_parts (h ∷ p ∷ s ∷ []) = passed (record { header = h; payload = p; signature = s })
token_parts _ = failed invalid_jwt

unfoldable pub signing_input : TokenParts → Text
signing_input t = t.header ++ codes "." ++ t.payload

unfoldable pub principal_of : TokenPayload → Principal
principal_of p = record {
  staff_id = p.sub;
  office_id = p.office_id;
  is_admin = p.is_admin;
  office_ids = p.office_ids;
  permissions = p.permissions;
}

module _ (codec : TokenCodec) (secret : Text) where
  open codec use {decode_string, unmarshal_header, unmarshal_claims, hmac_sha256}

  -- The header names the algorithm.
  unfoldable pub check_header : TokenParts → Checked TokenError (Unit {0})
  check_header t = do
    header_json ← from_option (decode_string t.header) invalid_header
    header ← from_option (unmarshal_header header_json) not_hs256
    demand (eqb_text header.algorithm (codes "HS256")) not_hs256

  unfoldable pub check_signature : TokenParts → Checked TokenError (Unit {0})
  unfolding signing_input
  check_signature t = do
    actual ← from_option (decode_string t.signature) invalid_signature
    demand (eqb_text actual (hmac_sha256 secret (signing_input t))) invalid_signature

  unfoldable pub read_claims : TokenParts → ℤ → Checked TokenError TokenPayload
  read_claims t now = do
    payload ← from_option (decode_string t.payload) invalid_payload
    claims ← from_option (unmarshal_claims payload) invalid_claims
    demand (not (leb_ℤ claims.expires_at now)) expired
    demand (not (is_empty claims.payload.sub)) subject_missing
    passed claims.payload

  unfoldable pub verify_admin_token : Text → ℤ → Checked TokenError Principal
  unfolding bearer_token token_parts check_header check_signature read_claims principal_of
  verify_admin_token header now = do
    demand (not (is_empty (trim_space secret))) secret_missing
    token ← bearer_token (fields header)
    t ← token_parts (split b'.' token)
    check_header t
    check_signature t
    payload ← read_claims t now
    passed (principal_of payload)
