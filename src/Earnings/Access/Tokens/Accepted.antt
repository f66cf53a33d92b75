-- ===== src/Earnings/Access/Tokens/Accepted.antt =====
-- Which tokens are accepted.
use hom_swag_reporting.Base.{
  ℕ, ℤ, leb_ℤ, ◌≡◌, refl, sym, ap, ◌∙◌, Bool, true, false, not, some, List, [], ◌∷◌, ◌++◌, Text,
  codes, eqb_text_refl, eqb_text→eq, is_empty, arith,
}
use hom_swag_reporting.Base.Strings.{trim_space, to_lower}
use hom_swag_reporting.Base.Split.{
  split, fields, fields_from, fields_from-word, split-three, lacks, has_no_space,
}
use hom_swag_reporting.Base.Checked.{
  Checked, passed, demand, from_option, >>=-eq-passed, demand-eq-passed, from_option-eq-passed,
}
use hom_swag_reporting.Earnings.Access.{Principal}
use hom_swag_reporting.Earnings.Access.Tokens.{
  TokenPayload, TokenClaims, TokenHeader, secret_missing, bearer_required, invalid_header,
  not_hs256, invalid_signature, invalid_payload, invalid_claims, expired, subject_missing,
  TokenCodec, TokenParts, bearer_token, token_parts, signing_input, principal_of, check_header,
  check_signature, read_claims, verify_admin_token,
}

not_true→false : {b : Bool} → not b ≡ true → b ≡ false
not_true→false h = ground arith

passed_injective : {E A : Type 0} {a b : A} → ◌≡◌ {A = Checked E A} (passed a) (passed b) → b ≡ a
passed_injective e = cc

demand_passed : {E : Type 0} {u : Unit {0}} (c : Bool) (e : E) → demand c e ≡ passed u → c ≡ true
demand_passed true e h = refl
demand_passed false e h = cc

is_empty-middle : (xs : Text) (c : ℕ) (ys : Text) → is_empty (xs ++ c ∷ ys) ≡ false
is_empty-middle [] c ys = refl
is_empty-middle (x ∷ xs) c ys = refl

bearer_token_passed :
    (words : List Text) (token : Text)
    → bearer_token words ≡ passed token
    → (scheme : Text) × (words ≡ scheme ∷ token ∷ []) × (to_lower scheme ≡ codes "bearer")
unfolding bearer_token
bearer_token_passed [] token h = cc
bearer_token_passed (s ∷ []) token h = cc
bearer_token_passed (s ∷ t ∷ u ∷ words) token h = cc
bearer_token_passed (s ∷ t ∷ []) token h =
    let (same, kept) = demand-eq-passed _ bearer_required _ h in
    let last : token ≡ t = passed_injective kept in (s, rw last refl, eqb_text→eq _ _ same)

token_parts_passed :
    (parts : List Text) (t : TokenParts)
    → token_parts parts ≡ passed t
    → parts ≡ t.header ∷ t.payload ∷ t.signature ∷ []
unfolding token_parts
token_parts_passed [] t h = cc
token_parts_passed (a ∷ []) t h = cc
token_parts_passed (a ∷ b ∷ []) t h = cc
token_parts_passed (a ∷ b ∷ c ∷ d ∷ rest) t h = cc
token_parts_passed (a ∷ b ∷ c ∷ []) t h =
    let same : t ≡ record { header = a; payload = b; signature = c } = passed_injective h in
    rw same refl

fields-bearer :
    (token : Text)
    → has_no_space token ≡ true
    → is_empty token ≡ false
    → fields (codes "Bearer " ++ token) ≡ codes "Bearer" ∷ token ∷ []
unfolding fields fields_from
fields-bearer token spaces nonempty =
    ap (λ l. codes "Bearer" ∷ l) (fields_from-word [] token spaces nonempty)

module _ (codec : TokenCodec) (secret : Text) where
  open codec use {decode_string, unmarshal_header, unmarshal_claims, hmac_sha256}

  -- What makes a token genuine: it names HS256, its signature is that of its first two parts
  -- under the secret, and its claims have a subject and expire later.
  pub record IsGenuine (t : TokenParts) (now : ℤ) (payload : TokenPayload) : Type 0 where
    pub header_json : Text
    pub header : TokenHeader
    pub claims_json : Text
    pub claims : TokenClaims
    pub header_decoded : decode_string t.header ≡ some header_json
    pub header_read : unmarshal_header header_json ≡ some header
    pub is_hs256 : header.algorithm ≡ codes "HS256"
    pub signed :
        decode_string t.signature ≡ some (hmac_sha256 secret (t.header ++ codes "." ++ t.payload))
    pub claims_decoded : decode_string t.payload ≡ some claims_json
    pub claims_read : unmarshal_claims claims_json ≡ some claims
    pub expires_later : leb_ℤ claims.expires_at now ≡ false
    pub has_subject : is_empty claims.payload.sub ≡ false
    pub payload_claimed : claims.payload ≡ payload

  module _ (t : TokenParts) (now : ℤ) where
    check_header_passed :
        (u : Unit {0})
        → check_header codec secret t ≡ passed u
        → (header_json : Text) × (header : TokenHeader) × (decode_string t.header
            ≡ some header_json)
          × (unmarshal_header header_json ≡ some header)
          × (header.algorithm ≡ codes "HS256")
    unfolding check_header
    check_header_passed u h =
        let (json, decoded, h1) =
          >>=-eq-passed (from_option (decode_string t.header) invalid_header) _ h in
        let (header, read, h2) =
          >>=-eq-passed (from_option (unmarshal_header json) not_hs256) _ h1 in
        (
          json,
          header,
          from_option-eq-passed _ invalid_header decoded,
          from_option-eq-passed _ not_hs256 read,
          eqb_text→eq _ _ (demand_passed _ not_hs256 h2),
        )

    check_signature_passed :
        (u : Unit {0})
        → check_signature codec secret t ≡ passed u
        → decode_string t.signature ≡ some (hmac_sha256 secret (signing_input t))
    unfolding check_signature
    check_signature_passed u h =
        let (actual, decoded, h1) =
          >>=-eq-passed (from_option (decode_string t.signature) invalid_signature) _ h in
        let same : actual ≡ hmac_sha256 secret (signing_input t) =
          eqb_text→eq _ _ (demand_passed _ invalid_signature h1) in
        from_option-eq-passed _ invalid_signature decoded ∙ ap some same

    read_claims_passed :
        (payload : TokenPayload)
        → read_claims codec secret t now ≡ passed payload
        → (claims_json : Text) × (claims : TokenClaims) × (decode_string t.payload
            ≡ some claims_json)
          × (unmarshal_claims claims_json ≡ some claims)
          × (leb_ℤ claims.expires_at now ≡ false)
          × (is_empty claims.payload.sub ≡ false)
          × (claims.payload ≡ payload)
    unfolding read_claims
    read_claims_passed payload h =
        let (json, decoded, h1) =
          >>=-eq-passed (from_option (decode_string t.payload) invalid_payload) _ h in
        let (claims, read, h2) =
          >>=-eq-passed (from_option (unmarshal_claims json) invalid_claims) _ h1 in
        let (later, h3) = demand-eq-passed _ expired _ h2 in
        let (subject, h4) = demand-eq-passed _ subject_missing _ h3 in
        (
          json,
          claims,
          from_option-eq-passed _ invalid_payload decoded,
          from_option-eq-passed _ invalid_claims read,
          not_true→false later,
          not_true→false subject,
          sym (passed_injective h4),
        )

  module _ (header : Text) (now : ℤ) where
    -- An accepted header is `Bearer`, in any case, and a token of three parts that is genuine; its
    -- principal is what the claims say, and the secret is not blank.
    pub verify_admin_token-IsGenuine :
        (principal : Principal)
        → verify_admin_token codec secret header now ≡ passed principal
        → (scheme : Text) × (token : Text) × (t : TokenParts) × (payload : TokenPayload) × (fields
              header
            ≡ scheme ∷ token ∷ [])
          × (to_lower scheme ≡ codes "bearer")
          × (split b'.' token ≡ t.header ∷ t.payload ∷ t.signature ∷ [])
          × IsGenuine t now payload
          × (principal ≡ principal_of payload)
          × (is_empty (trim_space secret) ≡ false)
    unfolding verify_admin_token signing_input
    verify_admin_token-IsGenuine principal h =
        let (named, h1) = demand-eq-passed _ secret_missing _ h in
        let (token, bearer, h2) = >>=-eq-passed (bearer_token (fields header)) _ h1 in
        let (t, three, h3) = >>=-eq-passed (token_parts (split b'.' token)) _ h2 in
        let (u, algorithm, h4) = >>=-eq-passed (check_header codec secret t) _ h3 in
        let (v, signature, h5) = >>=-eq-passed (check_signature codec secret t) _ h4 in
        let (payload, claims, h6) = >>=-eq-passed (read_claims codec secret t now) _ h5 in
        let (scheme, split_header, is_bearer) = bearer_token_passed (fields header) token bearer in
        let (header_json, header, hd, hr, hs) = check_header_passed t now u algorithm in
        let (claims_json, claims, cd, cr, later, subject, claimed) =
          read_claims_passed t now payload claims in
        (
          scheme,
          token,
          t,
          payload,
          split_header,
          is_bearer,
          token_parts_passed (split b'.' token) t three,
          record {
            header_json = header_json;
            header = header;
            claims_json = claims_json;
            claims = claims;
            header_decoded = hd;
            header_read = hr;
            is_hs256 = hs;
            signed = check_signature_passed t now v signature;
            claims_decoded = cd;
            claims_read = cr;
            expires_later = later;
            has_subject = subject;
            payload_claimed = claimed;
          },
          passed_injective h6,
          not_true→false named,
        )

  module _ (t : TokenParts) (now : ℤ) (payload : TokenPayload) (g : IsGenuine t now payload) where
    check_header-genuine : check_header codec secret t ≡ passed tt
    unfolding check_header
    check_header-genuine = rw (g.header_decoded, g.header_read, g.is_hs256) refl

    check_signature-genuine : check_signature codec secret t ≡ passed tt
    unfolding check_signature signing_input
    check_signature-genuine = rw (g.signed, eqb_text_refl) refl

    read_claims-genuine : read_claims codec secret t now ≡ passed payload
    unfolding read_claims
    read_claims-genuine =
        rw (g.claims_decoded, g.claims_read, g.expires_later, g.has_subject, g.payload_claimed) refl

    -- A genuine token is accepted, and gives the principal that its claims name, where the secret is
    -- not blank and the three parts hold no dot and no white space.
    pub verify_admin_token-signed :
        is_empty (trim_space secret) ≡ false
        → (lacks b'.' t.header ≡ true)
          × (lacks b'.' t.payload ≡ true)
          × (lacks b'.' t.signature ≡ true)
        → has_no_space (t.header ++ b'.' ∷ (t.payload ++ b'.' ∷ t.signature)) ≡ true
        → verify_admin_token codec secret
            (codes "Bearer " ++ (t.header ++ b'.' ∷ (t.payload ++ b'.' ∷ t.signature)))
            now
          ≡ passed (principal_of payload)
    unfolding verify_admin_token to_lower
    verify_admin_token-signed named (dh, dp, ds) spaces =
        let token = t.header ++ b'.' ∷ (t.payload ++ b'.' ∷ t.signature) in
        rw
          (
            named,
            fields-bearer token spaces (is_empty-middle t.header b'.' _),
            split-three b'.' t.header t.payload t.signature dh dp ds,
            check_header-genuine,
            check_signature-genuine,
            read_claims-genuine,
          )
          refl
