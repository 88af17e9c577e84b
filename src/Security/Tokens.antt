-- ===== src/Security/Tokens.antt =====
-- Tokens made by the program, when the program reads them.
use lms_backend.Base.{
  ℕ, ◌+◌, ◌≤◌, ◌<◌, ◌≡◌, refl, sym, ap, ◌∙◌, String, true, false, some, ◌==◌, string_eq, ltb,
  Bool-cases, inl, inr, arith, if◌then◌else◌,
}
use lms_backend.Shared.Errors.{Result, ok, err, token_error}
use lms_backend.Models.{Uuid, Time}
use lms_backend.Store.{World, ◌>>=◌}
use lms_backend.External.{External, TokenPayload, payload, expired, invalid}
use lms_backend.Security.{create_access_token, create_refresh_token, encode_token, decode_token}

-- what a token says that is made for the user in this state
abbrev pub claims_of : World → Uuid → Uuid → String → ℕ → TokenPayload
claims_of w user_id tenant_id type ttl = record {
  sub = user_id;
  tid = tenant_id;
  type = type;
  jti = w.next_id;
  exp = w.now + ttl;
  iat = w.now;
}

-- Independent of the program: what a reader at time `now` should get from a token with these claims.
abbrev pub reading : Time → TokenPayload → String → Result TokenPayload
reading now claims expected =
    if ltb now claims.iat
    then err (token_error "Invalid token")
    else if ltb now claims.exp
    then (if claims.type == expected then ok claims else err (token_error "Unexpected token type"))
    else err (token_error "Token expired")

abbrev pub access_claims : World → Uuid → Uuid → TokenPayload
access_claims w u t = claims_of w u t "access" w.settings.access_token_ttl_seconds

abbrev pub refresh_claims : World → Uuid → Uuid → TokenPayload
refresh_claims w u t = claims_of w u t "refresh" w.settings.refresh_token_ttl_seconds

module _ (x : External) where
  -- How a token that was made under the key is read at a time.
  pub data Read (key : String) (now : Time) (p : TokenPayload) : Type 0 where
    in_time :
        p.iat ≤ now → now < p.exp → x.decode key now (x.encode key p) ≡ payload p → Read key now p
    too_late :
        p.iat ≤ now → p.exp ≤ now → x.decode key now (x.encode key p) ≡ expired → Read key now p
    too_early : now < p.iat → x.decode key now (x.encode key p) ≡ invalid → Read key now p

  pub Read-encoded : (key : String) (now : Time) (p : TokenPayload) → Read key now p
  Read-encoded key now p = elim (Bool-cases (ltb now p.iat)) [
    | inl early ↦
        let h : now < p.iat = ground arith in too_early h (x.decode-encode_early key now p h)
    | inr made ↦
        let h : p.iat ≤ now = ground arith in
        elim (Bool-cases (ltb now p.exp)) [
          | inl e ↦
              let k : now < p.exp = ground arith in in_time h k (x.decode-encode key now p h k)
          | inr e ↦
              let k : p.exp ≤ now = ground arith in
              too_late h k (x.decode-encode_late key now p h k)
        ]
  ]

  decode_encoded :
      (claims : TokenPayload) (w : World) (expected : String)
      → (expected == "") ≡ false
      → decode_token x (x.encode w.settings.jwt_secret_key claims) (some expected) w
        ≡ (reading w.now claims expected, w)
  unfolding decode_token
  decode_encoded claims w expected asks =
      elim (Read-encoded w.settings.jwt_secret_key w.now claims) [
        | in_time made early read ↦
            let a : ltb w.now claims.iat ≡ false = ground arith in
            let b : ltb w.now claims.exp ≡ true = ground arith in rw (read, asks, a, b) refl
        | too_late made late read ↦
            let a : ltb w.now claims.iat ≡ false = ground arith in
            let b : ltb w.now claims.exp ≡ false = ground arith in rw (read, a, b) refl
        | too_early early read ↦
            let a : ltb w.now claims.iat ≡ true = ground arith in rw (read, a) refl
      ]

  -- A token pair made in one state and read in another under the same key: each token is read as what it
  -- was made for, with the user and the tenant, from the time at which it was made until it expires, is
  -- refused where the other type is expected, is refused as expired from its time to live on, and is
  -- refused as invalid by a reader whose clock is behind.
  pub decode-create :
      (u t : Uuid) (w w' : World) (expected : String)
      → w'.settings.jwt_secret_key ≡ w.settings.jwt_secret_key
      → (expected == "") ≡ false
      → ((create_access_token x u t >>= λ token. λ _. decode_token x token (some expected) w') w
          ≡ (reading w'.now (access_claims w u t) expected, w'))
        × ((create_refresh_token x u t >>= λ pair. λ _. decode_token x pair.0 (some expected) w') w
            ≡ (reading w'.now (refresh_claims w u t) expected, w'))
  unfolding create_access_token create_refresh_token encode_token ◌>>=◌
  decode-create u t w w' expected key asks = (
    ap (λ k. decode_token x (x.encode k (access_claims w u t)) (some expected) w') (sym key)
        ∙ decode_encoded (access_claims w u t) w' expected asks,
    ap (λ k. decode_token x (x.encode k (refresh_claims w u t)) (some expected) w') (sym key)
        ∙ decode_encoded (refresh_claims w u t) w' expected asks,
  )
