-- ===== src/Security.antt =====
-- app/core/security: password hashes and tokens.
pub mod Tokens
use lms_backend.Base.{
  ℕ, ◌+◌, String, Bool, false, not, Option, none, some, ◌==◌, string_eq, if◌then◌else◌,
}
use lms_backend.Shared.Errors.{Result, ok, err, token_error, schema_error}
use lms_backend.Models.{Uuid}
use lms_backend.Store.{World, Action, pure, gets, get_now, uuid4, ◌>>=◌}
use lms_backend.Store.Relations.{Obeys}
use lms_backend.Database.Rules.{IsStoreRelation, store_rules}
use lms_backend.External.{External, TokenPayload, Decoded, payload, malformed, expired, invalid}

-- `try: ... except TokenError`; any other error goes through
abbrev pub handle_token :
    {A B : Type 0} → Result A → (String → Action B) → (A → Action B) → Action B
handle_token (ok a) handler f w = f a w
handle_token (err (token_error s)) handler f w = handler s w
handle_token (err e) handler f w = (err e, w)

unfoldable pub try_token :
    {A B : Type 0} → Action A → (String → Action B) → (A → Action B) → Action B
try_token m handler f w = let (r, w') = m w in handle_token r handler f w'

module _ {R : World → World → Type 0} (s : IsStoreRelation R) {A B : Type 0} where
  Obeys-handle_token :
      (r : Result A) (handler : String → Action B) (f : A → Action B)
      → ((t : String) → Obeys R (handler t))
      → ((a : A) → Obeys R (f a))
      → Obeys R (handle_token r handler f)
  Obeys-handle_token (ok a) handler f h k = k a
  Obeys-handle_token (err (token_error t)) handler f h k = h t
  Obeys-handle_token (err e) handler f h k = record { at = s.preorder.refl_lem }

  pub Obeys-try_token :
      (m : Action A) (handler : String → Action B) (f : A → Action B)
      → Obeys R m
      → ((t : String) → Obeys R (handler t))
      → ((a : A) → Obeys R (f a))
      → Obeys R (try_token m handler f)
  unfolding try_token
  Obeys-try_token m handler f hm h k = record {
    at = λ w.
        let (r, w') = m w in
        s.preorder.trans w w' _ (hm.at w) ((Obeys-handle_token r handler f h k).at w');
  }

module _ (x : External) where
  open x use {hash, verify, encode, decode}

  -- the hasher draws a salt
  unfoldable pub hash_password : String → Action String
  hash_password plain = do salt ← uuid4; pure (hash salt plain)

  unfoldable pub verify_password : String → String → Bool
  verify_password plain hashed = elim (verify plain hashed) [ none ↦ false | some b ↦ b ]

  -- `_encode`
  unfoldable pub encode_token : Uuid → Uuid → String → ℕ → Uuid → Action String
  encode_token user_id tenant_id token_type ttl jti = do
    now ← get_now
    key ← gets (λ w. w.settings.jwt_secret_key)
    pure (
        encode key (record {
          sub = user_id;
          tid = tenant_id;
          type = token_type;
          jti = jti;
          exp = now + ttl;
          iat = now;
        }))

  unfoldable pub create_access_token : Uuid → Uuid → Action String
  create_access_token user_id tenant_id = do
    ttl ← gets (λ w. w.settings.access_token_ttl_seconds)
    jti ← uuid4
    encode_token user_id tenant_id "access" ttl jti

  -- the one caller gives no `jti`
  unfoldable pub create_refresh_token : Uuid → Uuid → Action (String × Uuid)
  create_refresh_token user_id tenant_id = do
    jti ← uuid4
    ttl ← gets (λ w. w.settings.refresh_token_ttl_seconds)
    token ← encode_token user_id tenant_id "refresh" ttl jti
    pure (token, jti)

  abbrev pub expect : Option String → TokenPayload → Result TokenPayload
  expect none p = ok p
  expect (some expected) p =
      if not (expected == "")
      then (if p.type == expected then ok p else err (token_error "Unexpected token type"))
      else ok p

  abbrev pub check_decoded : Decoded → Option String → Result TokenPayload
  check_decoded (payload p) expected = expect expected p
  check_decoded malformed expected = err schema_error
  check_decoded expired expected = err (token_error "Token expired")
  check_decoded invalid expected = err (token_error "Invalid token")

  unfoldable pub decode_token : String → Option String → Action TokenPayload
  decode_token token expected_type w =
      (check_decoded (decode w.settings.jwt_secret_key w.now token) expected_type, w)

module _ {R : World → World → Type 0} (s : IsStoreRelation R) (x : External) where
  pub Obeys-hash_password : (plain : String) → Obeys R (hash_password x plain)
  unfolding hash_password
  Obeys-hash_password plain = search store_rules

  pub Obeys-create_access_token : (u t : Uuid) → Obeys R (create_access_token x u t)
  unfolding create_access_token encode_token
  Obeys-create_access_token u t = search store_rules depth 12

  pub Obeys-create_refresh_token : (u t : Uuid) → Obeys R (create_refresh_token x u t)
  unfolding create_refresh_token encode_token
  Obeys-create_refresh_token u t = search store_rules depth 12

  pub Obeys-decode_token : (token : String) (e : Option String) → Obeys R (decode_token x token e)
  unfolding decode_token
  Obeys-decode_token token e = record { at = λ w. s.preorder.refl_lem w }

pub ruleset security_rules = (
  store_rules, Obeys-try_token, Obeys-hash_password, Obeys-create_access_token,
  Obeys-create_refresh_token, Obeys-decode_token,
)
