-- ===== src/Auth/Repositories.antt =====
-- app/modules/auth/repository.py
use lms_backend.Base.{
  String, refl, Bool, ◌&&◌, Option, some, List, ◌==◌, nat_eq, string_eq, contains, lower, is_none,
}
use lms_backend.Models.{Uuid, Time, User, Role, UserSession}
use lms_backend.Store.{World, Action, lift, get_now, scalar_one_or_none, ◌>>=◌}
use lms_backend.Store.Relations.{Obeys}
use lms_backend.Database.{select_where, select_one, execute, update_where}
use lms_backend.Database.Rules.{IsStoreRelation, store_rules}
use lms_backend.Database.Tables.{user_model, role_model, user_session_model}

unfoldable pub get_by_email : String → Action (Option User)
get_by_email email = select_one {Row = User} (λ u. u.email == lower email)

unfoldable pub get_by_code : String → Action (Option Role)
get_by_code code = select_one {Row = Role} (λ r. r.code == code)

unfoldable pub get_by_codes : List String → Action (List Role)
get_by_codes codes = select_where {Row = Role} (λ r. contains codes r.code)

-- a plain `select(UserSession)`: no filter by tenant, only the policy
unfoldable pub get_by_jti : Uuid → Action (Option UserSession)
get_by_jti jti = do
  rows ← execute {Row = UserSession} (λ s. s.jti == jti)
  lift (scalar_one_or_none rows)

abbrev pub is_open_session_of : Uuid → UserSession → Bool
is_open_session_of user_id s = s.user_id == user_id && is_none s.revoked_at

abbrev pub revoke_at : Time → UserSession → UserSession
revoke_at now s = record s { revoked_at = some now }

unfoldable pub revoke_all_for_user : Uuid → Action (Unit {0})
revoke_all_for_user user_id = do
  now ← get_now
  update_where {Row = UserSession} (is_open_session_of user_id) (revoke_at now)

module _ {R : World → World → Type 0} (s : IsStoreRelation R) where
  pub Obeys-get_by_email : (email : String) → Obeys R (get_by_email email)
  unfolding get_by_email
  Obeys-get_by_email email = search store_rules

  pub Obeys-get_by_code : (code : String) → Obeys R (get_by_code code)
  unfolding get_by_code
  Obeys-get_by_code code = search store_rules

  pub Obeys-get_by_codes : (codes : List String) → Obeys R (get_by_codes codes)
  unfolding get_by_codes
  Obeys-get_by_codes codes = search store_rules

  pub Obeys-get_by_jti : (jti : Uuid) → Obeys R (get_by_jti jti)
  unfolding get_by_jti
  Obeys-get_by_jti jti = search store_rules

  revoke-Obeys :
      (user_id : Uuid) (now : Time)
      → Obeys R (update_where {Row = UserSession} (is_open_session_of user_id) (revoke_at now))
  revoke-Obeys user_id now =
      s.updates UserSession user_session_model _ _ (λ r. refl) (λ a b. (refl, refl))

  pub Obeys-revoke_all_for_user : (user_id : Uuid) → Obeys R (revoke_all_for_user user_id)
  unfolding revoke_all_for_user
  Obeys-revoke_all_for_user user_id = search (store_rules, revoke-Obeys)

pub ruleset auth_repository_rules = (
  Obeys-get_by_email, Obeys-get_by_code, Obeys-get_by_codes, Obeys-get_by_jti,
  Obeys-revoke_all_for_user,
)
