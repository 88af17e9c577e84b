-- ===== src/Auth/ResetRevokes.antt =====
-- A password reset ends the sessions of the user.
use lms_backend.Base.{
  ◌≡◌, refl, sym, ap, ◌∙◌, String, Bool, false, ◌&&◌, Option, some, List, [], ◌∷◌, map, All, nat_eq,
  Bool-cases, Option-cases, inl, inr, arith,
}
use lms_backend.Shared.Errors.{Error, ok}
use lms_backend.Models.{Uuid, Time, User, UserSession}
use lms_backend.Store.{World, Gucs, case_option, get_now, or_raise, ◌>>=◌}
use lms_backend.Store.Runs.{bind_after, or_raise-ok}
use lms_backend.Database.{get, policy, update_row, update_where}
use lms_backend.Database.Visible.{get-id, get_still}
use lms_backend.Database.Tables.{user_model, user_session_model}
use lms_backend.External.{External}
use lms_backend.Auth.Repositories.{is_open_session_of, revoke_at, revoke_all_for_user}
use lms_backend.Auth.Resets.{recall, forget, reset_password}

-- A session of the user that a transaction with these settings sees, and that is not revoked.
abbrev pub is_open_of : Gucs → Uuid → UserSession → Bool
is_open_of g user_id s = policy g s.tenant_id && is_open_session_of user_id s

-- No session of the user is open.
abbrev pub AllRevoked : Uuid → World → Type 0
AllRevoked user_id w = All (λ s. is_open_of w.gucs user_id s ≡ false) w.db.user_sessions

module _ (g : Gucs) (user_id : Uuid) (now : Time) where
  revoke_row :
      (s : UserSession)
      → is_open_of g user_id
          (update_row {Row = UserSession} g (is_open_session_of user_id) (revoke_at now) s)
        ≡ false
  unfolding policy
  revoke_row s = elim (Bool-cases (is_open_of g user_id s)) [
    | inl e ↦ rw e ground arith
    | inr e ↦ rw (e, e) refl
  ]

  revoke_rows :
      (rows : List UserSession)
      → All
          (λ s. is_open_of g user_id s ≡ false)
          (map (update_row {Row = UserSession} g (is_open_session_of user_id) (revoke_at now)) rows)
  revoke_rows [] = tt
  revoke_rows (s ∷ rows) = (revoke_row s, revoke_rows rows)

revoke_all-AllRevoked :
    (user_id : Uuid) (w : World) → AllRevoked user_id (revoke_all_for_user user_id w).1
unfolding revoke_all_for_user get_now update_where ◌>>=◌
revoke_all-AllRevoked user_id w = revoke_rows w.gucs user_id w.now w.db.user_sessions

module _ (x : External) where
  forget-AllRevoked :
      (token : String) (user_id : Uuid) (w : World)
      → AllRevoked user_id w
      → AllRevoked user_id (forget x token w).1
  unfolding forget case_option
  forget-AllRevoked token user_id w h = elim (Option-cases w.redis) [
    | inl gone ↦ rw gone h
    | inr (log, there) ↦ rw there h
  ]

  ok_some : {A : Type 0} (a b : A) → ok (some a) ≡ ok (some b) → a ≡ b
  ok_some a b h = ground arith

  -- The user whose row was loaded has the id that was recalled.
  right_user :
      (raw : Option (Uuid × Uuid)) (pair : Uuid × Uuid) (found : Option User) (user : User)
      (tenant_part user_part : Uuid) (e f : Error) (v w : World)
      → ok raw ≡ ok (some (tenant_part, user_part))
      → (or_raise raw e v).0 ≡ ok pair
      → (get {Row = User} pair.1 w).0 ≡ ok found
      → (or_raise found f w).0 ≡ ok user
      → user.id ≡ user_part
  right_user raw pair found user tenant_part user_part e f v w recalled given loaded there =
      let raw_lem = (or_raise-ok raw e v pair given).0 in
      let same = ok_some _ _ (ap ok (sym raw_lem) ∙ recalled) in
      let found_lem = (or_raise-ok found f w user there).0 in
      get-id pair.1 w user (loaded ∙ ap ok found_lem) ∙ ap (λ (p : Uuid × Uuid). p.1) same

  -- After a password reset that succeeds, no session of the user whom the token names is open among those
  -- that the transaction sees.
  pub reset_password_revokes :
      (token new_password : String) (w : World) (u : Unit {0}) (tenant_part user_part : Uuid)
      → (reset_password x token new_password w).0 ≡ ok u
      → (recall x token w).0 ≡ ok (some (tenant_part, user_part))
      → AllRevoked user_part (reset_password x token new_password w).1
  unfolding reset_password
  reset_password_revokes token new_password w u tenant_part user_part h recalled =
      bind_after (AllRevoked user_part) _ _ w u h (λ raw value h1.
        bind_after (AllRevoked user_part) _ _ _ u h1 (λ pair value2 h2.
          bind_after (AllRevoked user_part) _ _ _ u h2 (λ t _ h3.
            bind_after (AllRevoked user_part) _ _ _ u h3 (λ _ _ h4.
              bind_after (AllRevoked user_part) _ _ _ u h4 (λ found value5 h5.
                bind_after (AllRevoked user_part) _ _ _ u h5 (λ user value6 h6.
                  bind_after (AllRevoked user_part) _ _ _ u h6 (λ hashed _ h7.
                    bind_after (AllRevoked user_part) _ _ _ u h7 (λ _ _ h8.
                      bind_after (AllRevoked user_part) _ _ _ u h8 (λ _ _ h9.
                        forget-AllRevoked token user_part _ (
                          rw
                            (← right_user raw pair found user tenant_part user_part _ _ _ _
                              (sym value ∙ recalled) value2 value5
                              (rw (get_still User pair.1 _) at value6))
                            (revoke_all-AllRevoked user.id _)))))))))))
