-- ===== src/Auth/ResetOnce.antt =====
-- A password reset token can be used once.
use lms_backend.Base.{
  ◌≡◌, refl, ap, ◌∙◌, String, none, List, [], ◌∷◌, ◌==◌, nat_eq, string_eq, Option-cases,
  Bool-cases, inl, inr,
}
use lms_backend.Shared.Errors.{ok, err, app, validation}
use lms_backend.Store.{World, ResetEntry, Action, password_reset, case_option, or_raise, ◌>>=◌}
use lms_backend.Store.Runs.{bind-ok, Passes-ok, bind-value, bind-error}
use lms_backend.Database.Tables.{user_model}
use lms_backend.External.{External}
use lms_backend.Auth.Resets.{delete_reset, find_reset, get_reset, recall, forget, reset_password}

find_reset-delete_reset :
    (token : String) (store : List ResetEntry) → find_reset token (delete_reset token store) ≡ none
unfolding find_reset delete_reset
find_reset-delete_reset token [] = refl
find_reset-delete_reset token (e ∷ store) = elim (Bool-cases (e.token == token)) [
  | inl same ↦ rw same (find_reset-delete_reset token store)
  | inr other ↦ rw (other, other) (find_reset-delete_reset token store)
]

module _ (x : External) where
  -- Whether the tokens are in Redis or in the process, one that was forgotten is not recalled.
  recall-forget : (token : String) (v : World) → (recall x token (forget x token v).1).0 ≡ ok none
  unfolding recall forget get_reset case_option
  recall-forget token v = elim (Option-cases v.redis) [
    | inl gone ↦ rw (gone, find_reset-delete_reset token v.reset_store) refl
    | inr (log, there) ↦ rw (there, x.redis_get-delete log v.now v.now (password_reset token)) refl
  ]

  -- the state that a reset leaves is the one that its last step leaves
  last_step :
      {A : Type 0} (m : Action A) (f : A → Action (Unit {0})) (token : String) (w : World)
      (u : Unit {0})
      → ((m >>= f) w).0 ≡ ok u
      → ((a : A) (w' : World)
          → (f a w').0 ≡ ok u
          → (v : World) × ((f a w').1 ≡ (forget x token v).1))
      → (v : World) × (((m >>= f) w).1 ≡ (forget x token v).1)
  last_step m f token w u h k =
      let p = bind-ok m f w u h in
      let (v, e) = k p.value (m w).1 (Passes-ok m f w p u h) in (v, ap (λ o. o.1) p.rest ∙ e)

  reset_password-last :
      (token new_password : String) (w : World) (u : Unit {0})
      → (reset_password x token new_password w).0 ≡ ok u
      → (v : World) × ((reset_password x token new_password w).1 ≡ (forget x token v).1)
  unfolding reset_password
  reset_password-last token new_password w u h = last_step _ _ token w u h (λ raw w1 h1.
      last_step _ _ token w1 u h1 (λ pair w2 h2. last_step _ _ token w2 u h2 (λ t w3 h3.
        last_step _ _ token w3 u h3 (λ _ w4 h4. last_step _ _ token w4 u h4 (λ found w5 h5.
          last_step _ _ token w5 u h5 (λ user w6 h6. last_step _ _ token w6 u h6 (λ hashed w7 h7.
            last_step _ _ token w7 u h7
              (λ _ w8 h8. last_step _ _ token w8 u h8 (λ _ w9 h9. (w9, refl))))))))))

  -- A reset token that has set a password is refused right after, whatever password it would set now,
  -- whether the tokens are kept in Redis or in the process.
  pub reset_password-once :
      (token new_password other_password : String) (w : World) (u : Unit {0})
      → (reset_password x token new_password w).0 ≡ ok u
      → (reset_password x token other_password (reset_password x token new_password w).1).0
        ≡ err (app validation "Invalid or expired reset token")
  unfolding reset_password or_raise
  reset_password-once token new_password other_password w u h =
      let (v, last) = reset_password-last token new_password w u h in
      let w' = (reset_password x token new_password w).1 in
      let gone : (recall x token w').0 ≡ ok none = rw last (recall-forget token v) in
      let first = bind-value (recall x token) _ w' none gone in
      let refused =
        bind-error _ _ (recall x token w').1 (app validation "Invalid or expired reset token")
          refl in
      ap (λ o. o.0) (first ∙ refused)
