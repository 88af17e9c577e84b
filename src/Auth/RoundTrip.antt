-- ===== src/Auth/RoundTrip.antt =====
-- What a registration leaves, a login finds.
use lms_backend.Base.{
  ◌≡◌, refl, sym, ap, ◌∙◌, suc, String, true, false, Option, none, some, [], ◌∷◌, filter,
  filter-append, nat_eq, string_eq, lower, lower_idem, beq_refl,
}
use lms_backend.Shared.Errors.{Result, ok}
use lms_backend.Models.{Uuid, Time, User, Role}
use lms_backend.Store.{World, lift, tenant_of, ◌>>=◌}
use lms_backend.Store.Runs.{scalar_one_or_none-none}
use lms_backend.Database.{select, base_select, policy}
use lms_backend.Database.Tables.{user_model, role_model}
use lms_backend.External.{External}
use lms_backend.Security.{verify_password}
use lms_backend.Auth.Schemas.{RegisterRequest}
use lms_backend.Auth.Service.{register, authenticate, check_credentials}
use lms_backend.Auth.Registration.{
  matches, get_by_email-rows, new_user, Registered, register-Registered,
}

module _ (x : External) where
  hit :
      (w : World) (request : RegisterRequest) (t : Uuid) (student : Option Role) (hashed : String)
      (id : Uuid) (now : Time)
      → policy w.gucs t ≡ true
      → tenant_of w.ctx ≡ some t
      → matches w (lower request.email) (new_user request t student hashed id now) ≡ true
  unfolding new_user select base_select
  hit w request t student hashed id now allowed tenant =
      rw (allowed, tenant, lower_idem request.email, beq_refl t, beq_refl (lower request.email))
        refl

  verified : (plain : String) (salt : Uuid) → verify_password x plain (x.hash salt plain) ≡ true
  unfolding verify_password
  verified plain salt = ap (λ o. elim o [ none ↦ false | some b ↦ b ]) (x.verify-hash salt plain)

  -- A new user answers the query by the address that found nobody before.
  found_now :
      (request : RegisterRequest) (w : World) (o : Result User × World) (user : User)
      → Registered x request w o user
      → filter (matches o.1 (lower request.email)) o.1.db.users ≡ user ∷ []
  unfolding new_user select base_select
  found_now request w o user r =
      let nobody : filter (matches w (lower request.email)) w.db.users ≡ [] =
        scalar_one_or_none-none _
          (ap (λ v. v.0) (sym (get_by_email-rows w (lower request.email))) ∙ r.fresh) in
      let hit : matches w (lower request.email) user ≡ true =
        ap (matches w (lower request.email)) r.user_lem
        ∙ hit w request r.tenant_id r.student (x.hash r.salt request.password) (suc r.salt) w.now
            r.allowed r.tenant_lem in
      rw
        (
          r.users,
          r.gucs,
          r.ctx,
          filter-append (matches w (lower request.email)) w.db.users (user ∷ []),
          nobody,
          hit,
        )
        refl

  accepted :
      (request : RegisterRequest) (w : World) (o : Result User × World) (user : User)
      → Registered x request w o user
      → check_credentials x request.password (some user) ≡ ok user
  unfolding new_user check_credentials
  accepted request w o user r = rw (r.user_lem, verified request.password r.salt) refl

  -- Right after a registration that succeeds in the context of a tenant, the address, as it
  -- was sent, and the password are accepted for the new user, and reading them changes nothing.
  pub authenticate-register :
      (request : RegisterRequest) (w : World) (t : Uuid) (user : User)
      → tenant_of w.ctx ≡ some t
      → (register x request w).0 ≡ ok user
      → authenticate x request.email request.password (register x request w).1
        ≡ (ok user, (register x request w).1)
  unfolding authenticate lift ◌>>=◌
  authenticate-register request w t user tenant h =
      let r = register-Registered x request w t user tenant h in
      let v = (register x request w).1 in
      let rows = found_now request w (register x request w) user r in
      rw (get_by_email-rows v (lower request.email), rows)
        (ap (λ a. (a, v)) (accepted request w (register x request w) user r))
