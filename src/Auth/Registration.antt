-- ===== src/Auth/Registration.antt =====
-- What a registration has checked and written.
use lms_backend.Base.{
  ◌≡◌, refl, sym, ap, ◌∙◌, suc, String, Bool, true, false, not, ◌&&◌, Option, none, some, [], ◌∷◌,
  ◌++◌, filter, ◌==◌, nat_eq, string_eq, lower, is_none, arith,
}
use lms_backend.Shared.Errors.{Result, ok, app, conflict}
use lms_backend.Models.{Uuid, Time, User, Role, RoleCode, role_value}
use lms_backend.Store.{
  World, Action, lift, pure, raise_if, get_now, uuid4, require_tenant_id, tenant_of,
  scalar_one_or_none, ◌>>=◌, ◌>>◌,
}
use lms_backend.Store.Runs.{
  bind-ok, Passes-ok, bind-Reads, Reads-ok, require_tenant_id-ok, raise_if-ok, raise_if_still,
  bind-read, bind-value, pure_same,
}
use lms_backend.Database.{add, select_one, select_where, execute, select, policy}
use lms_backend.Database.Visible.{select_one_still}
use lms_backend.Database.Written.{add-ok, add_allowed}
use lms_backend.Database.Tables.{user_model, role_model}
use lms_backend.External.{External}
use lms_backend.Security.{hash_password}
use lms_backend.Events.{publish, publish-Published, auth, user_registered}
use lms_backend.Auth.Schemas.{RegisterRequest}
use lms_backend.Auth.Repositories.{get_by_email, get_by_code}
use lms_backend.Auth.Service.{register, default_roles}

-- what a query by address tests in a state
abbrev pub matches : World → String → User → Bool
matches w email u =
    policy w.gucs u.tenant_id && (select {Row = User} w.ctx u && (u.email == lower email))

pub get_by_email-rows :
    (w : World) (email : String)
    → get_by_email email w ≡ (scalar_one_or_none (filter (matches w email) w.db.users), w)
unfolding get_by_email select_one select_where execute lift ◌>>=◌
get_by_email-rows w email = refl

unfoldable pub new_user : RegisterRequest → Uuid → Option Role → String → Uuid → Time → User
new_user request tenant_id student hashed id now = record {
  id = id;
  tenant_id = tenant_id;
  email = lower request.email;
  hashed_password = hashed;
  full_name = request.full_name;
  is_active = true;
  is_verified = false;
  is_superuser = false;
  last_login_at = none;
  roles = default_roles student;
  created_at = now;
  deleted_at = none;
}

module _ (x : External) where
  announce : Uuid → User → Action User
  announce tenant_id user = do
    publish (some tenant_id) (some user.id) (auth (user_registered user.email))
    pure user

  save_user : RegisterRequest → Uuid → Option Role → Action User
  unfolding new_user announce
  save_user request tenant_id student = do
    hashed ← hash_password x request.password
    id ← uuid4
    now ← get_now
    user ← add {Row = User} (new_user request tenant_id student hashed id now)
    announce tenant_id user

  -- The user that a registration has made, and the state it leaves.
  pub record Registered (request : RegisterRequest) (w : World) (o : Result User × World)
      (user : User) : Type 0 where
    pub fresh : (get_by_email (lower request.email) w).0 ≡ ok none
    pub users : o.1.db.users ≡ w.db.users ++ user ∷ []
    pub gucs : o.1.gucs ≡ w.gucs
    pub ctx : o.1.ctx ≡ w.ctx
    pub salt : Uuid
    pub student : Option Role
    pub tenant_id : Uuid
    pub tenant_lem : tenant_of w.ctx ≡ some tenant_id
    pub allowed : policy w.gucs tenant_id ≡ true
    pub user_lem :
        user ≡ new_user request tenant_id student (x.hash salt request.password) (suc salt) w.now

  -- What announcing leaves.
  record Announced (user : User) (w : World) (o : Result User × World) : Type 0 where
    value : o.0 ≡ ok user
    db : o.1.db ≡ w.db
    gucs : o.1.gucs ≡ w.gucs
    ctx : o.1.ctx ≡ w.ctx

  announce-Announced : (t : Uuid) (user : User) (w : World) → Announced user w (announce t user w)
  unfolding announce pure
  announce-Announced t user w =
      let m = publish (some t) (some user.id) (auth (user_registered user.email)) in
      let p = publish-Published (some t) (some user.id) (auth (user_registered user.email)) w in
      let e = bind-value m (λ _. pure user) w tt p.value in
      record {
        value = ap (λ o. o.0) e;
        db = ap (λ o. o.1.db) e ∙ p.db;
        gucs = ap (λ o. o.1.gucs) e ∙ p.gucs;
        ctx = ap (λ o. o.1.ctx) e ∙ p.ctx;
      }

  save_user_runs :
      (request : RegisterRequest) (t : Uuid) (student : Option Role) (w : World)
      → save_user request t student w
        ≡ (add {Row = User} (
                new_user request t student
                  (x.hash w.next_id request.password)
                  (suc w.next_id)
                  w.now)
              >>= announce t)
            (record w { next_id = suc (suc w.next_id) })
  unfolding save_user hash_password uuid4 get_now pure ◌>>=◌
  save_user_runs request t student w = refl

  save_user-Registered :
      (request : RegisterRequest) (t : Uuid) (student : Option Role) (w : World) (user : User)
      → tenant_of w.ctx ≡ some t
      → (get_by_email (lower request.email) w).0 ≡ ok none
      → (save_user request t student w).0 ≡ ok user
      → Registered request w (save_user request t student w) user
  unfolding new_user
  save_user-Registered request t student w user tenant fresh h =
      let obj =
        new_user request t student (x.hash w.next_id request.password) (suc w.next_id) w.now in
      let v = record w { next_id = suc (suc w.next_id) } in
      let m = add {Row = User} obj in
      let e = save_user_runs request t student w in
      let h1 : ((m >>= announce t) v).0 ≡ ok user = ap (λ o. o.0) (sym e) ∙ h in
      let a = bind-ok m (announce t) v user h1 in
      let (same, after) = add-ok obj a.value v a.first in
      let told = announce-Announced t a.value (m v).1 in
      let is_user : a.value ≡ user =
        pure_same _ _ (sym told.value ∙ Passes-ok m (announce t) v a user h1) in
      let all = e ∙ a.rest in
      record {
        fresh = fresh;
        users =
            ap (λ o. o.1.db.users) all
            ∙ (ap (λ d. d.users) told.db
                ∙ (ap (λ u. u.db.users) after
                    ∙ ap (λ u. w.db.users ++ u ∷ []) (sym same ∙ is_user)));
        gucs = ap (λ o. o.1.gucs) all ∙ (told.gucs ∙ ap (λ u. u.gucs) after);
        ctx = ap (λ o. o.1.ctx) all ∙ (told.ctx ∙ ap (λ u. u.ctx) after);
        salt = w.next_id;
        student = student;
        tenant_id = t;
        tenant_lem = tenant;
        allowed = add_allowed obj a.value v a.first;
        user_lem = sym is_user ∙ same;
      }

  tail : RegisterRequest → Uuid → Option User → Action User
  tail request t existing = do
    raise_if (not (is_none existing)) (app conflict "Email already registered")
    student ← get_by_code (role_value RoleCode.student)
    save_user request t student

  is_fresh : (o : Option User) → not (is_none o) ≡ false → o ≡ none
  is_fresh none h = refl
  is_fresh (some u) h = ground arith

  -- A registration that succeeds.
  pub register-Registered :
      (request : RegisterRequest) (w : World) (t : Uuid) (user : User)
      → tenant_of w.ctx ≡ some t
      → (register x request w).0 ≡ ok user
      → Registered request w (register x request w) user
  unfolding register save_user announce new_user tail get_by_code
  register-Registered request w t user tenant h =
      let found = get_by_email (lower request.email) in
      let e0 =
        bind-read require_tenant_id (λ t. found >>= tail request t) w t
          (ap (λ o. o.0) (require_tenant_id-ok w t tenant))
          (ap (λ o. o.1) (require_tenant_id-ok w t tenant)) in
      let h0 = ap (λ o. o.0) (sym e0) ∙ h in
      let a = bind-Reads found (tail request t) w user h0 (ap (λ o. o.1) (get_by_email-rows w _)) in
      let h1 = Reads-ok found (tail request t) w a user h0 in
      let guard = raise_if (not (is_none a.value)) (app conflict "Email already registered") in
      let role = get_by_code (role_value RoleCode.student) in
      let b =
        bind-Reads guard (λ _. role >>= save_user request t) w user h1 (raise_if_still _ _ w) in
      let h2 = Reads-ok guard (λ _. role >>= save_user request t) w b user h1 in
      let c = bind-Reads role (save_user request t) w user h2 (select_one_still _ w) in
      let h3 = Reads-ok role (save_user request t) w c user h2 in
      let all = e0 ∙ (a.rest ∙ (b.rest ∙ c.rest)) in
      let fresh = a.first ∙ ap ok (is_fresh a.value (raise_if-ok _ _ w b.value b.first).0) in
      rw all (save_user-Registered request t c.value w user tenant fresh h3)
