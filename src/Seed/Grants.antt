-- ===== src/Seed/Grants.antt =====
-- Which endpoints the users of scripts/seed.py may use, by their role.
use lms_backend.Base.{
  ◌≡◌, refl, sym, ap, ◌∙◌, ◌↔◌, inl, inr, String, true, false, ◌&&◌, Option, none, some, List, [],
  ◌∷◌, all, contains, contains-append, contains-all, all_iff, all-same, and_elim, ◌==◌, string_eq,
  nat_eq, eq_iff, Bool-cases, arith, Option-cases,
}
use mathlib.Core.List.{flat_map}
use lms_backend.Shared.Errors.{ok}
use lms_backend.Models.{Permission, Role, RoleCode, User, permission_codes}
use lms_backend.Store.{World, case_option}
use lms_backend.Auth.Dependencies.{require_permission}
use lms_backend.Api.{UserEndpoint, permissions_of}
use lms_backend.Api.Permissions.{MayUse, require_permission_iff}
use lms_backend.Seed.Catalog.{role_matrix, all_codes}
use lms_backend.Seed.Audience.{includes, audience_of, has_all, has_all-includes}
use lms_backend.Seed.Script.{find_permission, granted, seed_permissions}
use lms_backend.Seed.Permissions.{permission_keys, seed_permissions_twice}

abbrev key_of : Option Permission → String
key_of none = ""
key_of (some p) = p.code

contains-codes :
    (perms : List Permission) (c : String) (p : Permission)
    → find_permission c perms ≡ some p
    → (p.code ≡ c) × (contains (permission_keys perms) c ≡ true)
unfolding find_permission
contains-codes [] c p h = ground arith
contains-codes (q ∷ perms) c p h = elim (Bool-cases (c == q.code)) [
  | inl e ↦
      (let found : some q ≡ some p = rw e at h in
        (sym (ap key_of found) ∙ sym ((eq_iff c q.code).0 e), rw e refl))
  | inr e ↦ (let rest = contains-codes perms c p (rw e at h) in (rest.0, rw rest.1 (ground arith)))
]

not_found :
    (perms : List Permission) (c : String)
    → find_permission c perms ≡ none
    → contains (permission_keys perms) c ≡ false
unfolding find_permission
not_found [] c h = refl
not_found (q ∷ perms) c h = elim (Bool-cases (c == q.code)) [
  | inl e ↦ (let found : some q ≡ none = rw e at h in ground (arith, found))
  | inr e ↦ rw (e, not_found perms c (rw e at h)) refl
]

-- The permissions that are granted have the codes that are asked for and that the catalogue has.
contains-granted :
    (perms : List Permission) (cs : List String) (c : String)
    → contains (permission_keys (granted perms cs)) c
      ≡ (contains cs c && contains (permission_keys perms) c)
unfolding granted case_option
contains-granted perms [] c = refl
contains-granted perms (d ∷ cs) c = elim (Option-cases (find_permission d perms)) [
  | inl missing ↦ elim (Bool-cases (c == d)) [
    | inl e ↦
        (let gone =
            ap (contains (permission_keys perms)) ((eq_iff c d).0 e) ∙ not_found perms d missing in
          rw (missing, contains-granted perms cs c, gone) (ground arith))
    | inr e ↦ rw (missing, contains-granted perms cs c, e) refl
  ]
  | inr (p, found) ↦ elim (Bool-cases (c == d)) [
    | inl e ↦
        (let (code, there) = contains-codes perms d p found in
          let has = ap (contains (permission_keys perms)) ((eq_iff c d).0 e) ∙ there in
          rw (found, code, has, e) refl)
    | inr e ↦
        (let (code, there) = contains-codes perms d p found in
          rw (found, code, contains-granted perms cs c, e) refl)
  ]
]

-- A user with one role, whose permissions `perms` grants by the role matrix.
pub record HasRole (perms : List Permission) (rc : RoleCode) (user : User) : Type 0 where
  pub role : Role
  pub superuser : user.is_superuser ≡ false
  pub roles : user.roles ≡ role ∷ []
  pub permissions : role.permissions ≡ granted perms (role_matrix rc)

has_catalog : (rc : RoleCode) → all (contains all_codes) (role_matrix rc) ≡ true
unfolding role_matrix
has_catalog RoleCode.super_admin = refl
has_catalog RoleCode.tenant_admin = refl
has_catalog RoleCode.instructor = refl
has_catalog RoleCode.student = refl

-- What a role is granted by a dictionary that has the catalogue is what the role matrix gives it.
contains-granted_all :
    (perms : List Permission) (rc : RoleCode) (c : String)
    → ((d : String) → contains all_codes d ≡ true → contains (permission_keys perms) d ≡ true)
    → contains (permission_keys (granted perms (role_matrix rc))) c ≡ contains (role_matrix rc) c
contains-granted_all perms rc c filled = elim (Bool-cases (contains (role_matrix rc) c)) [
  | inl e ↦
      (let both = contains-all (role_matrix rc) all_codes c (has_catalog rc) ∙ e in
        let there =
          filled c (and_elim (contains (role_matrix rc) c) (contains all_codes c) both).1 in
        contains-granted perms (role_matrix rc) c ∙ rw (e, there) refl)
  | inr e ↦ contains-granted perms (role_matrix rc) c ∙ rw e refl
]

contains-permission_codes :
    (perms : List Permission) (rc : RoleCode) (user : User) (c : String) (h : HasRole perms rc user)
    → contains (permission_codes user) c ≡ contains (permission_keys h.role.permissions) c
unfolding permission_codes flat_map
contains-permission_codes perms rc user c h =
    rw h.roles (contains-append (permission_keys h.role.permissions) [] c ∙ ground arith)

MayUse-iff :
    (codes : List String) (user : User)
    → user.is_superuser ≡ false
    → MayUse codes user ↔ (all (contains (permission_codes user)) codes ≡ true)
MayUse-iff codes user ordinary = (
  λ h. elim h [
    | inl super ↦ ground (arith, super, ordinary)
    | inr has ↦ (all_iff (contains (permission_codes user)) codes).1 has
  ],
  λ h. inr ((all_iff (contains (permission_codes user)) codes).0 h),
)

-- After seed_permissions, the guard of an endpoint lets a user who is no superuser, and whose one role has the
-- permissions that the role matrix gives it, through exactly if the endpoint is for that role: the
-- lists of users and the reports are not for students, deleting courses and changing users is for the
-- administrators, the tenants are for the super administrator, an instructor neither enrolls nor submits,
-- and the lists of the courses, lessons and assignments under /admin are for everyone.
pub require_permission-seeded :
    (rc : RoleCode) (e : UserEndpoint) (user : User) (w : World)
    → HasRole (seed_permissions w).1.db.permissions rc user
    → (require_permission (permissions_of e) user ≡ ok user) ↔ (includes (audience_of e) rc ≡ true)
unfolding has_all
require_permission-seeded rc e user w h =
    let perms = (seed_permissions w).1.db.permissions in
    let filled = λ (d : String) (k : contains all_codes d ≡ true).
      (seed_permissions_twice d w).1.0 ∙ rw k (ground arith) in
    let codes = λ (c : String).
      contains-permission_codes perms rc user c h
      ∙ (ap (λ ps. contains (permission_keys ps) c) h.permissions
          ∙ contains-granted_all perms rc c filled) in
    let same =
      all-same (contains (permission_codes user)) (contains (role_matrix rc)) (permissions_of e)
        codes
      ∙ has_all-includes e rc in
    let guard = require_permission_iff (permissions_of e) user in
    let may = MayUse-iff (permissions_of e) user h.superuser in
    (λ k. sym same ∙ may.0 (guard.0 k), λ k. guard.1 (may.1 (same ∙ k)))
