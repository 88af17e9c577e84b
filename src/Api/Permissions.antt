-- ===== src/Api/Permissions.antt =====
-- What the guard of `require_permission` decides.
use lms_backend.Base.{
  ◌≡◌, refl, ◌↔◌, ◌⊎◌, inl, inr, String, Bool, true, false, not, List, [], ◌∷◌, All, filter,
  contains, string_eq, nat_eq, Bool-cases, arith, if◌then◌else◌,
}
use lms_backend.Shared.Errors.{Result, ok, err, app, permission_denied}
use lms_backend.Models.{User, permission_codes}
use lms_backend.Database.Tables.{user_model}
use lms_backend.Auth.Dependencies.{require_permission}

-- Independent of the guards: `user` may use an endpoint that asks for `codes`.
abbrev pub MayUse : List String → User → Type 0
MayUse codes user =
    (user.is_superuser ≡ true) ⊎ All (λ c. contains (permission_codes user) c ≡ true) codes

missing-nil :
    (test : String → Bool) (codes : List String)
    → filter (λ c. not (test c)) codes ≡ []
    → All (λ c. test c ≡ true) codes
missing-nil test [] h = tt
missing-nil test (c ∷ codes) h = elim (Bool-cases (test c)) [
  | inl e ↦ (e, missing-nil test codes (rw e at h))
  | inr e ↦ ground arith
]

missing_of :
    (test : String → Bool) (codes : List String)
    → All (λ c. test c ≡ true) codes
    → filter (λ c. not (test c)) codes ≡ []
missing_of test [] h = refl
missing_of test (c ∷ codes) h = rw h.0 (missing_of test codes h.1)

let_through : (super : Bool) (missing : List String) (user : User) → Result User
let_through super missing user =
    if super
    then ok user
    else elim missing [ [] ↦ ok user | _ ∷ _ ↦ err (app permission_denied "Missing permission(s)") ]

let_through-ok :
    (super : Bool) (missing : List String) (user : User)
    → let_through super missing user ≡ ok user
    → (super ≡ true) ⊎ (missing ≡ [])
unfolding let_through
let_through-ok true missing user h = inl refl
let_through-ok false [] user h = inr refl
let_through-ok false (_ ∷ _) user h = ground arith

ok-let_through :
    (super : Bool) (missing : List String) (user : User)
    → (super ≡ true) ⊎ (missing ≡ [])
    → let_through super missing user ≡ ok user
unfolding let_through
ok-let_through true missing user h = refl
ok-let_through false [] user h = refl
ok-let_through false (_ ∷ _) user h = ground arith

let_through-same :
    (super : Bool) (missing : List String) (user v : User)
    → let_through super missing user ≡ ok v
    → user ≡ v
unfolding let_through
let_through-same true missing user v h = ground arith
let_through-same false [] user v h = ground arith
let_through-same false (_ ∷ _) user v h = ground arith

pub ok-require_permission :
    (codes : List String) (user v : User) → require_permission codes user ≡ ok v → user ≡ v
unfolding require_permission let_through
ok-require_permission codes user v h = let_through-same user.is_superuser _ user v h

-- The guard of `require_permission` lets a user through exactly if the user is a superuser or has each
-- of the codes.
pub require_permission_iff :
    (codes : List String) (user : User)
    → (require_permission codes user ≡ ok user) ↔ MayUse codes user
unfolding require_permission permission_codes let_through
require_permission_iff codes user =
    let missing = filter (λ c. not (contains (permission_codes user) c)) codes in
    (
      λ h. elim (let_through-ok user.is_superuser missing user h) [
        | inl super ↦ inl super
        | inr none_left ↦ inr (missing-nil _ codes none_left)
      ],
      λ may.
          ok-let_through user.is_superuser missing user
            (elim may [ inl super ↦ inl super | inr has ↦ inr (missing_of _ codes has) ]),
    )
