-- ===== src/Seed/Permissions.antt =====
-- The permissions that `seed_permissions` of scripts/seed.py leaves, at any state that it begins in.
use lms_backend.Base.{
  suc, ◌≡◌, refl, ap, ◌∙◌, String, true, false, ◌||◌, List, [], ◌∷◌, ◌++◌, map, All, contains,
  contains-append, contains_known, All-contains, any-contains, map-snoc, string_eq, nat_eq,
  Bool-cases, arith, inl, inr, some,
}
use lms_backend.Shared.Errors.{ok}
use lms_backend.Models.{Uuid, Permission}
use lms_backend.Store.{World, Action, ◌>>=◌, uuid4, pure, gets}
use lms_backend.Store.Runs.{bind-value}
use lms_backend.Seed.Catalog.{all_permissions, all_codes}
use lms_backend.Seed.Script.{
  code_of, add_permission, seed_permission, seed_each_permission, seed_permissions,
}

abbrev pub permission_keys : List Permission → List String
permission_keys perms = map code_of perms

abbrev row : Uuid → String → String → Permission
row id code desc = record { id = id; code = code; description = some desc }

-- the state with a permission more
with_permission : Permission → World → World
with_permission p w = record w {
  next_id = suc w.next_id;
  db = record w.db { permissions = w.db.permissions ++ p ∷ [] };
}

add_permission-ok :
    (p : Permission) (w : World)
    → contains (permission_keys w.db.permissions) p.code ≡ false
    → add_permission p w
      ≡ (ok tt, record w { db = record w.db { permissions = w.db.permissions ++ p ∷ [] } })
unfolding add_permission
add_permission-ok p w h = rw (any-contains code_of p.code w.db.permissions ∙ h) refl

seed_permission-known :
    (existing : List Permission) (entry : String × String) (w : World)
    → contains (permission_keys existing) entry.0 ≡ true
    → seed_permission existing entry w ≡ (ok existing, w)
unfolding seed_permission pure
seed_permission-known existing (code, desc) w h = rw h refl

seed_permission-new :
    (code desc : String) (w : World)
    → contains (permission_keys w.db.permissions) code ≡ false
    → seed_permission w.db.permissions (code, desc) w ≡ (
      ok (w.db.permissions ++ row w.next_id code desc ∷ []),
      with_permission (row w.next_id code desc) w,
    )
unfolding seed_permission ◌>>=◌ uuid4 with_permission pure
seed_permission-new code desc w fresh =
    rw
      (
        fresh,
        add_permission-ok (row w.next_id code desc) (record w { next_id = suc w.next_id }) fresh,
      )
      refl

-- From the dictionary of the rows that are there, `m` returns the dictionary of those that it leaves,
-- whose codes are the old ones and `new`.
record Leaves (m : List Permission → Action (List Permission)) (new : List String) (w : World)
    : Type 0 where
  value_lem : (m w.db.permissions w).0 ≡ ok (m w.db.permissions w).1.db.permissions
  codes_lem :
      (c : String)
      → contains (permission_keys (m w.db.permissions w).1.db.permissions) c
        ≡ (contains (permission_keys w.db.permissions) c || contains new c)

seed_permission-Leaves :
    (entry : String × String) (w : World)
    → Leaves (λ existing. seed_permission existing entry) (entry.0 ∷ []) w
unfolding with_permission
seed_permission-Leaves (code, desc) w =
    let rows = w.db.permissions in
    elim (Bool-cases (contains (permission_keys rows) code)) [
      | inl e ↦
          (let ran = seed_permission-known rows (code, desc) w e in
            record {
              value_lem = rw ran refl;
              codes_lem =
                  λ c. rw ran (contains_known (permission_keys rows) code c e ∙ ground arith);
            })
      | inr e ↦
          (let ran = seed_permission-new code desc w e in
            record {
              value_lem = rw ran refl;
              codes_lem = λ c.
                  rw (ran, map-snoc code_of rows (row w.next_id code desc))
                    (contains-append (permission_keys rows) (code ∷ []) c);
            })
    ]

seed_each_permission-Leaves :
    (entries : List (String × String)) (w : World)
    → Leaves (seed_each_permission entries) (map (λ e. e.0) entries) w
unfolding seed_each_permission pure
seed_each_permission-Leaves [] w = record { value_lem = refl; codes_lem = λ c. ground arith }
seed_each_permission-Leaves (entry ∷ entries) w =
    let round = seed_permission-Leaves entry w in
    let m = seed_permission w.db.permissions entry in
    let w' = (m w).1 in
    let ran = bind-value m (seed_each_permission entries) w w'.db.permissions round.value_lem in
    let rest = seed_each_permission-Leaves entries w' in
    record {
      value_lem = rw ran (rest.value_lem);
      codes_lem = λ c. rw (ran, rest.codes_lem c, round.codes_lem c) (ground arith);
    }

seed_each_permission-known :
    (entries : List (String × String)) (existing : List Permission) (w : World)
    → All (λ e. contains (permission_keys existing) e.0 ≡ true) entries
    → seed_each_permission entries existing w ≡ (ok existing, w)
unfolding seed_each_permission pure
seed_each_permission-known [] existing w h = refl
seed_each_permission-known (entry ∷ entries) existing w h =
    let ran = seed_permission-known existing entry w h.0 in
    bind-value (seed_permission existing entry) (seed_each_permission entries) w existing
      (ap (λ p. p.0) ran)
    ∙ rw ran (seed_each_permission-known entries existing w h.1)

-- seed_permissions returns from every state the rows of the table of permissions that it leaves, which has the
-- codes that it had and those of the catalogue; and to run it once more returns the same and changes nothing.
pub seed_permissions_twice :
    (c : String) (w : World)
    → ((seed_permissions w).0 ≡ ok (seed_permissions w).1.db.permissions)
      × ((contains (permission_keys (seed_permissions w).1.db.permissions) c
            ≡ (contains (permission_keys w.db.permissions) c || contains all_codes c))
          × (seed_permissions (seed_permissions w).1
              ≡ (ok (seed_permissions w).1.db.permissions, (seed_permissions w).1)))
unfolding seed_permissions gets ◌>>=◌
seed_permissions_twice c w =
    let run = seed_each_permission-Leaves all_permissions w in
    let w' = (seed_permissions w).1 in
    (
      run.value_lem,
      (
        run.codes_lem c,
        seed_each_permission-known all_permissions w'.db.permissions w' (
            All-contains (λ e. e.0) (contains (permission_keys w'.db.permissions)) all_permissions
              (λ a k. run.codes_lem a ∙ rw k (ground arith))),
      ),
    )
