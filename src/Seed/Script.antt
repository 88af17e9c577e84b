-- ===== src/Seed/Script.antt =====
-- `seed_modules` and `seed_permissions` of scripts/seed.py, and the permissions that `seed_tenant` grants
-- to a role. Rows are written at once here, and by one flush at the end in the program.
use lms_backend.Base.{
  String, true, Option, none, some, List, [], ◌∷◌, ◌++◌, map, any, contains, ◌==◌, string_eq,
  nat_eq, if◌then◌else◌,
}
use lms_backend.Shared.Errors.{ok, err, integrity_error}
use lms_backend.Models.{Uuid, Module, Permission, ModuleCode, module_value}
use lms_backend.Store.{Action, pure, gets, uuid4, case_option, ◌>>=◌, ◌>>◌}
use lms_backend.Licensing.{core_codes}
use lms_backend.Seed.Catalog.{module_catalog, all_permissions}

-- the INSERT into `modules` and into `permissions`, whose codes are unique
unfoldable pub add_module : Module → Action (Unit {0})
add_module m w =
    if any (λ (n : Module). m.code == n.code) w.db.modules
    then (err integrity_error, w)
    else (ok tt, record w { db = record w.db { modules = w.db.modules ++ m ∷ [] } })

unfoldable pub add_permission : Permission → Action (Unit {0})
add_permission p w =
    if any (λ (q : Permission). p.code == q.code) w.db.permissions
    then (err integrity_error, w)
    else (ok tt, record w { db = record w.db { permissions = w.db.permissions ++ p ∷ [] } })

abbrev pub new_module : Uuid → ModuleCode → String → Module
new_module id code desc = record {
  id = id;
  code = module_value code;
  name = desc;
  description = some desc;
  is_active = true;
  is_core = contains core_codes (module_value code);
}

-- one round of the loop over the catalogue
unfoldable pub seed_module : List String → ModuleCode × String → Action (Unit {0})
seed_module existing (code, desc) =
    if contains existing (module_value code)
    then pure tt
    else (do id ← uuid4; add_module (new_module id code desc))

unfoldable pub seed_each_module : List String → List (ModuleCode × String) → Action (Unit {0})
unfolding seed_module
seed_each_module existing [] = pure tt
seed_each_module existing (entry ∷ catalog) = do
  seed_module existing entry
  seed_each_module existing catalog

unfoldable pub seed_modules : Action (Unit {0})
unfolding seed_each_module
seed_modules = do
  existing ← gets (λ w. map (λ (m : Module). m.code) w.db.modules)
  seed_each_module existing module_catalog

-- The dictionary of the permissions by their codes is the list of them: a code is the key of its row.
abbrev pub code_of : Permission → String
code_of p = p.code

-- one round of the loop over the permissions, with the dictionary that it leaves
unfoldable pub seed_permission : List Permission → String × String → Action (List Permission)
seed_permission existing (code, desc) =
    if contains (map code_of existing) code then pure existing else (do
      id ← uuid4
      let p : Permission = record { id = id; code = code; description = some desc }
      add_permission p
      pure (existing ++ p ∷ []))

unfoldable pub seed_each_permission :
    List (String × String) → List Permission → Action (List Permission)
unfolding seed_permission
seed_each_permission [] existing = pure existing
seed_each_permission (entry ∷ entries) existing = do
  next ← seed_permission existing entry
  seed_each_permission entries next

unfoldable pub seed_permissions : Action (List Permission)
unfolding seed_each_permission
seed_permissions = do
  existing ← gets (λ w. w.db.permissions)
  seed_each_permission all_permissions existing

-- `perms[c]`, if the code is there
unfoldable pub find_permission : String → List Permission → Option Permission
find_permission code [] = none
find_permission code (p ∷ perms) =
    let rest = find_permission code perms in if code == p.code then some p else rest

-- `[perms[c] for c in ROLE_MATRIX[rc] if c in perms]`
unfoldable pub granted : List Permission → List String → List Permission
unfolding find_permission
granted perms [] = []
granted perms (c ∷ cs) =
    let rest = granted perms cs in case_option (find_permission c perms) rest (λ p. p ∷ rest)
