-- ===== src/Seed/Modules.antt =====
-- The modules that `seed_modules` of scripts/seed.py leaves, at any state that it begins in.
use lms_backend.Base.{
  suc, ◌≡◌, refl, sym, ap, ◌∙◌, String, true, false, ◌||◌, List, [], ◌∷◌, ◌++◌, map, All, contains,
  contains-append, contains_known, All-contains, any-contains, map-snoc, ◌==◌, string_eq, nat_eq,
  Bool-cases, arith, inl, inr,
}
use lms_backend.Shared.Errors.{ok}
use lms_backend.Models.{Module, ModuleCode, module_value}
use lms_backend.Store.{World, ◌>>=◌, uuid4, pure, gets}
use lms_backend.Store.Runs.{bind-value}
use lms_backend.Seed.Catalog.{module_catalog}
use lms_backend.Seed.Script.{add_module, new_module, seed_module, seed_each_module, seed_modules}

abbrev pub module_codes : World → List String
module_codes w = map (λ (m : Module). m.code) w.db.modules

abbrev entry_code : ModuleCode × String → String
entry_code e = module_value e.0

-- What one round of the loop does, in a state where the set that was read is right about its code.
record Rounds (existing : List String) (entry : ModuleCode × String) (w : World) : Type 0 where
  ok_lem : (seed_module existing entry w).0 ≡ ok tt
  codes_lem :
      (c : String)
      → contains (module_codes (seed_module existing entry w).1) c
        ≡ (contains (module_codes w) c || c == entry_code entry)

add_module-ok :
    (m : Module) (w : World)
    → contains (module_codes w) m.code ≡ false
    → add_module m w ≡ (ok tt, record w { db = record w.db { modules = w.db.modules ++ m ∷ [] } })
unfolding add_module
add_module-ok m w h = rw (any-contains (λ (n : Module). n.code) m.code w.db.modules ∙ h) refl

seed_module-known :
    (existing : List String) (entry : ModuleCode × String) (w : World)
    → contains existing (entry_code entry) ≡ true
    → seed_module existing entry w ≡ (ok tt, w)
unfolding seed_module pure
seed_module-known existing (code, desc) w h = rw h refl

-- the state with a module more
with_module : Module → World → World
with_module m w = record w {
  next_id = suc w.next_id;
  db = record w.db { modules = w.db.modules ++ m ∷ [] };
}

seed_module-new :
    (existing : List String) (code : ModuleCode) (desc : String) (w : World)
    → contains existing (module_value code) ≡ false
    → contains (module_codes w) (module_value code) ≡ false
    → seed_module existing (code, desc) w ≡ (ok tt, with_module (new_module w.next_id code desc) w)
unfolding seed_module ◌>>=◌ uuid4 with_module
seed_module-new existing code desc w h fresh =
    rw h
      (add_module-ok (new_module w.next_id code desc) (record w { next_id = suc w.next_id }) fresh)

seed_module-Rounds :
    (existing : List String) (entry : ModuleCode × String) (w : World)
    → contains existing (entry_code entry) ≡ contains (module_codes w) (entry_code entry)
    → Rounds existing entry w
unfolding with_module
seed_module-Rounds existing (code, desc) w agrees =
    let v = module_value code in
    elim (Bool-cases (contains (module_codes w) v)) [
      | inl e ↦
          (let ran = seed_module-known existing (code, desc) w (agrees ∙ e) in
            record {
              ok_lem = ap (λ r. r.0) ran;
              codes_lem = λ c. rw ran (contains_known (module_codes w) v c e);
            })
      | inr e ↦
          (let ran = seed_module-new existing code desc w (agrees ∙ e) e in
            record {
              ok_lem = ap (λ r. r.0) ran;
              codes_lem = λ c.
                  rw
                    (
                      ran,
                      map-snoc (λ (n : Module). n.code) w.db.modules
                          (new_module w.next_id code desc),
                      contains-append (module_codes w) (v ∷ []) c,
                    )
                    (ground arith);
            })
    ]

-- The codes of the entries differ from one another.
Distinct : List (ModuleCode × String) → Type 0
Distinct [] = Unit
Distinct (e ∷ es) = All (λ d. (entry_code d == entry_code e) ≡ false) es × Distinct es

-- The set that was read is right about the codes of the entries.
Agrees : List String → World → List (ModuleCode × String) → Type 0
Agrees existing w es =
    All (λ e. contains existing (entry_code e) ≡ contains (module_codes w) (entry_code e)) es

Agrees-next :
    (existing : List String) (e : ModuleCode × String) (es : List (ModuleCode × String)) (w : World)
    → Rounds existing e w
    → All (λ d. (entry_code d == entry_code e) ≡ false) es
    → Agrees existing w es
    → Agrees existing (seed_module existing e w).1 es
unfolding Agrees
Agrees-next existing e [] w r apart agrees = tt
Agrees-next existing e (d ∷ es) w r apart agrees = (
  agrees.0 ∙ sym (r.codes_lem (entry_code d) ∙ rw apart.0 (ground arith)),
  Agrees-next existing e es w r apart.1 agrees.1,
)

Agrees-self : (w : World) (es : List (ModuleCode × String)) → Agrees (module_codes w) w es
unfolding Agrees
Agrees-self w [] = tt
Agrees-self w (e ∷ es) = (refl, Agrees-self w es)

-- What the loop does, for each code `c`.
record Loops (existing : List String) (es : List (ModuleCode × String)) (w : World) : Type 0 where
  ok_lem : (seed_each_module existing es w).0 ≡ ok tt
  codes_lem :
      (c : String)
      → contains (module_codes (seed_each_module existing es w).1) c
        ≡ (contains (module_codes w) c || contains (map entry_code es) c)

seed_each_module-Loops :
    (existing : List String) (es : List (ModuleCode × String)) (w : World)
    → Distinct es
    → Agrees existing w es
    → Loops existing es w
unfolding Distinct Agrees seed_each_module pure
seed_each_module-Loops existing [] w apart agrees = record {
  ok_lem = refl;
  codes_lem = λ c. ground arith;
}
seed_each_module-Loops existing (e ∷ es) w apart agrees =
    let r = seed_module-Rounds existing e w agrees.0 in
    let ran =
      bind-value (seed_module existing e) (λ _. seed_each_module existing es) w tt r.ok_lem in
    let w' = (seed_module existing e w).1 in
    let rest =
      seed_each_module-Loops existing es w' apart.1
        (Agrees-next existing e es w r apart.0 agrees.1) in
    record {
      ok_lem = ap (λ p. p.0) ran ∙ rest.ok_lem;
      codes_lem = λ c. rw (ran, rest.codes_lem c, r.codes_lem c) (ground arith);
    }

seed_each_module-known :
    (existing : List String) (es : List (ModuleCode × String)) (w : World)
    → All (λ e. contains existing (entry_code e) ≡ true) es
    → seed_each_module existing es w ≡ (ok tt, w)
unfolding seed_each_module pure
seed_each_module-known existing [] w h = refl
seed_each_module-known existing (e ∷ es) w h =
    let ran = seed_module-known existing e w h.0 in
    bind-value (seed_module existing e) (λ _. seed_each_module existing es) w tt (ap (λ p. p.0) ran)
    ∙ rw ran (seed_each_module-known existing es w h.1)

catalog-Distinct : Distinct module_catalog
unfolding Distinct module_value
catalog-Distinct = (
  (refl, (refl, (refl, (refl, (refl, tt))))),
  (
    (refl, (refl, (refl, (refl, tt)))),
    ((refl, (refl, (refl, tt))), ((refl, (refl, tt)), ((refl, tt), (tt, tt)))),
  ),
)

-- seed_modules returns from every state; the table of the modules then has the codes that it had and those
-- of the catalogue; and to run it once more changes nothing.
pub seed_modules_twice :
    (c : String) (w : World)
    → ((seed_modules w).0 ≡ ok tt)
      × ((contains (module_codes (seed_modules w).1) c
            ≡ (contains (module_codes w) c || contains (map entry_code module_catalog) c))
          × (seed_modules (seed_modules w).1 ≡ (ok tt, (seed_modules w).1)))
unfolding seed_modules gets ◌>>=◌
seed_modules_twice c w =
    let run =
      seed_each_module-Loops (module_codes w) module_catalog w catalog-Distinct
        (Agrees-self w module_catalog) in
    let w' = (seed_modules w).1 in
    (
      run.ok_lem,
      (
        run.codes_lem c,
        seed_each_module-known (module_codes w') module_catalog w' (
            All-contains entry_code (contains (module_codes w')) module_catalog
              (λ a k. run.codes_lem a ∙ rw k (ground arith))),
      ),
    )
