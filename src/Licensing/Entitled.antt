-- ===== src/Licensing/Entitled.antt =====
-- Which modules a tenant has, against a description row by row.
use lms_backend.Base.{
  and_elim, nat_beq_iff, sym, Memᴰ, true, false, none, some, Option, ◌<◌, ◌↔◌, ◌⊎◌, ◌≡◌, refl, ap,
  ap₂, eq_iff, ◌∙◌, inl, inr, String, Bool, not, ◌&&◌, ◌||◌, List, [], ◌∷◌, filter, any, contains,
  contains-append, ◌==◌, nat_eq, string_eq, Bool-cases, arith,
}
use lms_backend.Models.{module_value, Uuid, Time, Module, TenantModule}
use lms_backend.Store.{Db}
use lms_backend.Licensing.Service.{
  has_expired, core_codes, codes_of, join_codes, is_enabled_for, is_expired_for, enabled_in,
}

module _ (test : TenantModule → Module → Bool) where
  -- a row of `tenant_modules` that concerns the code and passes the test
  abbrev pub grants : String → TenantModule → Module → Bool
  grants code tm m = tm.module_id == m.id && (test tm m && code == m.code)

  abbrev pub granted : String → List TenantModule → List Module → Bool
  granted code tms modules = any (λ tm. any (grants code tm) modules) tms

contains-filter :
    (p : String → Bool) (xs : List String) (c : String)
    → contains (filter p xs) c ≡ (p c && contains xs c)
contains-filter p [] c = ground arith
contains-filter p (x ∷ xs) c = elim (Bool-cases (c == x)) [
  | inl e ↦
      let same : p c ≡ p x = ap p ((eq_iff c x).0 e) in
      ground (arith, contains-filter p xs c, same, e)
  | inr e ↦ ground (arith, contains-filter p xs c, e)
]

contains-codes_of :
    (test : TenantModule → Module → Bool) (tm : TenantModule) (modules : List Module) (c : String)
    → contains (codes_of test tm modules) c ≡ any (grants test c tm) modules
unfolding codes_of
contains-codes_of test tm [] c = refl
contains-codes_of test tm (m ∷ modules) c = ground (arith, contains-codes_of test tm modules c)

contains-join_codes :
    (test : TenantModule → Module → Bool) (tms : List TenantModule) (modules : List Module)
    (c : String)
    → contains (join_codes test tms modules) c ≡ granted test c tms modules
unfolding join_codes
contains-join_codes test [] modules c = refl
contains-join_codes test (tm ∷ tms) modules c =
    contains-append (codes_of test tm modules) (join_codes test tms modules) c
    ∙ ap₂ ◌||◌ (contains-codes_of test tm modules c) (contains-join_codes test tms modules c)

pub contains-enabled_in :
    (d : Db) (now : Time) (tenant_id : Uuid) (code : String)
    → contains (enabled_in d now tenant_id) code ≡ (
        not (granted (is_expired_for tenant_id now) code d.tenant_modules d.modules)
          && granted (is_enabled_for tenant_id) code d.tenant_modules d.modules
        || contains core_codes code)
unfolding enabled_in
contains-enabled_in d now tenant_id code =
    let licensed = join_codes (is_enabled_for tenant_id) d.tenant_modules d.modules in
    let expired = join_codes (is_expired_for tenant_id now) d.tenant_modules d.modules in
    let unexpired = λ (c : String). not (contains expired c) in
    contains-append (filter unexpired licensed) core_codes code
    ∙ ap (λ b. b || contains core_codes code)
        (contains-filter unexpired licensed code
          ∙ ap₂ (λ e l. not e && l)
              (contains-join_codes (is_expired_for tenant_id now) d.tenant_modules d.modules code)
              (contains-join_codes (is_enabled_for tenant_id) d.tenant_modules d.modules code))

-- Independent of the queries: a row of `tenant_modules` that concerns the tenant and a module of the code.
pub record Licence (d : Db) (t : Uuid) (code : String) : Type 0 where
  pub licence : TenantModule
  pub m : Module
  pub licence_row : Memᴰ licence d.tenant_modules
  pub module_row : Memᴰ m d.modules
  pub tenant_lem : licence.tenant_id ≡ t
  pub module_lem : licence.module_id ≡ m.id
  pub code_lem : m.code ≡ code

-- One licence is enabled, for an active module, and none has expired; or the module is the one that
-- every tenant has.
abbrev pub Granted : Db → Time → Uuid → String → Type 0
Granted d now t code =
    (((l : Licence d t code) × ((l.licence.enabled ≡ true) × (l.m.is_active ≡ true)))
      × ¬ ((l : Licence d t code) × ((e : Time) × ((l.licence.expires_at ≡ some e) × (e < now)))))
    ⊎ (code ≡ "AUTH")

any-some :
    {A : Type 0} (p : A → Bool) (xs : List A)
    → any p xs ≡ true
    → (a : A) × (Memᴰ a xs × (p a ≡ true))
any-some p [] h = ground arith
any-some p (x ∷ xs) h = elim (Bool-cases (p x)) [
  | inl e ↦ (x, (Memᴰ.head refl, e))
  | inr e ↦ (let (a, (row, k)) = any-some p xs (rw e at h) in (a, (Memᴰ.tail row, k)))
]

some-any :
    {A : Type 0} (p : A → Bool) (a : A) (xs : List A) → Memᴰ a xs → p a ≡ true → any p xs ≡ true
some-any p a [] none_there h = elim none_there [ ]
some-any p a (x ∷ xs) (Memᴰ.head e) h = rw (sym e, h) refl
some-any p a (x ∷ xs) (Memᴰ.tail row) h = rw (some-any p a xs row h) (ground arith)

module _ (test : TenantModule → Module → Bool) (d : Db) (t : Uuid) (code : String) where
  -- a licence that passes the test
  abbrev Passing : Type 0
  Passing = (l : Licence d t code) × (test l.licence l.m ≡ true)

  granted-Passing :
      ((tm : TenantModule) (m : Module) → test tm m ≡ true → tm.tenant_id ≡ t)
      → granted test code d.tenant_modules d.modules ≡ true
      → Passing
  granted-Passing own h =
      let (tm, (tm_row, k)) =
        any-some (λ tm. any (grants test code tm) d.modules) d.tenant_modules h in
      let (m, (m_row, g)) = any-some (grants test code tm) d.modules k in
      let (same, rest) = and_elim (tm.module_id == m.id) _ g in
      let (passes, named) = and_elim (test tm m) (code == m.code) rest in
      (
        record {
          licence = tm;
          m = m;
          licence_row = tm_row;
          module_row = m_row;
          tenant_lem = own tm m passes;
          module_lem = (nat_beq_iff tm.module_id m.id).0 same;
          code_lem = sym ((eq_iff code m.code).0 named);
        },
        passes,
      )

  Passing-granted : Passing → granted test code d.tenant_modules d.modules ≡ true
  Passing-granted (l, passes) =
      let same = (nat_beq_iff l.licence.module_id l.m.id).1 l.module_lem in
      let named = (eq_iff code l.m.code).1 (sym l.code_lem) in
      some-any (λ tm. any (grants test code tm) d.modules) l.licence d.tenant_modules l.licence_row
        (some-any (grants test code l.licence) l.m d.modules l.module_row
          (rw (same, passes, named) refl))

has_expired_iff :
    (o : Option Time) (now : Time)
    → (has_expired o now ≡ true) ↔ ((e : Time) × ((o ≡ some e) × (e < now)))
has_expired_iff none now = (λ h. ground arith, λ h. let bad = h.1.0 in ground arith)
has_expired_iff (some t) now = (
  λ h. (t, (refl, ground arith)),
  λ h. (let same : t ≡ h.0 = ground (arith, h.1.0) in let late = h.1.1 in ground arith),
)

core_codes_iff : (code : String) → (contains core_codes code ≡ true) ↔ (code ≡ "AUTH")
unfolding core_codes module_value
core_codes_iff code =
    (λ h. (eq_iff code "AUTH").0 (ground (arith, h)), λ h. rw ((eq_iff code "AUTH").1 h) refl)

module _ (d : Db) (now : Time) (t : Uuid) (code : String) where
  abbrev IsEnabled : Type 0
  IsEnabled = (l : Licence d t code) × ((l.licence.enabled ≡ true) × (l.m.is_active ≡ true))

  abbrev IsExpired : Type 0
  IsExpired = (l : Licence d t code) × ((e : Time) × ((l.licence.expires_at ≡ some e) × (e < now)))

  enabled_iff : (granted (is_enabled_for t) code d.tenant_modules d.modules ≡ true) ↔ IsEnabled
  enabled_iff = (
    λ h.
        (let (l, passes) =
            granted-Passing (is_enabled_for t) d t code
              (λ tm m k.
                (nat_beq_iff tm.tenant_id t).0
                  (and_elim (tm.tenant_id == t) tm.enabled (and_elim _ m.is_active k).0).0)
              h in
          let (first, active) =
            and_elim (l.licence.tenant_id == t && l.licence.enabled) l.m.is_active passes in
          (l, ((and_elim (l.licence.tenant_id == t) l.licence.enabled first).1, active))),
    λ h.
        Passing-granted (is_enabled_for t) d t code
          (h.0, rw ((nat_beq_iff h.0.licence.tenant_id t).1 h.0.tenant_lem, h.1.0, h.1.1) refl),
  )

  expired_iff : (granted (is_expired_for t now) code d.tenant_modules d.modules ≡ true) ↔ IsExpired
  expired_iff = (
    λ h.
        (let (l, passes) =
            granted-Passing (is_expired_for t now) d t code
              (λ tm m k. (nat_beq_iff tm.tenant_id t).0 (and_elim _ _ k).0) h in
          (
            l,
            (has_expired_iff l.licence.expires_at now).0
                (and_elim (l.licence.tenant_id == t) _ passes).1,
          )),
    λ h. Passing-granted (is_expired_for t now) d t code (
      h.0,
      rw
          (
            (nat_beq_iff h.0.licence.tenant_id t).1 h.0.tenant_lem,
            (has_expired_iff h.0.licence.expires_at now).1 h.1,
          )
          refl,
    ),
  )

parts : (e l c : Bool) → (not e && l || c) ≡ true → ((e ≡ false) × (l ≡ true)) ⊎ (c ≡ true)
parts e l true h = inr refl
parts true l false h = ground arith
parts false l false h = inl (refl, ground (arith, h))

-- A module is enabled for a tenant exactly if its code is AUTH, or some licence of the tenant for an active
-- module of that code is enabled and no licence of the tenant for a module of that code has expired.
pub enabled_in_iff :
    (d : Db) (now : Time) (t : Uuid) (code : String)
    → (contains (enabled_in d now t) code ≡ true) ↔ Granted d now t code
enabled_in_iff d now t code =
    let is_expired = granted (is_expired_for t now) code d.tenant_modules d.modules in
    let is_enabled = granted (is_enabled_for t) code d.tenant_modules d.modules in
    let e = contains-enabled_in d now t code in
    (
      λ h. elim (parts is_expired is_enabled (contains core_codes code) (sym e ∙ h)) [
        | inl p ↦ inl (
          (enabled_iff d now t code).0 p.1,
          λ late. ground (arith, p.0, (expired_iff d now t code).1 late),
        )
        | inr core ↦ inr ((core_codes_iff code).0 core)
      ],
      λ h. e ∙ elim h [
        | inl p ↦ elim (Bool-cases is_expired) [
          | inl late ↦ absurd (p.1 ((expired_iff d now t code).0 late))
          | inr fine ↦ rw (fine, (enabled_iff d now t code).1 p.0) refl
        ]
        | inr core ↦ rw ((core_codes_iff code).1 core) (ground arith)
      ],
    )
