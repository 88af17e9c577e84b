-- ===== src/Licensing/Rows.antt =====
-- One licence of a tenant for one module, among the others.
use lms_backend.Base.{
  ◌≡◌, refl, sym, ap, ap₂, ◌∙◌, String, Bool, true, false, not, ◌&&◌, ◌||◌, List, [], ◌∷◌, map,
  filter, any, any-same, any_one, contains, ◌==◌, nat_eq, string_eq, beq_comm, beq_refl, Bool-cases,
  inl, inr, arith, if◌then◌else◌,
}
use lms_backend.Models.{Uuid, Time, Module, TenantModule}
use lms_backend.Store.{Db}
use lms_backend.Database.Constraints.{Unique}
use lms_backend.External.{External}
use lms_backend.Licensing.Service.{is_licence, has_expired, core_codes, enabled_in}
use lms_backend.Licensing.Entitled.{granted, contains-enabled_in}

abbrev pub has_code : String → Module → Bool
has_code code m = m.code == code

module _ (x : External) (t : Uuid) (code : String) (m : Module) (tm : TenantModule) where
  by_code : (a b b' c d : Bool) → b ≡ b' → d ≡ c → (a && (b && c)) ≡ (d && (a && b'))
  by_code a b b' c d h k = ground arith

  and_assoc : (a b c : Bool) → ((a && b) && c) ≡ (a && (b && c))
  and_assoc a b c = ground arith

  by_licence : (a b c : Bool) → (b && (a && c)) ≡ (a && b && c)
  by_licence a b c = ground arith

  -- With one module of the code and one licence of the tenant for it, a row that grants is that licence.
  granted_one :
      (test rest : TenantModule → Module → Bool) (tms : List TenantModule) (modules : List Module)
      → ((r : TenantModule) (n : Module) → test r n ≡ (r.tenant_id == t && rest r n))
      → filter (has_code code) modules ≡ m ∷ []
      → filter (is_licence x t m.id) tms ≡ tm ∷ []
      → granted test code tms modules ≡ rest tm m
  granted_one test rest tms modules same one_module one_licence =
      any-same _ (λ r. is_licence x t m.id r && rest r m) tms
        (λ r.
          any-same _
            (λ n. has_code code n && (r.module_id == n.id && (r.tenant_id == t && rest r n)))
            modules
            (λ n.
              by_code (r.module_id == n.id) (test r n) (r.tenant_id == t && rest r n)
                (code == n.code) (n.code == code) (same r n) (beq_comm n.code code))
          ∙ (any_one (has_code code) (λ n. r.module_id == n.id && (r.tenant_id == t && rest r n)) m
                modules one_module
              ∙ by_licence (r.tenant_id == t) (r.module_id == m.id) (rest r m)))
      ∙ any_one (is_licence x t m.id) (λ r. rest r m) tm tms one_licence

  -- What the tables then say of the module.
  pub enabled_one :
      (d : Db) (now : Time)
      → filter (has_code code) d.modules ≡ m ∷ []
      → filter (is_licence x t m.id) d.tenant_modules ≡ tm ∷ []
      → contains (enabled_in d now t) code ≡ (
          not (has_expired tm.expires_at now) && (tm.enabled && m.is_active)
          || contains core_codes code)
  enabled_one d now one_module one_licence =
      contains-enabled_in d now t code
      ∙ ap₂ (λ e l. not e && l || contains core_codes code)
          (granted_one _ (λ r n. has_expired r.expires_at now) d.tenant_modules d.modules
            (λ r n. refl) one_module one_licence)
          (granted_one _ (λ r n. r.enabled && n.is_active) d.tenant_modules d.modules
            (λ r n. and_assoc (r.tenant_id == t) r.enabled n.is_active) one_module one_licence)

-- No two rows have one id.
abbrev pub DistinctIds : List TenantModule → Type 0
DistinctIds rows = Unique (λ (a b : TenantModule). a.id == b.id) rows

or_false_both : (a b : Bool) → (a || b) ≡ false → (a ≡ false) × (b ≡ false)
or_false_both a b h = ground arith

none_of :
    {A : Type 0} (p q : A → Bool) (a : A) (xs : List A)
    → filter p xs ≡ a ∷ []
    → any q xs ≡ false
    → q a ≡ false
none_of p q a [] h k = ground arith
none_of p q a (x ∷ xs) h k =
    let (first, others) = or_false_both (q x) (any q xs) k in
    elim (Bool-cases (p x)) [
      | inl e ↦
          let kept : x ∷ filter p xs ≡ a ∷ [] = rw e at h in
          let is_a : x ≡ a = ground arith in ap q (sym is_a) ∙ first
      | inr e ↦ none_of p q a xs (rw e at h) others
    ]

module _ (x : External) (t module_id : Uuid) (tm : TenantModule) where
  -- the UPDATE of the row of `tm`
  unfoldable pub put : TenantModule → TenantModule
  put r = if r.id == tm.id then tm else r

  absent_still :
      (rows : List TenantModule)
      → any (λ (r : TenantModule). tm.id == r.id) rows ≡ false
      → map put rows ≡ rows
  unfolding put
  absent_still [] h = refl
  absent_still (r ∷ rows) h =
      let (first, others) = or_false_both (tm.id == r.id) _ h in
      rw (beq_comm r.id tm.id ∙ first, absent_still rows others) refl

  pub put_licence :
      (old : TenantModule) (rows : List TenantModule)
      → DistinctIds rows
      → tm.id ≡ old.id
      → is_licence x t module_id tm ≡ true
      → filter (is_licence x t module_id) rows ≡ old ∷ []
      → filter (is_licence x t module_id) (map put rows) ≡ tm ∷ []
  unfolding put
  put_licence old [] distinct same fits one = ground arith
  put_licence old (r ∷ rows) distinct same fits one =
      elim (Bool-cases (is_licence x t module_id r)) [
        | inl e ↦
            let kept : r ∷ filter (is_licence x t module_id) rows ≡ old ∷ [] = rw e at one in
            let is_old : r ≡ old = ground arith in
            let rest : filter (is_licence x t module_id) rows ≡ [] = ground arith in
            let id : tm.id ≡ r.id = same ∙ ap (λ (o : TenantModule). o.id) (sym is_old) in
            let still = absent_still rows (rw id (distinct.0)) in
            rw (sym id, beq_refl tm.id, fits, still, rest) refl
        | inr e ↦
            let kept : filter (is_licence x t module_id) rows ≡ old ∷ [] = rw e at one in
            let differs =
              none_of (is_licence x t module_id) (λ (b : TenantModule). r.id == b.id) old rows kept
                distinct.0 in
            let apart : (r.id == tm.id) ≡ false = rw same differs in
            rw (apart, e) (put_licence old rows distinct.1 same fits kept)
      ]
