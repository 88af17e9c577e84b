-- ===== src/Tenancy/Resolution.antt =====
-- What the resolution of a slug promises.
use lms_backend.Base.{
  ◌≡◌, refl, sym, ap, ◌∙◌, String, Bool, true, false, not, Option, none, some, Memᴰ, All-filter_mem,
  filter, ◌==◌, nat_eq, string_eq, eq_iff, is_none, and_elim, arith, if◌then◌else◌,
}
use lms_backend.Shared.Errors.{ok}
use lms_backend.Models.{Uuid, Tenant}
use lms_backend.Store.{World, Action, pure, lift, gets, case_option, ◌>>=◌}
use lms_backend.Store.Runs.{bind-ok, Passes-ok, pure-ok, pure_same, scalar_one_or_none-some}
use lms_backend.Database.{bind_rls, no_gucs}
use lms_backend.Database.Sessions.{tenant_session, settle_value}
use lms_backend.External.{External}
use lms_backend.Tenancy.{has_slug, get_by_slug, read_slug, write_slug, look_up, resolve_tenant_id}

-- A tenant that a request may name by the slug.
pub record IsServed (slug : String) (w : World) (t : Uuid) : Type 0 where
  pub row : Tenant
  pub among : Memᴰ row w.db.tenants
  pub slug_lem : row.slug ≡ slug
  pub live : is_none row.deleted_at ≡ true
  pub active : row.is_active ≡ true
  pub id_lem : row.id ≡ t

get_by_slug-found :
    (slug : String) (w : World) (t : Tenant)
    → (get_by_slug slug w).0 ≡ ok (some t)
    → Memᴰ t w.db.tenants × (has_slug slug t ≡ true)
unfolding get_by_slug gets lift ◌>>=◌
get_by_slug-found slug w t h =
    let one = scalar_one_or_none-some (filter (has_slug slug) w.db.tenants) t h in
    (rw one at (All-filter_mem (has_slug slug) w.db.tenants)).0

only_active :
    (b : Bool) (m : Action (Option Uuid)) (w : World) (t : Uuid)
    → ((if not b then pure none else m) w).0 ≡ ok (some t)
    → (b ≡ true) × ((m w).0 ≡ ok (some t))
unfolding pure
only_active true m w t h = (refl, h)
only_active false m w t h = ground arith

some_same : (s t : Uuid) → some s ≡ some t → s ≡ t
some_same s t h = ground arith

module _ (x : External) where
  answer_of : String → Option Tenant → Action (Option Uuid)
  answer_of slug found =
      case_option found (pure none) (λ t.
        if not t.is_active then pure none else write_slug x slug t.id >>= λ _. pure (some t.id))

  answer_of-active :
      (slug : String) (found : Option Tenant) (w : World) (t : Uuid)
      → (answer_of slug found w).0 ≡ ok (some t)
      → (row : Tenant) × ((found ≡ some row) × ((row.is_active ≡ true) × (row.id ≡ t)))
  unfolding answer_of case_option pure
  answer_of-active slug none w t h = ground arith
  answer_of-active slug (some r) w t h =
      let m = write_slug x slug r.id in
      let (active, answered) = only_active r.is_active (m >>= λ _. pure (some r.id)) w t h in
      let a = bind-ok m (λ _. pure (some r.id)) w (some t) answered in
      let same = pure-ok (some r.id) (some t) (m w).1 (Passes-ok _ _ w a (some t) answered) in
      (r, (refl, (active, some_same r.id t same)))

  look_up-IsServed :
      (slug : String) (w : World) (t : Uuid)
      → (look_up x slug w).0 ≡ ok (some t)
      → IsServed slug w t
  unfolding look_up answer_of
  look_up-IsServed slug w t h =
      let a = bind-ok (get_by_slug slug) (answer_of slug) w (some t) h in
      let (row, (found, (active, id))) =
        answer_of-active slug a.value (get_by_slug slug w).1 t (Passes-ok _ _ w a (some t) h) in
      let (among, matches) = get_by_slug-found slug w row (a.first ∙ ap ok found) in
      let (same_slug, live) = and_elim (row.slug == slug) (is_none row.deleted_at) matches in
      record {
        row = row;
        among = among;
        slug_lem = (eq_iff row.slug slug).0 same_slug;
        live = live;
        active = active;
        id_lem = id;
      }

  tenant_session-value :
      {A : Type 0} (tenant_id : Option Uuid) (bypass : Bool) (m : Action A) (w : World)
      → (tenant_session tenant_id bypass m w).0
        ≡ (m (record w {
          gucs = bind_rls w.settings.enable_row_level_security tenant_id bypass no_gucs;
        })).0
  unfolding tenant_session
  tenant_session-value tenant_id bypass m w =
      let (r, w') = m (record w {
        gucs = bind_rls w.settings.enable_row_level_security tenant_id bypass no_gucs;
      }) in
      settle_value w r w'

  IsServed-transport :
      (slug : String) (w w' : World) (t : Uuid)
      → w'.db ≡ w.db
      → IsServed slug w' t
      → IsServed slug w t
  IsServed-transport slug w w' t same s = record {
    row = s.row;
    among = rw same at (s.among);
    slug_lem = s.slug_lem;
    live = s.live;
    active = s.active;
    id_lem = s.id_lem;
  }

  resolve_uncached :
      (slug : String) (w : World)
      → x.parse_uuid slug ≡ none
      → (read_slug x slug w).0 ≡ ok none
      → resolve_tenant_id x slug w ≡ tenant_session none true (look_up x slug) w
  unfolding resolve_tenant_id read_slug case_option pure ◌>>=◌
  resolve_uncached slug w text miss =
      let empty = pure_same _ none miss in
      let answer = λ (c : Option Uuid).
        case_option c (tenant_session none true (look_up x slug)) (λ t. pure (some t)) w in
      rw text (ap answer empty)

  -- A name that is no UUID and that the cache does not hold is resolved only to the id of a tenant of the
  -- database with that slug that is active and not deleted.
  pub resolve_tenant_id-IsServed :
      (slug : String) (w : World) (t : Uuid)
      → x.parse_uuid slug ≡ none
      → (read_slug x slug w).0 ≡ ok none
      → (resolve_tenant_id x slug w).0 ≡ ok (some t)
      → IsServed slug w t
  resolve_tenant_id-IsServed slug w t text miss h =
      let w0 = record w {
        gucs = bind_rls w.settings.enable_row_level_security none true no_gucs;
      } in
      let e = resolve_uncached slug w text miss in
      IsServed-transport slug w w0 t refl (
        look_up-IsServed slug w0 t
          (sym (tenant_session-value none true (look_up x slug) w) ∙ ap (λ o. o.0) (sym e) ∙ h))
