-- ===== src/Database/Repository.antt =====
-- `BaseRepository` and `TenantRepository` of app/core/database/repository.py, over the classes that the
-- program gives them: all are tenant-scoped.
use Prim.Native.Char.{code}
use lms_backend.Base.{
  ℕ, String, Bool, true, false, not, ◌&&◌, ◌||◌, Option, none, some, List, [], ◌∷◌, ◌++◌, map,
  length, take, drop, filter, any, ◌==◌, nat_eq, string_eq, is_none, if◌then◌else◌,
}
use lms_backend.Shared.Errors.{ok, err, app, not_found, integrity_error, policy_violation}
use lms_backend.Shared.Page.{PageParams, offset, limit}
use lms_backend.Models.{Uuid, Time}
use lms_backend.Store.{
  Gucs, RequestContext, Action, pure, lift, get_now, uuid4, require_tenant_id, tenant_of,
  scalar_one_or_none, or_raise, case_option, ◌>>=◌,
}
use lms_backend.Database.Policy.{policy}
use lms_backend.Database.Model.{Model}

-- The columns that `getattr(self.model, field, None)` finds, and `ORDER BY` on one of them, which the
-- database does.
pub record Ordering (Row : Type 0) : Type 0 where
  pub has_column : String → Bool
  pub order_by : String → Bool → List Row → List Row

-- `_apply_sort`; `-field` sorts downwards.
unfoldable pub apply_sort : {Row : Type 0} → Ordering Row → Option String → List Row → List Row
apply_sort o none rows = rows
apply_sort o (some String.[]) rows = rows
apply_sort o (some (String.◌∷◌ c s)) rows =
    let desc = code c == b'-' in
    let field = if desc then s else String.◌∷◌ c s in
    if o.has_column field then o.order_by field desc rows else rows

module _ {Row : Type 0} ⦃m : Model Row⦄ where
  -- `BaseRepository._select`: the test that its WHERE clause makes
  unfoldable pub base_select : Row → Bool
  base_select r = elim m.soft_delete [ none ↦ true | some s ↦ is_none (s.deleted_at r) ]

  -- `TenantRepository._select`
  unfoldable pub select : Option RequestContext → Row → Bool
  unfolding base_select
  select rc r =
      base_select r && elim (tenant_of rc) [ none ↦ true | some tid ↦ m.tenant_id r == tid ]

  -- The rows that a SELECT returns: those that the policy shows and the WHERE clause admits.
  unfoldable pub execute : (Row → Bool) → Action (List Row)
  execute stmt w = (ok (filter (λ r. policy w.gucs (m.tenant_id r) && stmt r) (m.table w.db)), w)

  -- `self._select().where(condition)`, executed
  unfoldable pub select_where : (Row → Bool) → Action (List Row)
  unfolding select execute
  select_where condition w = execute (λ r. select w.ctx r && condition r) w

  -- The same with `.scalar_one_or_none()`.
  unfoldable pub select_one : (Row → Bool) → Action (Option Row)
  select_one condition = do rows ← select_where condition; lift (scalar_one_or_none rows)

  unfoldable pub get : Uuid → Action (Option Row)
  get id = select_one (λ r. m.id r == id)

  unfoldable pub get_or_404 : Uuid → Action Row
  get_or_404 id = do obj ← get id; or_raise obj (app not_found m.name)

  -- `list`, with the search that the repository applies
  unfoldable pub list_rows :
      (String → Row → Bool) → Ordering Row → PageParams → Action (List Row × ℕ)
  list_rows apply_search o params = do
    rows ←
        select_where
          (λ r. elim params.search [ none ↦ true | some t ↦ t == "" || apply_search t r ])
    pure (take (limit params) (drop (offset params) (apply_sort o params.sort rows)), length rows)

  unfoldable pub exists : (Row → Bool) → Action Bool
  exists condition = do
    rows ← select_where condition
    pure (elim rows [ [] ↦ false | _ ∷ _ ↦ true ])

  -- A row that cannot stand beside another: the primary key and the unique constraints.
  unfoldable pub clashes : Row → Row → Bool
  clashes a b = m.id a == m.id b || m.unique_clash a b

  -- `session.add(obj)` and the INSERT of the next flush
  unfoldable pub add : Row → Action Row
  unfolding clashes
  add obj w =
      if policy w.gucs (m.tenant_id obj)
      then (if any (clashes obj) (m.table w.db)
          then (err integrity_error, w)
          else (ok obj, record w { db = m.set_table w.db (m.table w.db ++ obj ∷ []) }))
      else (err policy_violation, w)

  -- `TenantRepository.create`; the caller gives no `tenant_id`
  unfoldable pub create : (Uuid → Uuid → Time → Row) → Action Row
  create model = do
    tenant_id ← require_tenant_id
    id ← uuid4
    now ← get_now
    add (model tenant_id id now)

  -- the row of `obj`, if the policy shows it
  unfoldable pub is_row_of : Gucs → Row → Row → Bool
  is_row_of g obj r = m.id r == m.id obj && policy g (m.tenant_id r)

  -- The UPDATE that a flush makes for a changed object.
  unfoldable pub flush : Row → Action (Unit {0})
  unfolding is_row_of
  flush obj w =
      if policy w.gucs (m.tenant_id obj)
      then (if any (λ r. not (m.id r == m.id obj) && m.unique_clash obj r) (m.table w.db)
          then (err integrity_error, w)
          else (
            ok tt,
            record w {
              db =
                  m.set_table w.db
                    (map (λ r. if is_row_of w.gucs obj r then obj else r) (m.table w.db));
            },
          ))
      else (err policy_violation, w)

  -- the DELETE of a flush
  unfoldable pub delete_row : Row → Action (Unit {0})
  unfolding is_row_of
  delete_row obj w = (
    ok tt,
    record w { db = m.set_table w.db (filter (λ r. not (is_row_of w.gucs obj r)) (m.table w.db)) },
  )

  -- `delete`: marks the row if the class has `SoftDeleteMixin` and `hard` is not set
  unfoldable pub delete : Row → Bool → Action (Unit {0})
  delete obj true = delete_row obj
  delete obj false =
      case_option m.soft_delete (delete_row obj) (λ s. do now ← get_now; flush (s.mark now obj))

  abbrev pub update_row : Gucs → (Row → Bool) → (Row → Row) → Row → Row
  update_row g condition values r = if policy g (m.tenant_id r) && condition r then values r else r

  -- `update(model).where(condition).values(values)`, executed; the values are no key columns
  unfoldable pub update_where : (Row → Bool) → (Row → Row) → Action (Unit {0})
  update_where condition values w = (
    ok tt,
    record w { db = m.set_table w.db (map (update_row w.gucs condition values) (m.table w.db)) },
  )
