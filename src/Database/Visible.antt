-- ===== src/Database/Visible.antt =====
-- What a SELECT of a repository returns.
use lms_backend.Base.{
  ◌≡◌, refl, sym, Bool, true, ◌&&◌, Option, none, some, is_none, arith, List, [], ◌∷◌, ap, ◌∙◌,
  Memᴰ, All-map, All-filter_mem, All, filter, ◌==◌, nat_eq, nat_beq_iff, and_elim,
}
use lms_backend.Shared.Errors.{Error, app, not_found, Result, ok, err}
use lms_backend.Models.{Uuid, Time}
use lms_backend.Store.Runs.{
  or_raise_still, bind-ok, or_raise-ok, Passes-ok, scalar_one_or_none-some,
}
use lms_backend.Store.{continue, lift, or_raise, World, Db, tenant_of, ◌>>=◌}
use lms_backend.Database.Policy.{policy}
use lms_backend.Database.Model.{Model, SoftDelete}
use lms_backend.Database.Repository.{
  base_select, select, execute, select_where, select_one, get, get_or_404,
}

is_gone : (o : Option Time) → is_none o ≡ true → o ≡ none
is_gone none h = refl
is_gone (some t) h = ground arith

continue_still :
    {A : Type 0} (r : Result (Option A)) (e : Error) (w : World)
    → (continue r (λ o. or_raise o e) w).1 ≡ w
continue_still (ok o) e w = or_raise_still o e w
continue_still (err f) e w = refl

module _ {Row : Type 0} ⦃m : Model Row⦄ where
  -- A row of tenant `t` that is not deleted.
  pub record IsLiveRow (t : Uuid) (r : Row) : Type 0 where
    pub tenant : m.tenant_id r ≡ t
    pub live : (s : SoftDelete Row m.tenant_id) → m.soft_delete ≡ some s → s.deleted_at r ≡ none

  base_select-live :
      (r : Row) (s : SoftDelete Row m.tenant_id)
      → base_select r ≡ true
      → m.soft_delete ≡ some s
      → s.deleted_at r ≡ none
  unfolding base_select
  base_select-live r s h e = is_gone (s.deleted_at r) (rw e at h)

  select-IsLiveRow :
      (w : World) (t : Uuid) (condition : Row → Bool) (r : Row)
      → tenant_of w.ctx ≡ some t
      → (policy w.gucs (m.tenant_id r) && (select w.ctx r && condition r)) ≡ true
      → IsLiveRow t r × (condition r ≡ true)
  unfolding select
  select-IsLiveRow w t condition r c h =
      let (_, selected) = and_elim (policy w.gucs (m.tenant_id r)) _ h in
      let (in_scope, matches) = and_elim _ (condition r) selected in
      let (live, own) = and_elim (base_select r) _ in_scope in
      (
        record {
          tenant = (nat_beq_iff _ _).0 (rw c at own);
          live = λ s e. base_select-live r s live e;
        },
        matches,
      )

  -- A row of the table that a query in the context of tenant `t` may return.
  pub record Found (t : Uuid) (condition : Row → Bool) (d : Db) (r : Row) : Type 0 where
    pub row : Memᴰ r (m.table d)
    pub live : IsLiveRow t r
    pub matches : condition r ≡ true

  select_where-Found :
      (w : World) (t : Uuid) (condition : Row → Bool) (rows : List Row)
      → tenant_of w.ctx ≡ some t
      → (select_where condition w).0 ≡ ok rows
      → All (Found t condition w.db) rows
  unfolding select_where execute
  select_where-Found w t condition rows c h =
      let e : filter _ (m.table w.db) ≡ rows = cc in
      rw (sym e) (
        All-map _ _
          (λ r p.
            let (live, matches) = select-IsLiveRow w t condition r c p.1 in
            record { row = p.0; live = live; matches = matches })
          _ (All-filter_mem _ (m.table w.db)))

  pub select_one_still : (condition : Row → Bool) (w : World) → (select_one condition w).1 ≡ w
  unfolding select_one select_where execute lift ◌>>=◌
  select_one_still condition w = refl

  pub select_one-Found :
      (w : World) (t : Uuid) (condition : Row → Bool) (r : Row)
      → tenant_of w.ctx ≡ some t
      → (select_one condition w).0 ≡ ok (some r)
      → Found t condition w.db r
  unfolding select_one select_where execute lift ◌>>=◌
  select_one-Found w t condition r c h =
      let rows =
        filter (λ r. policy w.gucs (m.tenant_id r) && (select w.ctx r && condition r))
          (m.table w.db) in
      let one = scalar_one_or_none-some rows r h in
      (select_where-Found w t condition (r ∷ []) c (ap ok one)).0

  -- The row that `get` returns in the context of a tenant is a row of that tenant with the given id that
  -- is not deleted.
  pub get-Found :
      (w : World) (t id : Uuid) (r : Row)
      → tenant_of w.ctx ≡ some t
      → (get id w).0 ≡ ok (some r)
      → Found t (λ r. m.id r == id) w.db r
  unfolding get
  get-Found w t id r c h = select_one-Found w t (λ r. m.id r == id) r c h

  -- The row has the id, in any context.
  pub get-id : (id : Uuid) (w : World) (r : Row) → (get id w).0 ≡ ok (some r) → m.id r ≡ id
  unfolding get select_one select_where execute lift ◌>>=◌
  get-id id w r h =
      let test = λ (r : Row). policy w.gucs (m.tenant_id r) && (select w.ctx r && m.id r == id) in
      let one = scalar_one_or_none-some (filter test (m.table w.db)) r h in
      let passed = (rw one at (All-filter_mem test (m.table w.db))).0.1 in
      (nat_beq_iff (m.id r) id).0
        (and_elim _ _ (and_elim (policy w.gucs (m.tenant_id r)) _ passed).1).1

  get_or_404-some :
      (id : Uuid) (w : World) (r : Row) → (get_or_404 id w).0 ≡ ok r → (get id w).0 ≡ ok (some r)
  unfolding get_or_404
  get_or_404-some id w r h =
      let p = bind-ok (get id) (λ o. or_raise o (app not_found m.name)) w r h in
      let q = or_raise-ok p.value (app not_found m.name) (get id w).1 r (Passes-ok _ _ w p r h) in
      p.first ∙ ap ok q.0

  -- The same for `get_or_404`.
  pub get_or_404-Found :
      (w : World) (t id : Uuid) (r : Row)
      → tenant_of w.ctx ≡ some t
      → (get_or_404 id w).0 ≡ ok r
      → Found t (λ r. m.id r == id) w.db r
  get_or_404-Found w t id r c h = get-Found w t id r c (get_or_404-some id w r h)

module _ (Row : Type 0) ⦃m : Model Row⦄ where
  -- Reading leaves the state as it is.
  pub get_still : (id : Uuid) (w : World) → (get {Row = Row} id w).1 ≡ w
  unfolding get
  get_still id w = select_one_still _ w

  pub get_or_404_still : (id : Uuid) (w : World) → (get_or_404 {Row = Row} id w).1 ≡ w
  unfolding get_or_404 ◌>>=◌
  get_or_404_still id w =
      continue_still (get {Row = Row} id w).0 (app not_found m.name) (get {Row = Row} id w).1
      ∙ get_still id w
