-- ===== src/Database/Written.antt =====
-- What a write of a repository leaves in its table.
use lms_backend.Base.{
  ◌≡◌, refl, sym, ap, ◌∙◌, suc, Bool, true, not, ◌&&◌, some, List, [], ◌∷◌, ◌++◌, map, any, Memᴰ,
  ◌==◌, nat_eq, beq_refl, Bool-cases, inl, inr, arith, if◌then◌else◌,
}
use lms_backend.Shared.Errors.{ok, err, integrity_error, policy_violation}
use lms_backend.Models.{Uuid, Time}
use lms_backend.Store.{or_raise, World, tenant_of, ◌>>=◌}
use lms_backend.Database.Policy.{policy}
use lms_backend.Database.Model.{Model}
use lms_backend.Database.Repository.{add, create, flush, is_row_of, clashes}

pub Mem-append : {A : Type 0} (a : A) (xs : List A) → Memᴰ a (xs ++ a ∷ [])
Mem-append a [] = Memᴰ.head refl
Mem-append a (x ∷ xs) = Memᴰ.tail (Mem-append a xs)

Mem-update :
    {A : Type 0} (test : A → Bool) (obj r : A) (rows : List A)
    → Memᴰ r rows
    → test r ≡ true
    → Memᴰ obj (map (λ s. if test s then obj else s) rows)
Mem-update test obj r [] none_there h = elim none_there [ ]
Mem-update test obj r (s ∷ rows) (Memᴰ.head e) h = Memᴰ.head (rw (sym e, h) refl)
Mem-update test obj r (s ∷ rows) (Memᴰ.tail m) h = Memᴰ.tail (Mem-update test obj r rows m h)

module _ {Row : Type 0} ⦃m : Model Row⦄ where
  -- An INSERT that succeeds puts its row after the others, and changes nothing else.
  pub add-ok :
      (obj r : Row) (w : World)
      → (add obj w).0 ≡ ok r
      → (r ≡ obj) × ((add obj w).1 ≡ record w { db = m.set_table w.db (m.table w.db ++ obj ∷ []) })
  unfolding add
  add-ok obj r w h = elim (Bool-cases (policy w.gucs (m.tenant_id obj))) [
    | inl e ↦ elim (Bool-cases (any (clashes obj) (m.table w.db))) [
      | inl k ↦ let bad : err integrity_error ≡ ok r = rw (e, k) at h in ground arith
      | inr k ↦ let good : ok obj ≡ ok r = rw (e, k) at h in (ground arith, rw (e, k) refl)
    ]
    | inr e ↦ let bad : err policy_violation ≡ ok r = rw e at h in ground arith
  ]

  -- The policy has admitted the row.
  pub add_allowed :
      (obj r : Row) (w : World) → (add obj w).0 ≡ ok r → policy w.gucs (m.tenant_id obj) ≡ true
  unfolding add
  add_allowed obj r w h = elim (Bool-cases (policy w.gucs (m.tenant_id obj))) [
    | inl e ↦ e
    | inr e ↦ let bad : err policy_violation ≡ ok r = rw e at h in ground arith
  ]

  -- An UPDATE of a flush that succeeds replaces the row of its object, and changes nothing else.
  pub flush-ok :
      (obj : Row) (w : World) (u : Unit {0})
      → (flush obj w).0 ≡ ok u
      → (policy w.gucs (m.tenant_id obj) ≡ true)
        × ((flush obj w).1 ≡ record w {
          db =
              m.set_table w.db
                (map (λ r. if is_row_of w.gucs obj r then obj else r) (m.table w.db));
        })
  unfolding flush
  flush-ok obj w u h = elim (Bool-cases (policy w.gucs (m.tenant_id obj))) [
    | inl e ↦
        elim (Bool-cases
          (any (λ r. not (m.id r == m.id obj) && m.unique_clash obj r) (m.table w.db))) [
            | inl k ↦ let bad : err integrity_error ≡ ok u = rw (e, k) at h in ground arith
            | inr k ↦ (e, rw (e, k) refl)
          ]
    | inr e ↦ let bad : err policy_violation ≡ ok u = rw e at h in ground arith
  ]

  -- What `create` has done when it returns: the row is in the table, with the tenant of the context and a
  -- new id.
  pub record Created (model : Uuid → Uuid → Time → Row) (t : Uuid) (w w' : World) (r : Row)
      : Type 0 where
    pub row_lem : r ≡ model t w.next_id w.now
    pub db_lem : w'.db ≡ m.set_table w.db (m.table w.db ++ r ∷ [])
    pub gucs_lem : w'.gucs ≡ w.gucs
    pub ctx_lem : w'.ctx ≡ w.ctx

  pub create-add :
      (model : Uuid → Uuid → Time → Row) (t : Uuid) (w : World)
      → tenant_of w.ctx ≡ some t
      → create model w ≡ add (model t w.next_id w.now) (record w { next_id = suc w.next_id })
  unfolding create ◌>>=◌ or_raise
  create-add model t w tenant = rw tenant refl

  pub create-Created :
      (model : Uuid → Uuid → Time → Row) (t : Uuid) (w : World) (r : Row)
      → tenant_of w.ctx ≡ some t
      → (create model w).0 ≡ ok r
      → Created model t w (create model w).1 r
  create-Created model t w r tenant h =
      let obj = model t w.next_id w.now in
      let e = create-add model t w tenant in
      let (same, after) =
        add-ok obj r (record w { next_id = suc w.next_id }) (ap (λ o. o.0) (sym e) ∙ h) in
      let state = ap (λ o. o.1) e ∙ after in
      record {
        row_lem = same;
        db_lem =
            ap (λ v. v.db) state ∙ ap (λ o. m.set_table w.db (m.table w.db ++ o ∷ [])) (sym same);
        gucs_lem = ap (λ v. v.gucs) state;
        ctx_lem = ap (λ v. v.ctx) state;
      }

  pub Mem-flush :
      (obj r : Row) (w : World) (u : Unit {0})
      → (flush obj w).0 ≡ ok u
      → Memᴰ r (m.table w.db)
      → m.id r ≡ m.id obj
      → m.tenant_id r ≡ m.tenant_id obj
      → Memᴰ obj (m.table (flush obj w).1.db)
  unfolding is_row_of
  Mem-flush obj r w u h row same_id same_tenant =
      let (allowed, after) = flush-ok obj w u h in
      let hit : is_row_of w.gucs obj r ≡ true =
        rw (same_id, same_tenant, allowed, beq_refl (m.id obj)) refl in
      rw (ap (λ v. v.db) after, m.table-set_table _ _)
        (Mem-update (is_row_of w.gucs obj) obj r (m.table w.db) row hit)
