-- ===== src/Database/Consistent.antt =====
-- Every write of the repositories keeps the unique constraints.
use lms_backend.Base.{
  ◌≡◌, refl, ap₂, ◌∙◌, Bool, false, not, ◌||◌, ◌&&◌, List, [], ◌∷◌, ◌++◌, ◌==◌, nat_eq, beq_comm,
  filter, any, map, arith, Bool-cases, inl, inr, if◌then◌else◌,
}
use lms_backend.Store.{World, Gucs}
use lms_backend.Store.Relations.{IsPreorder, Obeys}
use lms_backend.Database.Policy.{policy}
use lms_backend.Database.Constraints.{Unique, IsConsistent}
use lms_backend.Database.Model.{Model}
use lms_backend.Database.Repository.{
  clashes, is_row_of, add, flush, delete_row, update_row, update_where,
}

-- Consistent tables stay consistent.
pub record KeepsConsistent (w w' : World) : Type 0 where
  pub at : IsConsistent w.db → IsConsistent w'.db

pub keeps_consistent : IsPreorder KeepsConsistent
keeps_consistent = record {
  refl_lem = λ w. record { at = λ h. h };
  trans = λ u v w h k. record { at = λ c. k.at (h.at c) };
}

module _ {Row : Type 0} (clash : Row → Row → Bool)
    (comm : (a b : Row) → clash a b ≡ clash b a) where
  any-append_one :
      (r obj : Row) (rows : List Row)
      → any (clash r) rows ≡ false
      → clash obj r ≡ false
      → any (clash r) (rows ++ obj ∷ []) ≡ false
  any-append_one r obj [] h e = rw (comm r obj, e)
  any-append_one r obj (s ∷ rows) h e = ground (arith, any-append_one r obj rows)

  Unique-append_one :
      (obj : Row) (rows : List Row)
      → Unique clash rows
      → any (clash obj) rows ≡ false
      → Unique clash (rows ++ obj ∷ [])
  Unique-append_one obj [] h e = (refl, tt)
  Unique-append_one obj (r ∷ rows) h e =
      (any-append_one r obj rows h.0 (ground arith), Unique-append_one obj rows h.1 (ground arith))

any-filter {ℓ} :
    {A : Type ℓ} (p q : A → Bool) (xs : List A) → any p xs ≡ false → any p (filter q xs) ≡ false
any-filter p q [] h = refl
any-filter p q (x ∷ xs) h = ground (arith, any-filter p q xs)

Unique-filter :
    {Row : Type 0} (clash : Row → Row → Bool) (q : Row → Bool) (rows : List Row)
    → Unique clash rows
    → Unique clash (filter q rows)
Unique-filter clash q [] h = tt
Unique-filter clash q (r ∷ rows) h = elim (Bool-cases (q r)) [
  | inl e ↦ rw e (any-filter (clash r) q rows h.0, Unique-filter clash q rows h.1)
  | inr e ↦ rw e (Unique-filter clash q rows h.1)
]

module _ {Row : Type 0} ⦃m : Model Row⦄ where
  abbrev clash : Row → Row → Bool
  clash a b = m.id a == m.id b || m.unique_clash a b

  clash_comm : (a b : Row) → clash a b ≡ clash b a
  clash_comm a b = ap₂ ◌||◌ (beq_comm (m.id a) (m.id b)) (m.unique_clash_comm a b)

  -- the row that an UPDATE writes in the place of `r`
  abbrev updated : Gucs → Row → Row → Row
  updated g obj r = if is_row_of g obj r then obj else r

  -- `obj` clashes with no row but the one that it replaces
  abbrev Fits : Row → List Row → Type 0
  Fits obj rows = any (λ r. not (m.id r == m.id obj) && m.unique_clash obj r) rows ≡ false

  -- a row with another id than `obj` keeps clear of the updated rows
  any-map-updated :
      (g : Gucs) (obj r : Row) (rows : List Row)
      → clash r obj ≡ false
      → any (clash r) rows ≡ false
      → any (clash r) (map (updated g obj) rows) ≡ false
  any-map-updated g obj r [] e h = refl
  any-map-updated g obj r (s ∷ rows) e h = ground (arith, any-map-updated g obj r rows)

  -- where no row has the id of `obj`, an UPDATE changes nothing
  map-updated_none :
      (g : Gucs) (obj : Row) (rows : List Row)
      → any (λ s. m.id obj == m.id s) rows ≡ false
      → map (updated g obj) rows ≡ rows
  unfolding is_row_of
  map-updated_none g obj [] h = refl
  map-updated_none g obj (s ∷ rows) h = ground (arith, map-updated_none g obj rows)

  -- the rows beside `r` have other ids than the object that replaces it
  other_ids :
      (obj r : Row) (rows : List Row)
      → m.id r ≡ m.id obj
      → any (clash r) rows ≡ false
      → any (λ s. m.id obj == m.id s) rows ≡ false
  other_ids obj r [] e h = refl
  other_ids obj r (s ∷ rows) e h = ground (arith, other_ids obj r rows)

  Fits-beside :
      (obj r : Row) (rows : List Row)
      → m.id r ≡ m.id obj
      → any (clash r) rows ≡ false
      → Fits obj rows
      → any (clash obj) rows ≡ false
  Fits-beside obj r [] e h f = refl
  Fits-beside obj r (s ∷ rows) e h f = ground (arith, Fits-beside obj r rows)

  not_row_of : (g : Gucs) (obj r : Row) → (m.id r == m.id obj) ≡ false → is_row_of g obj r ≡ false
  unfolding is_row_of
  not_row_of g obj r e = ground arith

  Unique-map-updated :
      (g : Gucs) (obj : Row) (rows : List Row)
      → Unique clash rows
      → Fits obj rows
      → Unique clash (map (updated g obj) rows)
  Unique-map-updated g obj [] h f = tt
  Unique-map-updated g obj (r ∷ rows) h f =
      let rest : Unique clash (map (updated g obj) rows) =
        Unique-map-updated g obj rows h.1 (ground arith) in
      elim (Bool-cases (m.id r == m.id obj)) [
        | inl same ↦
            let e : m.id r ≡ m.id obj = ground arith in
            let still = map-updated_none g obj rows (other_ids obj r rows e h.0) in
            elim (Bool-cases (is_row_of g obj r)) [
              | inl replaced ↦
                  rw (replaced, still) (Fits-beside obj r rows e h.0 (ground arith), h.1)
              | inr kept ↦ rw (kept, still) h
            ]
        | inr other ↦
            let kept : is_row_of g obj r ≡ false = not_row_of g obj r other in
            let clear : clash r obj ≡ false = rw (clash_comm r obj) (ground arith) in
            rw kept (any-map-updated g obj r rows clear h.0, rest)
      ]

  pub add-KeepsConsistent : (obj : Row) → Obeys KeepsConsistent (add obj)
  unfolding add
  add-KeepsConsistent obj = record {
    at = λ w. record {
      at = λ c. elim (Bool-cases (policy w.gucs (m.tenant_id obj))) [
        | inl p ↦ elim (Bool-cases (any (clashes obj) (m.table w.db))) [
          | inl e ↦ rw (p, e) c
          | inr e ↦
              rw (p, e)
                (m.set_table-IsConsistent w.db _ c
                  (Unique-append_one clash clash_comm obj (m.table w.db) (m.table-Unique w.db c) e))
        ]
        | inr p ↦ rw p c
      ];
    };
  }

  pub flush-KeepsConsistent : (obj : Row) → Obeys KeepsConsistent (flush obj)
  unfolding flush
  flush-KeepsConsistent obj = record {
    at = λ w. record {
      at = λ c. elim (Bool-cases (policy w.gucs (m.tenant_id obj))) [
        | inl p ↦
            elim (Bool-cases
              (any (λ r. not (m.id r == m.id obj) && m.unique_clash obj r) (m.table w.db))) [
                | inl e ↦ rw (p, e) c
                | inr e ↦
                    rw (p, e)
                      (m.set_table-IsConsistent w.db _ c
                        (Unique-map-updated w.gucs obj (m.table w.db) (m.table-Unique w.db c) e))
              ]
        | inr p ↦ rw p c
      ];
    };
  }

  pub delete_row-KeepsConsistent : (obj : Row) → Obeys KeepsConsistent (delete_row obj)
  unfolding delete_row
  delete_row-KeepsConsistent obj = record {
    at = λ w. record {
      at = λ c.
          m.set_table-IsConsistent w.db _ c
            (Unique-filter clash _ (m.table w.db) (m.table-Unique w.db c));
    };
  }

  -- values that no constraint reads
  abbrev pub KeepsKeys : (Row → Row) → Type 0
  KeepsKeys values =
      (a b : Row) → (m.id (values a) ≡ m.id a) × (m.unique_clash (values a) b ≡ m.unique_clash a b)

  clash-update_row :
      (g : Gucs) (condition : Row → Bool) (values : Row → Row)
      → KeepsKeys values
      → (a b : Row) → clash (update_row g condition values a) b ≡ clash a b
  clash-update_row g condition values keep a b =
      elim (Bool-cases (policy g (m.tenant_id a) && condition a)) [
        | inl e ↦ rw (e, (keep a b).0, (keep a b).1) refl
        | inr e ↦ rw e refl
      ]

  any-map-update_row :
      (g : Gucs) (condition : Row → Bool) (values : Row → Row)
      → KeepsKeys values
      → (a : Row) (rows : List Row)
      → any (clash a) (map (update_row g condition values) rows) ≡ any (clash a) rows
  any-map-update_row g condition values keep a [] = refl
  any-map-update_row g condition values keep a (b ∷ rows) =
      let f = update_row g condition values in
      let head : clash a (f b) ≡ clash a b =
        clash_comm a (f b) ∙ clash-update_row g condition values keep b a ∙ clash_comm b a in
      ap₂ ◌||◌ head (any-map-update_row g condition values keep a rows)

  any-clash_congr :
      (a b : Row) (rows : List Row)
      → ((r : Row) → clash a r ≡ clash b r)
      → any (clash a) rows ≡ any (clash b) rows
  any-clash_congr a b [] h = refl
  any-clash_congr a b (r ∷ rows) h = ap₂ ◌||◌ (h r) (any-clash_congr a b rows h)

  Unique-map-update_row :
      (g : Gucs) (condition : Row → Bool) (values : Row → Row)
      → KeepsKeys values
      → (rows : List Row) → Unique clash rows
      → Unique clash (map (update_row g condition values) rows)
  Unique-map-update_row g condition values keep [] h = tt
  Unique-map-update_row g condition values keep (r ∷ rows) h = (
    any-map-update_row g condition values keep (update_row g condition values r) rows
        ∙ any-clash_congr _ r rows (clash-update_row g condition values keep r)
        ∙ h.0,
    Unique-map-update_row g condition values keep rows h.1,
  )

  pub update_where-KeepsConsistent :
      (condition : Row → Bool) (values : Row → Row)
      → KeepsKeys values
      → Obeys KeepsConsistent (update_where condition values)
  unfolding update_where
  update_where-KeepsConsistent condition values keep = record {
    at = λ w. record {
      at = λ c. m.set_table-IsConsistent w.db _ c (
          Unique-map-update_row w.gucs condition values keep (m.table w.db)
            (m.table-Unique w.db c));
    };
  }
