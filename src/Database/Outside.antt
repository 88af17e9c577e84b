-- ===== src/Database/Outside.antt =====
-- Row-level security on writes: a transaction that is bound to a tenant, without the bypass, leaves
-- the rows of every other tenant as they are.
use lms_backend.Base.{
  ◌≡◌, refl, ◌∙◌, sym, Bool, true, false, not, some, List, [], ◌∷◌, ◌++◌, ◌==◌, nat_eq, filter,
  filter-append, filter-map, any, map, arith, Bool-cases, inl, inr, if◌then◌else◌, and_elim, ◌&&◌,
}
use mathlib.Core.List.{append-nil}
use lms_backend.Models.{Uuid}
use lms_backend.Store.{World, Db, Gucs}
use lms_backend.Store.Relations.{IsPreorder, Obeys}
use lms_backend.Database.Policy.{policy, others}
use lms_backend.Database.Model.{Model, SameOutside}
use lms_backend.Database.Repository.{
  add, flush, delete_row, is_row_of, clashes, update_row, update_where,
}

-- The settings of a request of tenant `t`.
abbrev pub scoped_to : Uuid → Gucs
scoped_to t = record { tenant_id = some t; bypass_rls = false }

pub SameOutside-refl : (t : Uuid) (d : Db) → SameOutside t d d
SameOutside-refl t d = record {
  users = refl;
  roles = refl;
  user_sessions = refl;
  courses = refl;
  course_enrollments = refl;
  lessons = refl;
  lesson_progress = refl;
  assignments = refl;
  submissions = refl;
  grades = refl;
}

pub SameOutside-trans :
    (t : Uuid) {d e f : Db} → SameOutside t d e → SameOutside t e f → SameOutside t d f
SameOutside-trans t h k = record {
  users = h.users ∙ k.users;
  roles = h.roles ∙ k.roles;
  user_sessions = h.user_sessions ∙ k.user_sessions;
  courses = h.courses ∙ k.courses;
  course_enrollments = h.course_enrollments ∙ k.course_enrollments;
  lessons = h.lessons ∙ k.lessons;
  lesson_progress = h.lesson_progress ∙ k.lesson_progress;
  assignments = h.assignments ∙ k.assignments;
  submissions = h.submissions ∙ k.submissions;
  grades = h.grades ∙ k.grades;
}

-- From `w` to `w'` nothing has changed outside the tenant that the transaction is bound to.
pub record Confines (w w' : World) : Type 0 where
  pub at : (t : Uuid) → w.gucs ≡ scoped_to t → (w'.gucs ≡ scoped_to t) × SameOutside t w.db w'.db

pub confines : IsPreorder Confines
confines = record {
  refl_lem = λ w. record { at = λ t g. (g, SameOutside-refl t w.db) };
  trans = λ u v w h k. record {
    at = λ t g.
        let (g', s) = h.at t g in let (g'', s') = k.at t g' in (g'', SameOutside-trans t s s');
  };
}

-- Under such settings the policy admits the tenant's own rows and no others.
pub policy-scoped_to : (t tid : Uuid) → policy (scoped_to t) tid ≡ (tid == t)
unfolding policy
policy-scoped_to t tid = ground arith

-- The policy shows no row of another tenant.
pub not_other : (t tid : Uuid) → policy (scoped_to t) tid ≡ true → not (tid == t) ≡ false
unfolding policy
not_other t tid h = ground arith

module _ {Row : Type 0} ⦃m : Model Row⦄ where
  -- appending a row of the tenant itself
  others-append :
      (t : Uuid) (rows : List Row) (obj : Row)
      → policy (scoped_to t) (m.tenant_id obj) ≡ true
      → others m.tenant_id t rows ≡ others m.tenant_id t (rows ++ obj ∷ [])
  unfolding others
  others-append t rows obj p = rw (filter-append, not_other t (m.tenant_id obj) p, append-nil) refl

  not_other_row :
      (t : Uuid) (obj r : Row)
      → is_row_of (scoped_to t) obj r ≡ true
      → not (m.tenant_id r == t) ≡ false
  unfolding is_row_of
  not_other_row t obj r e = not_other t (m.tenant_id r) (and_elim _ _ e).1

  -- rewriting visible rows into rows of the tenant
  others-map :
      (t : Uuid) (rows : List Row) (obj : Row)
      → policy (scoped_to t) (m.tenant_id obj) ≡ true
      → others m.tenant_id t rows
        ≡ others m.tenant_id t (map (λ r. if is_row_of (scoped_to t) obj r then obj else r) rows)
  unfolding others
  others-map t rows obj p = sym (
      filter-map _ _ rows λ r. elim (Bool-cases (is_row_of (scoped_to t) obj r)) [
        | inl e ↦ rw e (inr (not_other_row t obj r e, not_other t (m.tenant_id obj) p))
        | inr e ↦ rw e (inl refl)
      ])

  -- removing visible rows
  others-filter :
      (t : Uuid) (rows : List Row) (obj : Row)
      → others m.tenant_id t rows
        ≡ others m.tenant_id t (filter (λ r. not (is_row_of (scoped_to t) obj r)) rows)
  unfolding others
  others-filter t [] obj = refl
  others-filter t (r ∷ rows) obj = elim (Bool-cases (is_row_of (scoped_to t) obj r)) [
    | inl e ↦ rw (e, not_other_row t obj r e) (others-filter t rows obj)
    | inr e ↦ rw (e, others-filter t rows obj) refl
  ]

  pub add-Confines : (obj : Row) → Obeys Confines (add obj)
  unfolding add
  add-Confines obj = record {
    at = λ w. record {
      at = λ t g. elim (Bool-cases (policy w.gucs (m.tenant_id obj))) [
        | inl p ↦ elim (Bool-cases (any (clashes obj) (m.table w.db))) [
          | inl c ↦ rw (p, c) (g, SameOutside-refl t w.db)
          | inr c ↦
              rw (p, c)
                (g, m.set_table-outside t w.db _ (others-append t (m.table w.db) obj (rw g at p)))
        ]
        | inr p ↦ rw p (g, SameOutside-refl t w.db)
      ];
    };
  }

  pub flush-Confines : (obj : Row) → Obeys Confines (flush obj)
  unfolding flush
  flush-Confines obj = record {
    at = λ w. record {
      at = λ t g. elim (Bool-cases (policy w.gucs (m.tenant_id obj))) [
        | inl p ↦
            elim (Bool-cases
              (any (λ r. not (m.id r == m.id obj) && m.unique_clash obj r) (m.table w.db))) [
                | inl c ↦ rw (p, c) (g, SameOutside-refl t w.db)
                | inr c ↦
                    rw (p, c)
                      (
                        g,
                        m.set_table-outside t w.db _
                            (rw g (others-map t (m.table w.db) obj (rw g at p))),
                      )
              ]
        | inr p ↦ rw p (g, SameOutside-refl t w.db)
      ];
    };
  }

  pub delete_row-Confines : (obj : Row) → Obeys Confines (delete_row obj)
  unfolding delete_row
  delete_row-Confines obj = record {
    at = λ w. record {
      at = λ t g. (g, m.set_table-outside t w.db _ (rw g (others-filter t (m.table w.db) obj)));
    };
  }

  others-map-update_row :
      (t : Uuid) (condition : Row → Bool) (values : Row → Row) (rows : List Row)
      → ((r : Row) → m.tenant_id (values r) ≡ m.tenant_id r)
      → others m.tenant_id t rows
        ≡ others m.tenant_id t (map (update_row (scoped_to t) condition values) rows)
  unfolding others
  others-map-update_row t condition values rows keep = sym (
      filter-map _ _ rows λ r.
        elim (Bool-cases (policy (scoped_to t) (m.tenant_id r) && condition r)) [
          | inl e ↦
              let own = not_other t (m.tenant_id r) (and_elim _ _ e).0 in
              rw e (inr (own, rw (keep r) own))
          | inr e ↦ rw e (inl refl)
        ])

  pub update_where-Confines :
      (condition : Row → Bool) (values : Row → Row)
      → ((r : Row) → m.tenant_id (values r) ≡ m.tenant_id r)
      → Obeys Confines (update_where condition values)
  unfolding update_where
  update_where-Confines condition values keep = record {
    at = λ w. record {
      at = λ t g. (
        g,
        m.set_table-outside t w.db _
            (rw g (others-map-update_row t condition values (m.table w.db) keep)),
      );
    };
  }
