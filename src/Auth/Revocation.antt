-- ===== src/Auth/Revocation.antt =====
-- What revoking a session does to the sessions that are open under its id.
use lms_backend.Base.{
  ◌≡◌, refl, ap, ◌∙◌, Bool, true, false, ◌&&◌, some, List, [], ◌∷◌, map, All, All-map,
  All-filter_mem, filter, any, ◌==◌, nat_eq, beq_refl, is_none, Bool-cases, inl, inr, and_elim,
  arith, if◌then◌else◌, ◌⊎◌, string_eq,
}
use lms_backend.Shared.Errors.{ok}
use lms_backend.Models.{Uuid, Time, UserSession}
use lms_backend.Store.{World, Gucs}
use lms_backend.Database.{flush, is_row_of, policy}
use lms_backend.Database.Written.{flush-ok}
use lms_backend.Database.Tables.{user_model, user_session_model}
use lms_backend.Auth.Rotation.{or_right, visible, Closed, IsSpent}

module _ {A : Type 0} (p : A → Bool) where
  pub none_pass : (xs : List A) → filter p xs ≡ [] → All (λ x. p x ≡ false) xs
  none_pass [] h = tt
  none_pass (x ∷ xs) h = elim (Bool-cases (p x)) [
    | inl e ↦ ground arith
    | inr e ↦ (e, none_pass xs (rw e at h))
  ]

pub last_closed : (a b c : Bool) → c ≡ false → (a && b && c) ≡ false
last_closed a b c h = ground arith

pub unseen_closed : (a b c : Bool) → (a && b) ≡ false → (a && b && c) ≡ false
unseen_closed a b c h = ground arith

-- After an update of the one row that a query finds, no row that the query would find is open.
Closed-map :
    (g : Gucs) (jti : Uuid) (obj : UserSession) (rows : List UserSession)
    → is_none obj.revoked_at ≡ false
    → All (λ s. (visible g jti s ≡ false) ⊎ (is_row_of g obj s ≡ true)) rows
    → Closed g jti (map (λ r. if is_row_of g obj r then obj else r) rows)
Closed-map g jti obj [] h a = tt
Closed-map g jti obj (s ∷ rows) h a = (
  elim (Bool-cases (is_row_of g obj s)) [
    | inl e ↦
        rw e (last_closed (policy g obj.tenant_id) (obj.jti == jti) (is_none obj.revoked_at) h)
    | inr e ↦ elim a.0 [
      | inl unseen ↦
          rw e (unseen_closed (policy g s.tenant_id) (s.jti == jti) (is_none s.revoked_at) unseen)
      | inr row ↦ ground (arith, e, row)
    ]
  ],
  Closed-map g jti obj rows h a.1,
)

pub one_passes :
    {A : Type 0} (p q : A → Bool) (a : A) (xs : List A)
    → filter p xs ≡ a ∷ []
    → q a ≡ true
    → All (λ x. (p x ≡ false) ⊎ (q x ≡ true)) xs
one_passes p q a [] h k = tt
one_passes p q a (x ∷ xs) h k = elim (Bool-cases (p x)) [
  | inl e ↦
      let kept : x ∷ filter p xs ≡ a ∷ [] = rw e at h in
      let same : x ≡ a = ground arith in
      let rest : filter p xs ≡ [] = ground arith in
      (inr (ap q same ∙ k), All-map _ _ (λ y n. inl n) xs (none_pass p xs rest))
  | inr e ↦ (inl e, one_passes p q a xs (rw e at h) k)
]

present_map :
    (g : Gucs) (jti : Uuid) (obj : UserSession) (rows : List UserSession)
    → (obj.jti == jti) ≡ true
    → any (λ (s : UserSession). s.jti == jti) rows ≡ true
    → any (λ (s : UserSession). s.jti == jti) (map (λ r. if is_row_of g obj r then obj else r) rows)
      ≡ true
present_map g jti obj [] h k = k
present_map g jti obj (s ∷ rows) h k = elim (Bool-cases (is_row_of g obj s)) [
  | inl e ↦ rw (e, h) refl
  | inr e ↦ elim (Bool-cases (s.jti == jti)) [
    | inl f ↦ rw (e, f) refl
    | inr f ↦ rw (e, f) (present_map g jti obj rows h (or_right _ _ k f))
  ]
]

unseen : (a b : Bool) → b ≡ false → (a && b) ≡ false
unseen a b h = ground arith

present_one :
    (g : Gucs) (jti : Uuid) (a : UserSession) (rows : List UserSession)
    → filter (visible g jti) rows ≡ a ∷ []
    → any (λ (s : UserSession). s.jti == jti) rows ≡ true
present_one g jti a [] h = ground arith
present_one g jti a (s ∷ rows) h = elim (Bool-cases (s.jti == jti)) [
  | inl f ↦ rw f refl
  | inr f ↦
      rw f (present_one g jti a rows (rw (unseen (policy g s.tenant_id) (s.jti == jti) f) at h))
]

pub flush-sessions :
    (obj : UserSession) (w : World) (u : Unit {0})
    → (flush {Row = UserSession} obj w).0 ≡ ok u
    → (flush {Row = UserSession} obj w).1 ≡ record w {
      db = record w.db {
        user_sessions =
            map
              (λ r. if is_row_of {Row = UserSession} w.gucs obj r then obj else r)
              w.db.user_sessions;
      };
    }
flush-sessions obj w u h = (flush-ok {Row = UserSession} obj w u h).1

row_of_itself :
    (g : Gucs) (now : Time) (s : UserSession)
    → policy g s.tenant_id ≡ true
    → is_row_of {Row = UserSession} g (record s { revoked_at = some now }) s ≡ true
unfolding is_row_of
row_of_itself g now s h = rw (beq_refl s.id, h) refl

-- Revoking the session that was found under an id spends the id.
pub revoke-IsSpent :
    (jti : Uuid) (now : Time) (s : UserSession) (w : World)
    → filter (visible w.gucs jti) w.db.user_sessions ≡ s ∷ []
    → IsSpent w.gucs jti (
        map
          (λ r.
            if is_row_of {Row = UserSession} w.gucs (record s { revoked_at = some now }) r
            then record s { revoked_at = some now }
            else r)
          w.db.user_sessions)
revoke-IsSpent jti now s w one =
    let seen = (rw one at (All-filter_mem (visible w.gucs jti) w.db.user_sessions)).0.1 in
    let (policy_ok, same_jti) = and_elim (policy w.gucs s.tenant_id) (s.jti == jti) seen in
    let obj = record s { revoked_at = some now } in
    record {
      present =
          present_map w.gucs jti obj w.db.user_sessions same_jti
            (present_one w.gucs jti s w.db.user_sessions one);
      closed = Closed-map w.gucs jti obj w.db.user_sessions refl (
          one_passes (visible w.gucs jti) (is_row_of w.gucs obj) s w.db.user_sessions one
            (row_of_itself w.gucs now s policy_ok));
    }
