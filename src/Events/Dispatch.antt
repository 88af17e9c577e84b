-- ===== src/Events/Dispatch.antt =====
-- What the bus promises to publishers and subscribers.
use lms_backend.Base.{
  ◌≡◌, refl, sym, ◌∙◌, ap, Bool, true, false, List, [], ◌∷◌, ◌++◌, arith, Bool-cases, inl, inr,
  if◌then◌else◌,
}
use mathlib.Core.List.{append_assoc}
use lms_backend.Events.Types.{DomainEvent, EventType, is_instance, type_eq}
use lms_backend.Events.Bus.{Handler, EventBus, subscribe, resolve}

-- Independent of the bus: each handler acts on the state that the one before it has left, whatever
-- that one returned.
abbrev pub run_all : {S : Type 0} → List (Handler S) → DomainEvent → S → S
run_all [] event s = s
run_all (h ∷ hs) event s = run_all hs event (h event s).1

type_eq-eq : (a b : EventType) → type_eq a b ≡ true → a ≡ b
type_eq-eq a b h = ground arith

-- Beside `before`, the list `after` has `h` at one place if `added` says so, and is the same otherwise.
pub record Inserts {S : Type 0} (h : Handler S) (added : Bool) (before after : List (Handler S))
    : Type 0 where
  pub front : List (Handler S)
  pub back : List (Handler S)
  pub before_lem : before ≡ front ++ back
  pub after_lem : after ≡ (if added then front ++ h ∷ back else front ++ back)

module _ {S : Type 0} (h : Handler S) where
  Inserts-append :
      (added : Bool) (hs before after : List (Handler S))
      → Inserts h added before after
      → Inserts h added (hs ++ before) (hs ++ after)
  Inserts-append true hs before after i = record {
    front = hs ++ i.front;
    back = i.back;
    before_lem = ap (λ l. hs ++ l) i.before_lem ∙ sym (append_assoc hs i.front i.back);
    after_lem = ap (λ l. hs ++ l) i.after_lem ∙ sym (append_assoc hs i.front (h ∷ i.back));
  }
  Inserts-append false hs before after i = record {
    front = hs ++ i.front;
    back = i.back;
    before_lem = ap (λ l. hs ++ l) i.before_lem ∙ sym (append_assoc hs i.front i.back);
    after_lem = ap (λ l. hs ++ l) i.after_lem ∙ sym (append_assoc hs i.front i.back);
  }

  Inserts-here :
      (added : Bool) (hs rest : List (Handler S))
      → Inserts h added
          (if added then hs ++ rest else rest)
          (if added then (hs ++ h ∷ []) ++ rest else rest)
  Inserts-here true hs rest = record {
    front = hs;
    back = rest;
    before_lem = refl;
    after_lem = append_assoc hs (h ∷ []) rest;
  }
  Inserts-here false hs rest = record {
    front = [];
    back = rest;
    before_lem = refl;
    after_lem = refl;
  }

  Inserts-first : (added : Bool) → Inserts h added [] (if added then (h ∷ []) ++ [] else [])
  Inserts-first true = record { front = []; back = []; before_lem = refl; after_lem = refl }
  Inserts-first false = record { front = []; back = []; before_lem = refl; after_lem = refl }

  Inserts-if :
      (added here : Bool) (hs before after : List (Handler S))
      → Inserts h added before after
      → Inserts h added
          (if here then hs ++ before else before)
          (if here then hs ++ after else after)
  Inserts-if added true hs before after i = Inserts-append added hs before after i
  Inserts-if added false hs before after i = i

  -- After a subscription the new handler is called once for each event that is an instance of the
  -- class, for no other event, and the other handlers are called as before, in the same order.
  pub resolve-subscribe :
      (etype : EventType) (bus : EventBus S) (event : DomainEvent)
      → Inserts h
          (is_instance event.payload etype)
          (resolve bus event)
          (resolve (subscribe etype h bus) event)
  unfolding resolve subscribe
  resolve-subscribe etype [] event = Inserts-first (is_instance event.payload etype)
  resolve-subscribe etype ((t, hs) ∷ bus) event = elim (Bool-cases (type_eq etype t)) [
    | inl same ↦
        rw (same, type_eq-eq etype t same)
          (Inserts-here (is_instance event.payload t) hs (resolve bus event))
    | inr other ↦ rw other (
        Inserts-if (is_instance event.payload etype) (is_instance event.payload t) hs _ _
          (resolve-subscribe etype bus event))
  ]
