-- ===== src/Events/Bus.antt =====
-- `EventBus` of app/core/events/bus.py, over any state that the handlers work on. `asyncio.gather`
-- interleaves the handlers of one event; the model runs them one after another, in their order.
use lms_backend.Base.{List, [], ◌∷◌, ◌++◌, if◌then◌else◌}
use lms_backend.Shared.Errors.{Error, Result, ok, err}
use lms_backend.Events.Types.{DomainEvent, EventType, is_instance, type_eq}

abbrev pub Handler : Type 0 → Type 0
Handler S = DomainEvent → S → Result (Unit {0}) × S

-- `_handlers`: the handlers of each class, the classes in the order of their first subscription.
abbrev pub EventBus : Type 0 → Type 0
EventBus S = List (EventType × List (Handler S))

-- a failure is logged
abbrev pub logged : Result (Unit {0}) → List Error → List Error
logged (ok _) errors = errors
logged (err e) errors = e ∷ errors

module _ {S : Type 0} where
  -- `subscribe`: `self._handlers[event_type].append(handler)` on a `defaultdict`
  unfoldable pub subscribe : EventType → Handler S → EventBus S → EventBus S
  subscribe etype handler [] = (etype, handler ∷ []) ∷ []
  subscribe etype handler ((t, hs) ∷ bus) =
      if type_eq etype t
      then (t, hs ++ handler ∷ []) ∷ bus
      else (t, hs) ∷ subscribe etype handler bus

  -- `_resolve`
  unfoldable pub resolve : EventBus S → DomainEvent → List (Handler S)
  resolve [] event = []
  resolve ((t, hs) ∷ bus) event =
      if is_instance event.payload t then hs ++ resolve bus event else resolve bus event

  -- `gather(..., return_exceptions=True)`: the errors that are logged, and the state
  unfoldable pub gather : List (Handler S) → DomainEvent → S → List Error × S
  gather [] event s = ([], s)
  gather (h ∷ hs) event s =
      let (r, s') = h event s in let (errors, s'') = gather hs event s' in (logged r errors, s'')

  unfoldable pub publish : EventBus S → DomainEvent → S → List Error × S
  unfolding resolve gather
  publish bus event s = gather (resolve bus event) event s
