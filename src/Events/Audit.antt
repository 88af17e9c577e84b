-- ===== src/Events/Audit.antt =====
-- app/core/audit: `write_audit` and the consumer `audit_domain_event`, and the bus as
-- app/registry.py fills it.
use lms_backend.Base.{
  suc, ◌≡◌, refl, false, Option, none, some, [], ◌∷◌, ◌++◌, nat_eq, arith, if◌then◌else◌,
}
use lms_backend.Shared.Errors.{Result, ok, err, policy_violation}
use lms_backend.Models.{Uuid, AuditLog}
use lms_backend.Store.{World, Action, case_option, ◌>>=◌, uuid4, get_now}
use lms_backend.Store.Relations.{Obeys}
use lms_backend.Database.{policy, bind_rls, no_gucs}
use lms_backend.Database.Rules.{IsStoreRelation, store_rules}
use lms_backend.Events.Types.{DomainEvent, Payload, Descriptor, audit, domain_event}
use lms_backend.Events.Bus

-- The INSERT of `write_audit`, in a transaction of its own that is bound to the tenant.
unfoldable pub write_audit : Uuid → Option Uuid → Descriptor → Action (Unit {0})
write_audit tenant_id user_id d w =
    let gucs = bind_rls w.settings.enable_row_level_security (some tenant_id) false no_gucs in
    let entry : AuditLog = record {
      id = w.next_id;
      tenant_id = tenant_id;
      user_id = user_id;
      action = d.action;
      resource = d.resource;
      resource_id = d.resource_id;
      old_values = none;
      new_values = d.new_values;
      ip_address = none;
      created_at = w.now;
    } in
    if policy gucs tenant_id
    then (ok tt, record w { audit_logs = w.audit_logs ++ entry ∷ []; next_id = suc w.next_id })
    else (err policy_violation, w)

unfoldable pub audit_domain_event : Bus.Handler World
unfolding write_audit
audit_domain_event event w =
    case_option (audit event.payload event.user_id) (ok tt, w)
      (λ d. case_option event.tenant_id (ok tt, w) (λ tid. write_audit tid event.user_id d w))

-- `event_bus`, once app/registry.py has been imported
unfoldable pub event_bus : Bus.EventBus World
unfolding audit_domain_event
event_bus = Bus.subscribe domain_event audit_domain_event []

-- `await event_bus.publish(event)`: errors of handlers are logged, never raised
unfoldable pub deliver : DomainEvent → Action (Unit {0})
unfolding event_bus
deliver event w = (ok tt, (Bus.publish event_bus event w).1)

-- The same for an event that is made on the spot, with its id and its time.
unfoldable pub publish : Option Uuid → Option Uuid → Payload → Action (Unit {0})
publish tenant_id user_id payload = do
  event_id ← uuid4
  occurred_at ← get_now
  deliver (record {
    event_id = event_id;
    occurred_at = occurred_at;
    tenant_id = tenant_id;
    user_id = user_id;
    payload = payload;
  })

-- The audit log lies outside the tables, and in a transaction of its own.
pub deliver_aside :
    (event : DomainEvent) (w : World)
    → ((deliver event w).1.db ≡ w.db) × ((deliver event w).1.gucs ≡ w.gucs)
unfolding deliver Bus.publish Bus.subscribe case_option
deliver_aside event w = ground arith

pub Obeys-deliver :
    {R : World → World → Type 0} (s : IsStoreRelation R) (event : DomainEvent)
    → Obeys R (deliver event)
Obeys-deliver s event = record {
  at = λ w. s.aside w _ (deliver_aside event w).0 (deliver_aside event w).1;
}

pub Obeys-publish :
    {R : World → World → Type 0} (s : IsStoreRelation R) (tenant_id user_id : Option Uuid)
    (payload : Payload)
    → Obeys R (publish tenant_id user_id payload)
unfolding publish
Obeys-publish s tenant_id user_id payload = search (store_rules, Obeys-deliver)

-- Publishing an event leaves the tables as they are.
pub publish_aside :
    (tenant_id user_id : Option Uuid) (payload : Payload) (w : World)
    → (publish tenant_id user_id payload w).1.db ≡ w.db
unfolding publish ◌>>=◌
publish_aside tenant_id user_id payload w = (deliver_aside _ _).0

-- What else publishing leaves as it is.
pub record Published (w : World) (o : Result (Unit {0}) × World) : Type 0 where
  pub value : o.0 ≡ ok tt
  pub db : o.1.db ≡ w.db
  pub gucs : o.1.gucs ≡ w.gucs
  pub ctx : o.1.ctx ≡ w.ctx

deliver_ctx : (event : DomainEvent) (w : World) → (deliver event w).1.ctx ≡ w.ctx
unfolding deliver Bus.publish Bus.subscribe case_option
deliver_ctx event w = ground arith

pub publish-Published :
    (tenant_id user_id : Option Uuid) (payload : Payload) (w : World)
    → Published w (publish tenant_id user_id payload w)
unfolding publish ◌>>=◌ deliver
publish-Published tenant_id user_id payload w = record {
  value = refl;
  db = (deliver_aside _ _).0;
  gucs = (deliver_aside _ _).1;
  ctx = deliver_ctx _ _;
}
