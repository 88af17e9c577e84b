-- ===== src/Models/AuditLogs.antt =====
-- app/core/audit/models.py. A JSON value is one of the kinds that the events put into it.
use lms_backend.Base.{String, Bool, Option, List}
use lms_backend.Models.Tenants.{Uuid, Time}
use lms_backend.Models.Grading.{Points}

pub data Value : Type 0 where
  null : Value
  text : String → Value
  uuid : Uuid → Value
  number : Points → Value
  flag : Bool → Value

abbrev pub Values : Type 0
Values = List (String × Value)

pub record AuditLog : Type 0 where
  pub id : Uuid
  pub tenant_id : Uuid
  pub user_id : Option Uuid
  pub action : String
  pub resource : String
  pub resource_id : Option Uuid
  pub old_values : Option Values
  pub new_values : Option Values
  pub ip_address : Option String
  pub created_at : Time
