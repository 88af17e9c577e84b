-- ===== src/Events/Types.antt =====
-- app/core/events/base.py and the events.py of each module. The classes form one level under
-- `DomainEvent`: a payload says which class an event is of.
use lms_backend.Base.{String, Bool, true, false, Option, none, some, [], ◌∷◌}
use lms_backend.Models.{Uuid, Time, Points, Values, text, uuid, number, flag}

pub data AuthEvent : Type 0 where
  user_registered : String → AuthEvent
  user_logged_in : String → AuthEvent
  user_updated : Values → AuthEvent

pub data CourseEvent : Type 0 where
  course_created : Uuid → String → CourseEvent
  course_enrolled : Uuid → Uuid → CourseEvent

pub data LearningEvent : Type 0 where
  lesson_completed : Uuid → Uuid → LearningEvent

pub data AssignmentEvent : Type 0 where
  assignment_submitted : Uuid → Uuid → AssignmentEvent
  submission_graded : Uuid → Points → Bool → AssignmentEvent

pub data Payload : Type 0 where
  -- a bare `DomainEvent`
  bare : Payload
  auth : AuthEvent → Payload
  course : CourseEvent → Payload
  learning : LearningEvent → Payload
  assignment : AssignmentEvent → Payload

pub record DomainEvent : Type 0 where
  pub event_id : Uuid
  pub occurred_at : Time
  pub tenant_id : Option Uuid
  pub user_id : Option Uuid
  pub payload : Payload

-- The classes that handlers are registered for.
pub data EventType : Type 0 where
  domain_event user_registered_event user_logged_in_event user_updated_event : EventType
  course_created_event course_enrolled_event lesson_completed_event : EventType
  assignment_submitted_event submission_graded_event : EventType

-- `type(event)`
abbrev pub class_of : Payload → EventType
class_of bare = domain_event
class_of (auth (user_registered _)) = user_registered_event
class_of (auth (user_logged_in _)) = user_logged_in_event
class_of (auth (user_updated _)) = user_updated_event
class_of (course (course_created _ _)) = course_created_event
class_of (course (course_enrolled _ _)) = course_enrolled_event
class_of (learning (lesson_completed _ _)) = lesson_completed_event
class_of (assignment (assignment_submitted _ _)) = assignment_submitted_event
class_of (assignment (submission_graded _ _ _)) = submission_graded_event

-- two classes are the same
abbrev pub type_eq : EventType → EventType → Bool
type_eq domain_event domain_event = true
type_eq user_registered_event user_registered_event = true
type_eq user_logged_in_event user_logged_in_event = true
type_eq user_updated_event user_updated_event = true
type_eq course_created_event course_created_event = true
type_eq course_enrolled_event course_enrolled_event = true
type_eq lesson_completed_event lesson_completed_event = true
type_eq assignment_submitted_event assignment_submitted_event = true
type_eq submission_graded_event submission_graded_event = true
type_eq _ _ = false

-- `isinstance(event, etype)`: every class is under `DomainEvent`, and under no other but itself.
unfoldable pub is_instance : Payload → EventType → Bool
is_instance p domain_event = true
is_instance p etype = type_eq (class_of p) etype

-- The dictionary that `audit()` returns.
pub record Descriptor : Type 0 where
  pub action : String
  pub resource : String
  pub resource_id : Option Uuid
  pub new_values : Option Values

-- `audit()` of app/modules/auth/events.py; `user` is the event's `user_id`
unfoldable pub auth_audit : AuthEvent → Option Uuid → Descriptor
auth_audit (user_registered email) user = record {
  action = "user.registered";
  resource = "user";
  resource_id = user;
  new_values = some (("email", text email) ∷ []);
}
auth_audit (user_logged_in email) user = record {
  action = "auth.login";
  resource = "user";
  resource_id = user;
  new_values = none;
}
auth_audit (user_updated changes) user = record {
  action = "user.updated";
  resource = "user";
  resource_id = user;
  new_values = some changes;
}

-- app/modules/courses/events.py
unfoldable pub course_audit : CourseEvent → Descriptor
course_audit (course_created course_id title) = record {
  action = "course.created";
  resource = "course";
  resource_id = some course_id;
  new_values = some (("title", text title) ∷ []);
}
course_audit (course_enrolled course_id enrollment_id) = record {
  action = "course.enrolled";
  resource = "enrollment";
  resource_id = some enrollment_id;
  new_values = some (("course_id", uuid course_id) ∷ []);
}

-- app/modules/learning/events.py
unfoldable pub learning_audit : LearningEvent → Descriptor
learning_audit (lesson_completed lesson_id course_id) = record {
  action = "lesson.completed";
  resource = "lesson";
  resource_id = some lesson_id;
  new_values = some (("course_id", uuid course_id) ∷ []);
}

-- app/modules/assignments/events.py
unfoldable pub assignment_audit : AssignmentEvent → Descriptor
assignment_audit (assignment_submitted assignment_id submission_id) = record {
  action = "assignment.submitted";
  resource = "submission";
  resource_id = some submission_id;
  new_values = some (("assignment_id", uuid assignment_id) ∷ []);
}
assignment_audit (submission_graded submission_id points is_auto) = record {
  action = "submission.graded";
  resource = "submission";
  resource_id = some submission_id;
  new_values = some (("points", number points) ∷ ("auto", flag is_auto) ∷ []);
}

-- `event.audit()`: the base class has none
unfoldable pub audit : Payload → Option Uuid → Option Descriptor
unfolding auth_audit course_audit learning_audit assignment_audit
audit bare user = none
audit (auth e) user = some (auth_audit e user)
audit (course e) user = some (course_audit e)
audit (learning e) user = some (learning_audit e)
audit (assignment e) user = some (assignment_audit e)
