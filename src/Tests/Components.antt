-- ===== src/Tests/Components.antt =====
-- The properties of the components at concrete inputs.
use lms_backend.Base.{pos, ◌*ℤ◌, ◌≡◌, ◌≢◌, refl, ◌↔◌, arith, none, [], ◌∷◌, Bool, true, false}
use lms_backend.Shared.Errors.{ok, runtime_error}
use lms_backend.Shared.Page.{PageParams, create_page}
use lms_backend.Shared.Paging.{first_pages, create_page-pages}
use lms_backend.Models.{Quiz, QuizQuestion, QuestionType}
use lms_backend.Store.{World, ◌>>=◌, Action, raise}
use lms_backend.Auth.{
  TokenResponse, refresh, refresh_session, get_by_jti, issue_tokens, check_session,
}
use lms_backend.Auth.SingleUse.{refresh-once}
use lms_backend.Auth.Dependencies.{require_permission}
use lms_backend.Api.Permissions.{MayUse, require_permission_iff}
use lms_backend.Security.{
  try_token, decode_token, create_access_token, create_refresh_token, encode_token,
}
use lms_backend.Database.{
  execute, policy, get_or_404, get, select_one, select_where, flush, add, clashes, is_row_of,
}
use lms_backend.Assignments.{exceeds, quiz_points, is_right}
use lms_backend.Assignments.Marks.{exceeds-quiz_points, quiz_points-All}
use lms_backend.Tests.Externals.{toy}
use lms_backend.Tests.Fixtures.{scoped, alice, refresh_claims}

abbrev params : PageParams
params = record { page = 1; size = 2; search = none; sort = none }

create_page-pages_example :
    first_pages (create_page {A = Bool} [] 3 params).pages params (true ∷ false ∷ true ∷ [])
    ≡ true ∷ false ∷ true ∷ []
create_page-pages_example =
    create_page-pages params [] (true ∷ false ∷ true ∷ [])
      (record { page_pos = omega arith; size_pos = omega arith; size_le = omega arith })

-- a request that fails
abbrev failing : Action Bool
failing = raise (runtime_error "failed")

require_permission_iff_example :
    (require_permission ("course:enroll" ∷ []) alice ≡ ok alice)
    ↔ MayUse ("course:enroll" ∷ []) alice
require_permission_iff_example = require_permission_iff ("course:enroll" ∷ []) alice

abbrev question : QuizQuestion
question = record {
  id = 1;
  text = "?";
  type = QuestionType.single;
  points = pos 3;
  order_index = 0;
  answers = record { id = 8; text = "!"; is_correct = true } ∷ [];
}

abbrev quiz : Quiz
quiz = record {
  id = 1;
  time_limit_seconds = 0;
  shuffle_questions = false;
  questions = question ∷ [];
}

exceeds-quiz_points_example :
    exceeds (quiz_points ((1, 8 ∷ []) ∷ []) quiz (pos 100)) (pos 100) ≡ false
exceeds-quiz_points_example =
    exceeds-quiz_points ((1, 8 ∷ []) ∷ []) quiz (pos 100) ((3, refl), tt) (100, refl)

quiz_points-All_example :
    (quiz_points ((1, 8 ∷ []) ∷ []) quiz (pos 100)).num
    ≡ (quiz_points ((1, 8 ∷ []) ∷ []) quiz (pos 100)).den *ℤ pos 100
unfolding is_right
quiz_points-All_example = quiz_points-All ((1, 8 ∷ []) ∷ []) quiz (pos 100) refl (refl, tt)

abbrev tokens : TokenResponse
tokens = record { access_token = "a"; refresh_token = "b"; token_type = "bearer"; expires_in = 2 }

abbrev refreshed : World
refreshed = (refresh toy (toy.encode "k" refresh_claims) scoped).1

refresh-once_example : (refresh toy (toy.encode "k" refresh_claims) refreshed).0 ≢ ok tokens
unfolding refresh refresh_session try_token decode_token get_by_jti execute policy check_session
    get_or_404 get select_one select_where flush add clashes is_row_of issue_tokens
    create_access_token create_refresh_token encode_token ◌>>=◌
refresh-once_example = refresh-once toy refresh_claims scoped refreshed _ tokens refl refl refl refl
