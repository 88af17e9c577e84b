-- ===== src/Assignments/Scoring.antt =====
-- The score of a quiz, in `_auto_grade` of app/modules/assignments/service.py.
use lms_backend.Base.{
  ℤ, pos, ◌+ℤ◌, ◌*ℤ◌, is_zero, Bool, true, false, ◌&&◌, List, [], ◌∷◌, filter, map, all, contains,
  ◌==◌, nat_eq, if◌then◌else◌,
}
use lms_backend.Models.{Uuid, Points, hundredths, QuizQuestion, QuizAnswer, Quiz}
use lms_backend.Assignments.Schemas.{Answers}

-- `answers.get(q.id, [])`
unfoldable pub selected_for : Answers → Uuid → List Uuid
selected_for [] q = []
selected_for ((k, v) ∷ answers) q = if k == q then v else selected_for answers q

-- `{a.id for a in q.answers if a.is_correct}`
unfoldable pub correct_ids : QuizQuestion → List Uuid
correct_ids q = map (λ (a : QuizAnswer). a.id) (filter (λ (a : QuizAnswer). a.is_correct) q.answers)

-- equality of two sets, given by lists
unfoldable pub same_set : List Uuid → List Uuid → Bool
same_set xs ys = all (contains ys) xs && all (contains xs) ys

abbrev pub is_nonempty : List Uuid → Bool
is_nonempty [] = false
is_nonempty (_ ∷ _) = true

-- `selected and selected == correct`
unfoldable pub is_right : Answers → QuizQuestion → Bool
unfolding selected_for correct_ids same_set
is_right answers q =
    let selected = selected_for answers q.id in
    is_nonempty selected && same_set selected (correct_ids q)

-- the loop over the questions, with `earned` and `possible`
unfoldable pub score : Answers → List QuizQuestion → ℤ → ℤ → ℤ × ℤ
score answers [] earned possible = (earned, possible)
score answers (q ∷ questions) earned possible =
    score answers questions (if is_right answers q then earned +ℤ q.points else earned)
      (possible +ℤ q.points)

-- `earned / possible * max_pts if possible else Decimal(0)`
unfoldable pub scale : ℤ × ℤ → ℤ → Points
scale (earned, possible) max_points =
    if is_zero possible
    then hundredths (pos 0)
    else record { num = earned *ℤ max_points; den = possible }

unfoldable pub quiz_points : Answers → Quiz → ℤ → Points
unfolding score scale
quiz_points answers quiz max_points =
    scale (score answers quiz.questions (pos 0) (pos 0)) max_points
