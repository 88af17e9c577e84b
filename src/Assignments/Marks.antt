-- ===== src/Assignments/Marks.antt =====
-- The marks of a quiz.
use native.Mathlib.Nat.{mul-le-mul_right, mul_comm}
use lms_backend.Base.{
  ℕ, ◌+◌, ◌*◌, ◌≤◌, ltb, ℤ, pos, ◌+ℤ◌, ◌*ℤ◌, is_zero, nat_beq, ◌≡◌, refl, ap₂, true, false, List,
  [], ◌∷◌, All, Bool-cases, inl, inr, nat_eq, arith,
}
use lms_backend.Models.{QuizQuestion, Quiz}
use lms_backend.Assignments.Schemas.{Answers}
use lms_backend.Assignments.Scoring.{is_right, score, scale, quiz_points}
use lms_backend.Assignments.Service.{exceeds}

-- Independent of the loop: a number that is not negative, and the sum of a number and the points of questions.
abbrev pub IsNonneg : ℤ → Type 0
IsNonneg z = (n : ℕ) × (z ≡ pos n)

abbrev pub total_from : ℤ → List QuizQuestion → ℤ
total_from sum [] = sum
total_from sum (q ∷ questions) = total_from (sum +ℤ q.points) questions

abbrev pub total_points : List QuizQuestion → ℤ
total_points questions = total_from (pos 0) questions

-- Two numbers that are not negative, the first of them at most the second.
record Ordered (p : ℤ × ℤ) : Type 0 where
  low : ℕ
  high : ℕ
  low_lem : p.0 ≡ pos low
  high_lem : p.1 ≡ pos high
  le_lem : low ≤ high

module _ (answers : Answers) where
  score-Ordered :
      (questions : List QuizQuestion) (earned possible : ℤ)
      → All (λ q. IsNonneg q.points) questions
      → Ordered (earned, possible)
      → Ordered (score answers questions earned possible)
  unfolding score
  score-Ordered [] earned possible a o = o
  score-Ordered (q ∷ questions) earned possible a o =
      let (n, points) = a.0 in
      elim (Bool-cases (is_right answers q)) [
        | inl e ↦ rw e (
            score-Ordered questions (earned +ℤ q.points) (possible +ℤ q.points) a.1 (record {
              low = o.low + n;
              high = o.high + n;
              low_lem = ap₂ ◌+ℤ◌ o.low_lem points;
              high_lem = ap₂ ◌+ℤ◌ o.high_lem points;
              le_lem = omega (arith, o.le_lem);
            }))
        | inr e ↦ rw e (
            score-Ordered questions earned (possible +ℤ q.points) a.1 (record {
              low = o.low;
              high = o.high + n;
              low_lem = o.low_lem;
              high_lem = ap₂ ◌+ℤ◌ o.high_lem points;
              le_lem = omega (arith, o.le_lem);
            }))
      ]

  scale-le :
      (earned possible max : ℕ)
      → earned ≤ possible
      → exceeds (scale (pos earned, pos possible) (pos max)) (pos max) ≡ false
  unfolding scale
  scale-le earned possible max h = elim (Bool-cases (nat_beq possible 0)) [
    | inl e ↦ rw e (ground arith)
    | inr e ↦
        let l : earned * max ≤ max * possible =
          omega (arith, mul-le-mul_right max h, mul_comm possible max) in
        let below : ltb possible 0 ≡ false = ground arith in rw (e, below) (ground (arith, l))
  ]

  scale-Ordered :
      (p : ℤ × ℤ) (max : ℤ) → Ordered p → IsNonneg max → exceeds (scale p max) max ≡ false
  scale-Ordered (earned, possible) max o (m, same) =
      rw (o.low_lem, o.high_lem, same) (scale-le o.low o.high m o.le_lem)

  -- If no question has negative points and the maximum is not negative, the automatic grade of a quiz does
  -- not exceed the maximum of its assignment, so grading a submission with the same points by hand
  -- would not be refused.
  pub exceeds-quiz_points :
      (quiz : Quiz) (max_points : ℤ)
      → All (λ q. IsNonneg q.points) quiz.questions
      → IsNonneg max_points
      → exceeds (quiz_points answers quiz max_points) max_points ≡ false
  unfolding quiz_points
  exceeds-quiz_points quiz max_points signs sign =
      scale-Ordered (score answers quiz.questions (pos 0) (pos 0)) max_points
        (score-Ordered quiz.questions (pos 0) (pos 0) signs
          (record { low = 0; high = 0; low_lem = refl; high_lem = refl; le_lem = omega arith }))
        sign

  -- Where every question is answered right, the loop earns what it may.
  score-All :
      (questions : List QuizQuestion) (sum : ℤ)
      → All (λ q. is_right answers q ≡ true) questions
      → score answers questions sum sum ≡ (total_from sum questions, total_from sum questions)
  unfolding score
  score-All [] sum h = refl
  score-All (q ∷ questions) sum h = rw (h.0) (score-All questions (sum +ℤ q.points) h.1)

  -- A quiz whose points do not sum up to zero and whose every question is answered right gets the whole of
  -- the maximum.
  pub quiz_points-All :
      (quiz : Quiz) (max_points : ℤ)
      → is_zero (total_points quiz.questions) ≡ false
      → All (λ q. is_right answers q ≡ true) quiz.questions
      → (quiz_points answers quiz max_points).num
        ≡ (quiz_points answers quiz max_points).den *ℤ max_points
  unfolding quiz_points scale
  quiz_points-All quiz max_points worth right =
      rw (score-All quiz.questions (pos 0) right, worth) refl
