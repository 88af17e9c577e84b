-- ===== src/Base/Classes.antt =====
-- Equality tests as an interface, with instances for numbers and texts.
use Prim.Native.Nat.{ℕ}
use Prim.Native.String.{String}
use mathlib.Core.Path.{◌≡◌, refl, sym, ap, ◌∙◌}
use mathlib.Core.Logic.{◌↔◌, inl, inr}
use mathlib.Core.Bool.{Bool, true, false, ◌||◌, ◌&&◌}
use mathlib.Core.List.{List, [], ◌∷◌, ◌++◌, map}
use native.Mathlib.Omega.{arith}
use text.Mathlib.Text.{◌==◌ as str_eq}
use text.Mathlib.TextEquality.{eq_iff}
use lms_backend.Base.Lists.{All, any, all}
use lms_backend.Base.Tests.{nat_beq, nat_beq_iff, Bool-cases, and_elim}

-- Types whose elements the program compares by `==`.
pub record Comparable {ℓ} (A : Type ℓ) : Type ℓ where
  pub equals : A → A → Bool
  pub equals-iff : (x y : A) → (equals x y ≡ true) ↔ (x ≡ y)

instance abbrev pub string_eq : Comparable String
string_eq = record { equals-iff = eq_iff; equals = str_eq }

instance abbrev pub nat_eq : Comparable ℕ
nat_eq = record { equals-iff = nat_beq_iff; equals = nat_beq }

module _ {ℓ} {A : Type ℓ} ⦃cmp : Comparable A⦄ where
  infix 50 ◌==◌
  abbrev pub ◌==◌ : A → A → Bool
  x == y = cmp.equals x y

  -- `a in xs`
  abbrev pub contains : List A → A → Bool
  contains (x ∷ xs) a = a == x || contains xs a
  contains [] a = false

  pub beq_refl : (a : A) → (a == a) ≡ true
  beq_refl a = (cmp.equals-iff a a).1 (λ i. a)

  -- A test for equality does not depend on the order of its arguments.
  pub beq_comm : (a b : A) → (a == b) ≡ (b == a)
  beq_comm a b = elim (Bool-cases (a == b)) [
    | inl p ↦ p ∙ sym ((cmp.equals-iff b a).1 (sym ((cmp.equals-iff a b).0 p)))
    | inr p ↦ elim (Bool-cases (b == a)) [
      | inl q ↦ cc ((cmp.equals-iff a b).1 (sym ((cmp.equals-iff b a).0 q)))
      | inr q ↦ p ∙ sym q
    ]
  ]

  pub contains-append :
      (xs ys : List A) (c : A) → contains (xs ++ ys) c ≡ (contains xs c || contains ys c)
  contains-append [] ys c = refl
  contains-append (x ∷ xs) ys c = ground (arith, contains-append xs ys c)

  -- An element that a list has adds nothing to it.
  pub contains_known :
      (xs : List A) (v c : A) → contains xs v ≡ true → contains xs c ≡ (contains xs c || c == v)
  contains_known xs v c h = elim (Bool-cases (c == v)) [
    | inl e ↦ (let known : contains xs c ≡ true = rw ((cmp.equals-iff c v).0 e) h in rw known refl)
    | inr e ↦ ground (arith, e)
  ]

  -- A test that holds of what a list contains holds of each of its elements.
  pub All-contains {κ} :
      {B : Type κ} (f : B → A) (test : A → Bool) (xs : List B)
      → ((a : A) → contains (map f xs) a ≡ true → test a ≡ true)
      → All (λ x. test (f x) ≡ true) xs
  All-contains f test [] h = tt
  All-contains f test (x ∷ xs) h =
      (h (f x) (rw (beq_refl (f x)) refl), All-contains f test xs (λ a k. h a (ground (arith, k))))

  pub any-contains {κ} :
      {B : Type κ} (f : B → A) (a : A) (xs : List B)
      → any (λ x. a == f x) xs ≡ contains (map f xs) a
  any-contains f a [] = refl
  any-contains f a (x ∷ xs) = rw (any-contains f a xs) refl

  -- What a list contains is in a second one that has all its elements.
  pub contains-all :
      (xs ys : List A) (a : A)
      → all (contains ys) xs ≡ true
      → (contains xs a && contains ys a) ≡ contains xs a
  contains-all [] ys a h = refl
  contains-all (x ∷ xs) ys a h =
      let (first, rest) = and_elim (contains ys x) (all (contains ys) xs) h in
      elim (Bool-cases (a == x)) [
        | inl e ↦
            (let there = ap (contains ys) ((cmp.equals-iff a x).0 e) ∙ first in rw (there, e) refl)
        | inr e ↦ rw e (contains-all xs ys a rest)
      ]
