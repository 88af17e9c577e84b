-- ===== src/Base/Lower.antt =====
-- `str.lower` of Python, on ASCII text.
use Prim.Native.Nat.{ℕ, suc}
use Prim.Native.Char.{Char, code}
use Prim.Native.String.{String, [], ◌∷◌}
use mathlib.Core.Path.{◌≡◌, refl, ap, ap₂}
use mathlib.Core.Logic.{◌⊎◌, inl, inr}
use mathlib.Core.Bool.{Bool, true, ◌&&◌}
use text.Mathlib.TextEquality.{Char-path}
use lms_backend.Base.Tests.{nat_beq, nat_beq_iff, if◌then◌else◌, and_elim, Bool-cases}

abbrev small_letters : String
small_letters = "abcdefghijklmnopqrstuvwxyz"

-- The letter that stands at the place of `c` in an alphabet whose first capital has the code `n`.
pick : ℕ → String → Char → Char
pick n [] c = c
pick n (d ∷ rest) c = if nat_beq (code c) n then d else pick (suc n) rest c

lower_char : Char → Char
unfolding pick
lower_char c = pick 65 small_letters c

unfoldable pub lower : String → String
unfolding lower_char
lower [] = []
lower (c ∷ s) = lower_char c ∷ lower s

all_fixed : String → Bool
unfolding lower_char
all_fixed [] = true
all_fixed (d ∷ s) = nat_beq (code (lower_char d)) (code d) && all_fixed s

pick_cases :
    (n : ℕ) (s : String) (c : Char)
    → all_fixed s ≡ true
    → (pick n s c ≡ c) ⊎ (lower_char (pick n s c) ≡ pick n s c)
unfolding all_fixed pick
pick_cases n [] c h = inl refl
pick_cases n (d ∷ s) c h =
    let (hd, hs) = and_elim _ _ h in
    elim (Bool-cases (nat_beq (code c) n)) [
      | inl e ↦ rw e (inr (Char-path _ _ ((nat_beq_iff _ _).0 hd)))
      | inr e ↦ rw e (pick_cases (suc n) s c hs)
    ]

small_letters_fixed : all_fixed small_letters ≡ true
unfolding all_fixed
small_letters_fixed = refl

lower_char_cases : (c : Char) → (lower_char c ≡ c) ⊎ (lower_char (lower_char c) ≡ lower_char c)
unfolding lower_char
lower_char_cases c = pick_cases 65 small_letters c small_letters_fixed

lower_char_idem : (c : Char) → lower_char (lower_char c) ≡ lower_char c
lower_char_idem c = elim (lower_char_cases c) [ inl e ↦ ap lower_char e | inr e ↦ e ]

pub lower_idem : (s : String) → lower (lower s) ≡ lower s
unfolding lower
lower_idem [] = refl
lower_idem (c ∷ s) = ap₂ ◌∷◌ (lower_char_idem c) (lower_idem s)
