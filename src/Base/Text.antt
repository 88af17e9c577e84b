-- ===== src/Base/Text.antt =====
-- The methods of `str` that the program uses, on ASCII text.
use Prim.Native.Nat.{ℕ, zero, suc, ◌+◌, ◌-◌, ◌*◌}
use Prim.Native.Char.{code}
use Prim.Native.String.{String}
use mathlib.Core.Bool.{Bool, true, false, ◌&&◌, ◌||◌}
use mathlib.Core.Option.{Option, none, some}
use mathlib.Core.List.{List, [], ◌∷◌}
use lms_backend.Base.Tests.{leb, if◌then◌else◌}
use lms_backend.Base.Classes.{◌==◌, nat_eq, string_eq}

-- `text.partition(sep)`: what stands before the first separator, and what stands behind it
unfoldable pub before : ℕ → String → String
before sep String.[] = String.[]
before sep (String.◌∷◌ c s) = if code c == sep then String.[] else String.◌∷◌ c (before sep s)

unfoldable pub after : ℕ → String → String
after sep String.[] = String.[]
after sep (String.◌∷◌ c s) = let rest = after sep s in if code c == sep then s else rest

-- `text.split(sep)`
unfoldable pub split_from : ℕ → String → String × List String
split_from sep String.[] = (String.[], [])
split_from sep (String.◌∷◌ c s) =
    let (part, parts) = split_from sep s in
    if code c == sep then (String.[], part ∷ parts) else (String.◌∷◌ c part, parts)

unfoldable pub split : ℕ → String → List String
unfolding split_from
split sep s = let (part, parts) = split_from sep s in part ∷ parts

abbrev pub is_space : ℕ → Bool
is_space n = n == 32 || n == 9 || n == 10 || n == 11 || n == 12 || n == 13

unfoldable pub strip_left : String → String
strip_left String.[] = String.[]
strip_left (String.◌∷◌ c s) =
    let rest = strip_left s in if is_space (code c) then rest else String.◌∷◌ c s

-- without the last characters that a test holds of
unfoldable pub strip_end : (ℕ → Bool) → String → String
strip_end drops String.[] = String.[]
strip_end drops (String.◌∷◌ c s) =
    let rest = strip_end drops s in
    if rest == "" && drops (code c) then String.[] else String.◌∷◌ c rest

-- `text.strip()`
unfoldable pub strip : String → String
unfolding strip_left strip_end
strip s = strip_end is_space (strip_left s)

-- `text[n:]`, and `text.startswith(prefix)`
unfoldable pub drop_chars : ℕ → String → String
drop_chars zero s = s
drop_chars (suc n) String.[] = String.[]
drop_chars (suc n) (String.◌∷◌ c s) = drop_chars n s

unfoldable pub starts_with : String → String → Bool
starts_with String.[] s = true
starts_with (String.◌∷◌ c p) String.[] = false
starts_with (String.◌∷◌ c p) (String.◌∷◌ d s) = code c == code d && starts_with p s

-- a text that may be absent, or empty
abbrev pub or_empty : Option String → String
or_empty none = ""
or_empty (some s) = s

abbrev pub is_digit : ℕ → Bool
is_digit n = leb b'0' n && leb n b'9'

-- the number that decimal digits spell, behind the digits read so far
unfoldable pub read_digits : ℕ → String → Option ℕ
read_digits n String.[] = some n
read_digits n (String.◌∷◌ c s) =
    let rest = read_digits (n * 10 + (code c - b'0')) s in if is_digit (code c) then rest else none

-- `int(text)`, which may raise; a text with a sign or an underscore counts as one that raises
unfoldable pub int : String → Option ℕ
unfolding read_digits
int s = let digits = strip s in if digits == "" then none else read_digits 0 digits
