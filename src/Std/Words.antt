-- ===== src/Std/Words.antt =====
-- Text operations of `str` that speak of white space, lines and prefixes.
use rust_kernel_engine.Base.{
  ℕ, List, [], ◌∷◌, Bool, true, false, ◌&&◌, ◌||◌, leb, ◌==◌, if◌then◌else◌, refl, ◌≡◌,
}
use rust_kernel_engine.Std.Keys.{Text}
use rust_kernel_engine.Std.Str.{codes, cons_head}

-- The Unicode property White_Space.
abbrev pub is_whitespace : ℕ → Bool
is_whitespace c =
    (leb 9 c && leb c 13)
    || (c == 32)
    || (c == 0x85)
    || (c == 0xa0)
    || (c == 0x1680)
    || (leb 0x2000 c && leb c 0x200a)
    || (c == 0x2028)
    || (c == 0x2029)
    || (c == 0x202f)
    || (c == 0x205f)
    || (c == 0x3000)

abbrev pub trim_start : Text → Text
trim_start [] = []
trim_start (c ∷ s) = if is_whitespace c then trim_start s else c ∷ s

abbrev pub trim_end : Text → Text
trim_end [] = []
trim_end (c ∷ s) = elim (trim_end s) [
  | [] ↦ if is_whitespace c then [] else c ∷ []
  | d ∷ t ↦ c ∷ d ∷ t
]

abbrev pub trim : Text → Text
trim s = trim_start (trim_end s)

abbrev pub starts_with : Text → Text → Bool
starts_with s [] = true
starts_with [] (p ∷ prefix) = false
starts_with (c ∷ s) (p ∷ prefix) = (c == p) && starts_with s prefix

-- `s.contains(pattern)`
unfoldable pub contains : Text → Text → Bool
contains [] pattern = starts_with [] pattern
contains (c ∷ s) pattern = starts_with (c ∷ s) pattern || contains s pattern

-- `s.lines()`: a line ends at "\n" or "\r\n"; what follows the last of them is a line unless it is
-- empty.
unfoldable pub lines : Text → List Text
lines [] = []
lines (c ∷ s) =
    let rest = lines s in
    if c == 10
    then [] ∷ rest
    else if (c == 13) && starts_with s (10 ∷ [])
    then rest
    else cons_head c rest

-- `s.split_whitespace()`
unfoldable pub split_whitespace : Text → List Text
split_whitespace [] = []
split_whitespace (c ∷ []) = if is_whitespace c then [] else (c ∷ []) ∷ []
split_whitespace (c ∷ d ∷ s) =
    let rest = split_whitespace (d ∷ s) in
    if is_whitespace c then rest else if is_whitespace d then (c ∷ []) ∷ rest else cons_head c rest

words_tests :
    (split_whitespace (codes " ab  c ") ≡ codes "ab" ∷ codes "c" ∷ [])
    × (lines (codes "a\r\n\nb") ≡ codes "a" ∷ [] ∷ codes "b" ∷ [])
    × (contains (codes "xaab") (codes "ab") ≡ true)
    × (trim (codes " a b ") ≡ codes "a b")
unfolding split_whitespace lines contains
words_tests = (refl, refl, refl, refl)
