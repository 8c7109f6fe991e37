-- ===== src/Std/Str.antt =====
-- Text operations of `str`: searching and splitting at an ASCII character, lower case, UTF-8.
-- A byte index of the source becomes a character index: both cut the text at the same place, since
-- the indices come from a search for an ASCII character.
use Prim.Native.Char.{code}
use Prim.Native.String.{String}
use rust_kernel_engine.Base.{
  ℕ, suc, ◌+◌, ◌-◌, ◌*◌, ◌/◌, ◌%◌, ◌<◌, ◌≡◌, refl, ◌≢◌, List, [], ◌∷◌, ◌++◌, map, ◌&&◌, Option,
  none, some, ltb, leb, ◌==◌, if◌then◌else◌, All, arith, take, drop, length, Option-cases, inl, inr,
}
use mathlib.Core.Option
use rust_kernel_engine.Std.Keys.{Text}

-- The code points of a literal.
abbrev pub codes : String → Text
codes String.[] = []
codes (String.◌∷◌ c s) = code c ∷ codes s

-- `s.find(c)`
unfoldable pub find : ℕ → Text → Option ℕ
find c [] = none
find c (x ∷ s) = if x == c then some 0 else Option.map suc (find c s)

-- The text in front of a match, and the text behind it.
pub find-some :
    (c : ℕ) (s : Text) {i : ℕ}
    → find c s ≡ some i
    → (s ≡ take i s ++ c ∷ drop (suc i) s) × All (λ x. x ≢ c) (take i s)
unfolding find
find-some c [] h = cc
find-some c (x ∷ s) {i} h = elim (Option-cases (find c s)) [
  | inl e ↦ ground arith
  | inr (j, e) ↦ ground (arith, find-some c s e)
]

pub find-none : (c : ℕ) (s : Text) → find c s ≡ none → All (λ x. x ≢ c) s
unfolding find
find-none c [] h = tt
find-none c (x ∷ s) h = ground (arith, find-none c s)

pub find-Lacks : (c : ℕ) (s : Text) → All (λ x. x ≢ c) s → find c s ≡ none
unfolding find
find-Lacks c [] h = refl
find-Lacks c (x ∷ s) h = ground (arith, find-Lacks c s h.1)

pub find-append : (c : ℕ) (s t : Text) → All (λ x. x ≢ c) s → find c (s ++ c ∷ t) ≡ some (length s)
unfolding find
find-append c [] t h = ground arith
find-append c (x ∷ s) t h = ground (arith, find-append c s t h.1)

abbrev pub cons_head : ℕ → List Text → List Text
cons_head c [] = (c ∷ []) ∷ []
cons_head c (p ∷ ps) = (c ∷ p) ∷ ps

-- `s.split(c)`
unfoldable pub split : ℕ → Text → List Text
split c [] = [] ∷ []
split c (x ∷ s) = if x == c then [] ∷ split c s else cons_head x (split c s)

pub split_lem : (c : ℕ) (s t : Text) → All (λ x. x ≢ c) s → split c (s ++ c ∷ t) ≡ s ∷ split c t
unfolding split
split_lem c [] t h = ground arith
split_lem c (x ∷ s) t h = ground (arith, split_lem c s t h.1)

pub split-Lacks : (c : ℕ) (s : Text) → All (λ x. x ≢ c) s → split c s ≡ s ∷ []
unfolding split
split-Lacks c [] h = refl
split-Lacks c (x ∷ s) h = ground (arith, split-Lacks c s h.1)

abbrev pub ascii_lower : ℕ → ℕ
ascii_lower c = if leb b'A' c && leb c b'Z' then c + 32 else c

abbrev pub IsAscii : Text → Type 0
IsAscii = All (λ c. c < 128)

-- `str::to_lowercase` follows the tables of Unicode. They enter as a parameter, with what holds of
-- ASCII texts.
pub record Lowercase : Type 0 where
  pub to_lowercase : Text → Text
  pub to_lowercase_ascii : (s : Text) → IsAscii s → to_lowercase s ≡ map ascii_lower s

-- `char::encode_utf8`
abbrev pub encode_char : ℕ → List ℕ
encode_char c =
    if ltb c 0x80
    then c ∷ []
    else if ltb c 0x800
    then (0xc0 + c / 64) ∷ (0x80 + c % 64) ∷ []
    else if ltb c 0x10000
    then (0xe0 + c / 4096) ∷ (0x80 + c / 64 % 64) ∷ (0x80 + c % 64) ∷ []
    else (0xf0 + c / 262144) ∷ (0x80 + c / 4096 % 64) ∷ (0x80 + c / 64 % 64) ∷ (0x80 + c % 64) ∷ []

-- `s.as_bytes()`
unfoldable pub as_bytes : Text → List ℕ
as_bytes [] = []
as_bytes (c ∷ s) = encode_char c ++ as_bytes s

pub as_bytes-ascii : (s : Text) → IsAscii s → as_bytes s ≡ s
unfolding as_bytes
as_bytes-ascii [] h = refl
as_bytes-ascii (c ∷ s) h = ground (arith, as_bytes-ascii s h.1)

-- The decoder of `String::from_utf8_lossy`: between characters, or with `need` continuation bytes
-- to come, the next of them from `lo` to `hi`.
pub data Decoding : Type 0 where
  between : Decoding
  within : (need acc lo hi : ℕ) → Decoding

abbrev decode_start : ℕ → Text × Decoding
decode_start b =
    if ltb b 0x80
    then (b ∷ [], between)
    else if leb 0xc2 b && leb b 0xdf
    then ([], within 1 (b - 0xc0) 0x80 0xbf)
    else if b == 0xe0
    then ([], within 2 0 0xa0 0xbf)
    else if b == 0xed
    then ([], within 2 13 0x80 0x9f)
    else if leb 0xe1 b && leb b 0xef
    then ([], within 2 (b - 0xe0) 0x80 0xbf)
    else if b == 0xf0
    then ([], within 3 0 0x90 0xbf)
    else if leb 0xf1 b && leb b 0xf3
    then ([], within 3 (b - 0xf0) 0x80 0xbf)
    else if b == 0xf4
    then ([], within 3 4 0x80 0x8f)
    else (0xfffd ∷ [], between)

abbrev replaced : Text × Decoding → Text × Decoding
replaced (out, st) = (0xfffd ∷ out, st)

abbrev decode_step : Decoding → ℕ → Text × Decoding
decode_step between b = decode_start b
decode_step (within need acc lo hi) b =
    if leb lo b && leb b hi
    then if leb need 1
      then ((acc * 64 + (b - 0x80)) ∷ [], between)
      else ([], within (need - 1) (acc * 64 + (b - 0x80)) 0x80 0xbf)
    else replaced (decode_start b)

abbrev decode_end : Decoding → Text
decode_end between = []
decode_end (within need acc lo hi) = 0xfffd ∷ []

decode_from : Decoding → List ℕ → Text
decode_from st [] = decode_end st
decode_from st (b ∷ s) = let (out, st') = decode_step st b in out ++ decode_from st' s

unfoldable pub from_utf8_lossy : List ℕ → Text
unfolding decode_from
from_utf8_lossy = decode_from between

pub from_utf8_lossy-ascii : (s : List ℕ) → IsAscii s → from_utf8_lossy s ≡ s
unfolding from_utf8_lossy
from_utf8_lossy-ascii [] h = refl
from_utf8_lossy-ascii (c ∷ s) h = ground (arith, from_utf8_lossy-ascii s h.1)

lossy_test :
    from_utf8_lossy (0x61 ∷ 0xc3 ∷ 0xa9 ∷ 0xe2 ∷ 0x82 ∷ 0x62 ∷ 0xff ∷ [])
    ≡ 0x61 ∷ 0xe9 ∷ 0xfffd ∷ 0x62 ∷ 0xfffd ∷ []
unfolding from_utf8_lossy
lossy_test = refl
