-- ===== src/Http/UrlDecode/RoundTrip.antt =====
-- `urlencoding::decode` of src/http/parser.rs on what an encoder writes.
use rust_kernel_engine.Base.{
  ℕ, zero, suc, ◌+◌, ◌-◌, ◌/◌, ◌%◌, ◌≤◌, ◌<◌, ◌≡◌, refl, ◌≢◌, ◌∙◌, ap, List, [], ◌∷◌, ◌++◌, Bool,
  true, false, ◌&&◌, ◌||◌, none, some, ltb, leb, ◌==◌, if◌then◌else◌, All, arith, append_assoc,
  append-nil,
}
use rust_kernel_engine.Std.Keys.{Text}
use rust_kernel_engine.Std.Numbers.{from_str_radix}
use rust_kernel_engine.Http.UrlDecode.{plain, decode_loop, decode}

abbrev is_unreserved : ℕ → Bool
is_unreserved c =
    (leb b'0' c && leb c b'9') || (leb b'a' c && leb c b'z') || (leb b'A' c && leb c b'Z')

abbrev hex_digit : ℕ → ℕ
hex_digit d = if ltb d 10 then b'0' + d else b'A' + (d - 10)

abbrev pub encode_byte : ℕ → Text
encode_byte c =
    if is_unreserved c
    then c ∷ []
    else if c == b' '
    then b'+' ∷ []
    else b'%' ∷ hex_digit (c / 16) ∷ hex_digit (c % 16) ∷ []

-- Form encoding of a sequence of bytes: letters and digits stand for themselves, a blank is `+`,
-- any other byte is an escape.
abbrev pub percent_encode : List ℕ → Text
percent_encode [] = []
percent_encode (c ∷ s) = encode_byte c ++ percent_encode s

-- Does `p` hold of the `n` numbers from `first` on?
holds_from : ℕ → ℕ → (ℕ → Bool) → Bool
holds_from first zero p = true
holds_from first (suc n) p = p first && holds_from (suc first) n p

holds_from_lem :
    (first n c : ℕ) (p : ℕ → Bool)
    → first ≤ c
    → c < first + n
    → holds_from first n p ≡ true
    → p c ≡ true
unfolding holds_from
holds_from_lem first zero c p from below h = absurd (omega arith)
holds_from_lem first (suc n) c p from below h = ground (arith, holds_from_lem (suc first) n c p)

abbrev reads_back : ℕ → Bool
reads_back c = elim (from_str_radix 16 255 (hex_digit (c / 16) ∷ hex_digit (c % 16) ∷ [])) [
  | none ↦ false
  | some v ↦ v == c
]

hex_table : holds_from 0 256 reads_back ≡ true
unfolding holds_from from_str_radix
hex_table = refl

hex_pair :
    (c : ℕ)
    → c < 256
    → from_str_radix 16 255 (hex_digit (c / 16) ∷ hex_digit (c % 16) ∷ []) ≡ some c
hex_pair c h = ground (arith, holds_from_lem 0 256 c reads_back (omega arith) h hex_table)

decode_plain :
    (out : Text) (c : ℕ) (s : Text)
    → c ≢ b'%'
    → decode_loop out (c ∷ s) ≡ decode_loop (out ++ plain c ∷ []) s
unfolding decode_loop
decode_plain out c [] h = ground arith
decode_plain out c (a ∷ []) h = ground arith
decode_plain out c (a ∷ b ∷ s) h = ground arith

decode_escape :
    (out : Text) (c : ℕ) (s : Text)
    → c < 256
    → decode_loop out (b'%' ∷ hex_digit (c / 16) ∷ hex_digit (c % 16) ∷ s)
      ≡ decode_loop (out ++ c ∷ []) s
unfolding decode_loop
decode_escape out c s h = rw (hex_pair c h, decode_loop)

decode_byte :
    (out : Text) (c : ℕ) (s : Text)
    → c < 256
    → decode_loop out (encode_byte c ++ s) ≡ decode_loop (out ++ c ∷ []) s
decode_byte out c s h =
    ground (arith, decode_plain out c s, decode_plain out b'+' s, decode_escape out c s h)

decode_loop-encode :
    (s : List ℕ) (out : Text)
    → All (λ c. c < 256) s
    → decode_loop out (percent_encode s) ≡ some (out ++ s)
decode_loop-encode [] out h = unfold decode_loop in rw append-nil
decode_loop-encode (c ∷ s) out h =
    decode_byte out c (percent_encode s) h.0
    ∙ (decode_loop-encode s (out ++ c ∷ []) h.1 ∙ ap some (append_assoc out (c ∷ []) s))

-- Decoding the encoding of a sequence of bytes succeeds and gives these bytes, each as one
-- character.
pub decode-percent_encode : (s : List ℕ) → All (λ c. c < 256) s → decode (percent_encode s) ≡ some s
unfolding decode
decode-percent_encode s h = decode_loop-encode s [] h
