-- ===== src/Http/UrlDecode.antt =====
-- The helper module `urlencoding` of src/http/parser.rs. `fmt::Error` is `none`. Borrowed and owned
-- results are the same text, so the last comparison of the source leaves no trace.
pub mod RoundTrip
use rust_kernel_engine.Base.{
  ℕ, List, [], ◌∷◌, ◌++◌, true, false, Option, none, some, ◌==◌, if◌then◌else◌,
}
use rust_kernel_engine.Std.Keys.{Text}
use rust_kernel_engine.Std.Numbers.{from_str_radix}

-- A character that starts no escape.
abbrev plain : ℕ → ℕ
plain c = if c == b'+' then b' ' else c

-- The loop over `chars`: the text decoded so far, and the characters to come. An escape takes two
-- more characters, and fails where they end or are no byte in radix 16.
decode_loop : Text → Text → Option Text
decode_loop out [] = some out
decode_loop out (c ∷ []) = if c == b'%' then none else some (out ++ plain c ∷ [])
decode_loop out (c ∷ a ∷ []) =
    if c == b'%' then none else decode_loop (out ++ plain c ∷ []) (a ∷ [])
decode_loop out (c ∷ a ∷ b ∷ s) = elim (c == b'%') [
  | true ↦ elim (from_str_radix 16 255 (a ∷ b ∷ [])) [
    | none ↦ none
    | some byte ↦ decode_loop (out ++ byte ∷ []) s
  ]
  | false ↦ decode_loop (out ++ plain c ∷ []) (a ∷ b ∷ s)
]

unfoldable pub decode : Text → Option Text
unfolding decode_loop from_str_radix
decode s = decode_loop [] s
