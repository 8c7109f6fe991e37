-- ===== src/Http/Parser/Headers.antt =====
-- The methods of `HttpRequest` in src/http/parser.rs that look up a header.
use rust_kernel_engine.Base.{
  ℕ, ◌≤◌, ◌≡◌, refl, ◌≢◌, ◌↔◌, ◌⊎◌, inl, inr, sym, ◌∙◌, List, [], ◌∷◌, map, true, false, Option,
  none, some, if◌then◌else◌, All, arith, Option-cases, ok,
}
use mathlib.Core.Option.{some-injective}
use rust_kernel_engine.Std.Keys.{Text, text_eq, text_eq_iff, text_key}
use rust_kernel_engine.Std.HashMap.{HashMap, get, insert, get-insert}
use rust_kernel_engine.Std.Numbers.{usize_max, to_string, from_str_radix-to_string}
use rust_kernel_engine.Std.Str.{from_utf8_lossy, Lowercase, codes, IsAscii, ascii_lower}
use rust_kernel_engine.Http.Parser.Parse.{parse-Reads}
use rust_kernel_engine.Http.Parser.{
  HttpRequest, Httparse, Parsed, collect_headers, get_header, is_keep_alive, content_length,
  has_body, parse, IsDocumented,
}

-- The value of the last header whose name differs from `name` at most in the case of letters.
abbrev pub last_value : Text → List (Text × List ℕ) → Option Text
last_value name [] = none
last_value name ((n, v) ∷ hs) = elim (last_value name hs) [
  | some later ↦ some later
  | none ↦
      if text_eq (map ascii_lower n) (map ascii_lower name) then some (from_utf8_lossy v) else none
]

abbrev or_else {ℓ} : {A : Type ℓ} → Option A → Option A → Option A
or_else (some a) o = some a
or_else none o = o

module _ (lc : Lowercase) where
  open lc use {to_lowercase, to_lowercase_ascii}

  get-collect_headers :
      (name : Text) (hs : List (Text × List ℕ)) (m : HashMap Text Text)
      → IsAscii name
      → All (λ h. (h.0 ≢ []) × IsAscii h.0) hs
      → get (to_lowercase name) (collect_headers lc m hs)
        ≡ or_else (last_value name hs) (get (to_lowercase name) m)
  unfolding collect_headers
  get-collect_headers name [] m a h = refl
  get-collect_headers name (([], v) ∷ hs) m a h = absurd (h.0.0 refl)
  get-collect_headers name ((c ∷ n, v) ∷ hs) m a h =
      let step = get-insert (to_lowercase (c ∷ n)) (to_lowercase name) (from_utf8_lossy v) m in
      let rest =
        get-collect_headers name hs (insert (to_lowercase (c ∷ n)) (from_utf8_lossy v) m) a h.1 in
      let e₁ = to_lowercase_ascii name a in
      let e₂ = to_lowercase_ascii (c ∷ n) h.0.1 in rest ∙ rw step (rw (e₂, e₁) (ground arith))

  module _ (httparse : Httparse) (doc : IsDocumented httparse) where
    -- After a successful parse, looking up a header by an ASCII name gives the value of the last
    -- header of the request whose name differs at most in the case of its letters, decoded from
    -- UTF-8, and nothing if there is no such header.
    pub get_header-parse :
        (buf : List ℕ) (name : Text) {req : HttpRequest} {p : Parsed}
        → IsAscii name
        → parse lc httparse buf ≡ ok req
        → httparse buf ≡ some p
        → get_header lc req name ≡ last_value name p.headers
    unfolding get_header get
    get_header-parse buf name {p} a h e =
        let (p', n, r) = parse-Reads lc httparse buf h in
        let names = (doc buf p' n r.found r.whole).0.names in
        let same : p ≡ p' = some-injective _ _ (sym e ∙ r.found) in
        rw (r.headers, same, get-collect_headers name p'.headers [] a names) (ground arith)

    -- A parsed request keeps its connection exactly when its last `connection` header reads
    -- `keep-alive` in lower case, or when it has no such header and its version is 1 or later.
    pub is_keep_alive-parse :
        (buf : List ℕ) {req : HttpRequest} {p : Parsed}
        → parse lc httparse buf ≡ ok req
        → httparse buf ≡ some p
        → (is_keep_alive lc req ≡ true) ↔ (
            ((v : Text) × (last_value (codes "connection") p.headers ≡ some v)
              × (to_lowercase v ≡ codes "keep-alive"))
            ⊎ ((last_value (codes "connection") p.headers ≡ none)
                × ((n : ℕ) × (p.version ≡ some n) × (1 ≤ n))))
    unfolding is_keep_alive
    is_keep_alive-parse buf {req} {p} h e =
        let q = get_header-parse buf (codes "connection") (omega arith) h e in
        let (p', n, r) = parse-Reads lc httparse buf h in
        let same : p ≡ p' = some-injective _ _ (sym e ∙ r.found) in
        let v : p.version ≡ some req.version = rw same r.version in
        elim (Option-cases (get_header lc req (codes "connection"))) [
          | inl g ↦
              rw (g, is_keep_alive)
                (
                  (λ k. inr (sym q ∙ g, (req.version, v, ground arith))),
                  λ t. elim t [ inl (w, same_w, lower) ↦ cc | inr (_, (m, em, le)) ↦ ground arith ],
                )
          | inr (w, g) ↦
              rw (g, is_keep_alive)
                (
                  (λ k.
                      inl (w, sym q ∙ g, (text_eq_iff (to_lowercase w) (codes "keep-alive")).0 k)),
                  λ t. elim t [
                    | inl (w', same_w, lower) ↦
                        (text_eq_iff (to_lowercase w) (codes "keep-alive")).1 (ground arith)
                    | inr (gone, _) ↦ cc
                  ],
                )
        ]

  -- The lookup of a header does not depend on the case of the letters of an ASCII name.
  get_header_any_case :
      (req : HttpRequest) (a b : Text)
      → IsAscii a
      → IsAscii b
      → map ascii_lower a ≡ map ascii_lower b
      → get_header lc req a ≡ get_header lc req b
  unfolding get_header
  get_header_any_case req a b ha hb h = rw (to_lowercase_ascii a ha, to_lowercase_ascii b hb, h)

  -- A length that fits `usize` is read back from a `content-length` header that prints it, and
  -- `has_body` is then false exactly if the length is 0 and the body is empty.
  pub content_length-to_string :
      (req : HttpRequest) (n : ℕ)
      → n ≤ usize_max
      → get_header lc req (codes "content-length") ≡ some (to_string n)
      → (content_length lc req ≡ some n) × ((has_body lc req ≡ false) ↔ ((n ≡ 0) × (req.body ≡ [])))
  unfolding content_length has_body
  content_length-to_string req n h e = ground (arith, from_str_radix-to_string usize_max n h)
