-- ===== src/Http/Parser.antt =====
-- src/http/parser.rs. The crate `httparse` and the Unicode tables of `str::to_lowercase` are
-- parameters. Texts are lists of code points, bodies are lists of bytes.
pub mod Headers
pub mod Parse
pub mod Query
use rust_kernel_engine.Base.{
  ℕ, suc, ◌<◌, ◌≤◌, ◌≡◌, ◌≢◌, List, [], ◌∷◌, Bool, true, false, not, ◌||◌, Option, none, some,
  Outcome, ok, err, panic, ok_or, Error, parse_failed, incomplete_request, missing_method,
  missing_path, missing_version, ◌>>=◌, ltb, leb, length, take, drop, if◌then◌else◌, All,
}
use mathlib.Core.Option
use rust_kernel_engine.Std.Keys.{Text, text_eq, text_key}
use rust_kernel_engine.Std.HashMap.{HashMap, get, insert}
use rust_kernel_engine.Std.Numbers.{from_str_radix, usize_max}
use rust_kernel_engine.Std.Str.{find, split, from_utf8_lossy, Lowercase, codes, IsAscii}
use rust_kernel_engine.Http.UrlDecode.{decode}

pub record HttpRequest : Type 0 where
  pub method : Text
  pub path : Text
  pub version : ℕ
  pub headers : HashMap Text Text
  pub body : List ℕ

-- `httparse::Status`: the offset of the body, or an unfinished request.
pub data Status : Type 0 where
  complete : ℕ → Status
  partial : Status

-- `httparse::Request` after its `parse`, with the status that `parse` returned. `headers` is cut to
-- the headers that were found.
pub record Parsed : Type 0 where
  pub status : Status
  pub method : Option Text
  pub path : Option Text
  pub version : Option ℕ
  pub headers : List (Text × List ℕ)

-- `Request::parse` with room for 64 headers; `none` is its error.
abbrev pub Httparse : Type 0
Httparse = List ℕ → Option Parsed

-- What the documentation of `httparse` says of a complete request: every part is there, the offset
-- lies in the buffer, a header's name is a non-empty ASCII token, the version is 0 or 1.
pub record IsComplete (buf : List ℕ) (p : Parsed) : Type 0 where
  pub method : p.method ≢ none
  pub path : p.path ≢ none
  pub version : p.version ≢ none
  pub names : All (λ h. (h.0 ≢ []) × IsAscii h.0) p.headers

abbrev pub IsDocumented : Httparse → Type 0
IsDocumented httparse =
    (buf : List ℕ) (p : Parsed) (n : ℕ)
    → httparse buf ≡ some p
    → p.status ≡ complete n
    → IsComplete buf p × (n ≤ length buf)

abbrev is_nil {ℓ} : {A : Type ℓ} → List A → Bool
is_nil [] = true
is_nil (_ ∷ _) = false

-- `status.is_partial()`, and `status.unwrap()`, which panics on `Partial`.
is_partial : Status → Bool
is_partial partial = true
is_partial (complete n) = false

unwrap_status : Status → Outcome ℕ
unwrap_status partial = panic
unwrap_status (complete n) = ok n

module _ (lc : Lowercase) where
  open lc use {to_lowercase}

  -- The loop over `req.headers`.
  pub collect_headers : HashMap Text Text → List (Text × List ℕ) → HashMap Text Text
  collect_headers header_map [] = header_map
  collect_headers header_map ((name, value) ∷ headers) =
      collect_headers
        (if not (is_nil name)
          then insert (to_lowercase name) (from_utf8_lossy value) header_map
          else header_map)
        headers

  unfoldable pub parse : Httparse → List ℕ → Outcome HttpRequest
  unfolding collect_headers is_partial unwrap_status
  parse httparse buf = do
    req ← ok_or (httparse buf) parse_failed
    if is_partial req.status then err incomplete_request else do
      method ← ok_or req.method missing_method
      path ← ok_or req.path missing_path
      version ← ok_or req.version missing_version
      let header_map = collect_headers [] req.headers
      body_offset ← unwrap_status req.status
      let body = if ltb body_offset (length buf) then drop body_offset buf else []
      ok (record {
        method = method;
        path = path;
        version = version;
        headers = header_map;
        body = body;
      })

  unfoldable pub get_header : HttpRequest → Text → Option Text
  get_header req name = get (to_lowercase name) req.headers

  unfoldable pub is_keep_alive : HttpRequest → Bool
  unfolding get_header
  is_keep_alive req = elim (get_header req (codes "connection")) [
    | some connection ↦ text_eq (to_lowercase connection) (codes "keep-alive")
    | none ↦ leb 1 req.version
  ]

  unfoldable pub content_length : HttpRequest → Option ℕ
  unfolding get_header
  content_length req = elim (get_header req (codes "content-length")) [
    | some v ↦ from_str_radix 10 usize_max v
    | none ↦ none
  ]

  unfoldable pub has_body : HttpRequest → Bool
  unfolding content_length
  has_body req = ltb 0 (Option.get_or (content_length req) 0) || not (is_nil req.body)

-- `urlencoding::decode(s).unwrap_or_default()`
decode_or_default : Text → Text
decode_or_default s = Option.get_or (decode s) []

-- The body of the loop over the pairs of a query.
insert_pair : HashMap Text Text → Text → HashMap Text Text
unfolding decode_or_default
insert_pair params pair = elim (find b'=' pair) [
  | none ↦ params
  | some eq_pos ↦
      insert (decode_or_default (take eq_pos pair)) (decode_or_default (drop (suc eq_pos) pair))
        params
]

insert_pairs : HashMap Text Text → List Text → HashMap Text Text
unfolding insert_pair
insert_pairs params [] = params
insert_pairs params (pair ∷ pairs) = insert_pairs (insert_pair params pair) pairs

unfoldable pub query_params : HttpRequest → HashMap Text Text
unfolding insert_pairs
query_params req = elim (find b'?' req.path) [
  | none ↦ []
  | some query_start ↦ insert_pairs [] (split b'&' (drop (suc query_start) req.path))
]

unfoldable pub clean_path : HttpRequest → Text
clean_path req = elim (find b'?' req.path) [
  | none ↦ req.path
  | some query_start ↦ take query_start req.path
]
