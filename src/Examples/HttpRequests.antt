-- ===== src/Examples/HttpRequests.antt =====
-- Examples for src/http/parser.rs, with a parser that knows one buffer.
use rust_kernel_engine.Base.{
  ℕ, ◌≡◌, refl, ◌≢◌, List, [], ◌∷◌, ◌++◌, map, true, none, some, ok, panic, if◌then◌else◌, arith,
  Bool-cases, inl, inr, subst,
}
use rust_kernel_engine.Std.Keys.{text_eq, text_eq_iff}
use rust_kernel_engine.Std.HashMap.{get, insert}
use rust_kernel_engine.Std.Numbers.{to_string}
use rust_kernel_engine.Std.Str.{codes, Lowercase, ascii_lower, from_utf8_lossy, find, split}
use rust_kernel_engine.Http.UrlDecode.{decode}
use rust_kernel_engine.Http.UrlDecode.RoundTrip.{percent_encode, decode-percent_encode}
use rust_kernel_engine.Http.Parser.{
  HttpRequest, Httparse, Parsed, complete, IsDocumented, IsComplete, parse, get_header,
  is_keep_alive, has_body, query_params, clean_path,
}
use rust_kernel_engine.Http.Parser.Parse.{parse-ne-panic}
use rust_kernel_engine.Http.Parser.Headers.{last_value, get_header-parse}
use rust_kernel_engine.Http.Parser.Query.{query_params-encode, insert_all, encode_query}

abbrev pub lower_ascii : Lowercase
lower_ascii = record { to_lowercase = map ascii_lower; to_lowercase_ascii = λ s h. refl }

-- The first request of the source's tests stands for the buffer; its head is 15 bytes of text here.
abbrev buffer : List ℕ
buffer = codes "GET /?a=b HTTP/1.1xy"

abbrev found : Parsed
found = record {
  status = complete 18;
  method = some (codes "GET");
  path = some (codes "/?a=b");
  version = some 1;
  headers = (codes "Connection", codes "close") ∷ (codes "CONNECTION", codes "Keep-Alive") ∷ [];
}

abbrev one_buffer : Httparse
one_buffer buf = if text_eq buf buffer then some found else none

found-IsComplete : (buf : List ℕ) → IsComplete buf found
found-IsComplete buf = record { method = cc; path = cc; version = cc; names = ground arith }

one_buffer-IsDocumented : IsDocumented one_buffer
one_buffer-IsDocumented buf p n e s = elim (Bool-cases (text_eq buf buffer)) [
  | inr other ↦ absurd (ground arith)
  | inl hit ↦
      let same : buf ≡ buffer = (text_eq_iff buf buffer).0 hit in
      let p_found : found ≡ p = ground arith in
      let n_found : n ≡ 18 = ground arith in
      (subst (IsComplete buf) p_found (found-IsComplete buf), rw (same, n_found) (omega arith))
]

abbrev request : HttpRequest
request = record {
  method = codes "GET";
  path = codes "/?a=b";
  version = 1;
  headers = (codes "connection", codes "Keep-Alive") ∷ [];
  body = codes "xy";
}

buffer_parsed : parse lower_ascii one_buffer buffer ≡ ok request
unfolding parse insert from_utf8_lossy
buffer_parsed = refl

header_tests :
    (get_header lower_ascii request (codes "CONNECTION") ≡ some (codes "Keep-Alive"))
    × (is_keep_alive lower_ascii request ≡ true)
    × (has_body lower_ascii request ≡ true)
    × (query_params request ≡ (codes "a", codes "b") ∷ [])
    × (clean_path request ≡ codes "/")
unfolding get_header is_keep_alive has_body query_params clean_path get insert find split decode
header_tests = (refl, refl, refl, refl, refl)

-- A sign is taken for a digit of an escape, and an unfinished escape fails.
decode_tests :
    (decode (codes "a%20b+c") ≡ some (codes "a b c"))
    × (decode (codes "%+5") ≡ some (5 ∷ []))
    × (decode (codes "%4") ≡ none)
    × (decode (codes "%zz") ≡ none)
unfolding decode
decode_tests = (refl, refl, refl, refl)

buffer_does_not_panic : parse lower_ascii one_buffer buffer ≢ panic
buffer_does_not_panic = parse-ne-panic lower_ascii one_buffer buffer

get_header-parse_example :
    get_header lower_ascii request (codes "cOnnection")
    ≡ last_value (codes "cOnnection") found.headers
get_header-parse_example =
    get_header-parse lower_ascii one_buffer one_buffer-IsDocumented buffer (codes "cOnnection")
      (omega arith) buffer_parsed refl

abbrev upload : HttpRequest
upload = record request { headers = (codes "content-length", codes "42") ∷ [] }

upload_length : get_header lower_ascii upload (codes "content-length") ≡ some (to_string 42)
unfolding get_header get to_string
upload_length = refl

abbrev pairs : List (List ℕ × List ℕ)
pairs = (codes "a&b", codes "x=y") ∷ (codes "k", 0xc3 ∷ 0xa9 ∷ []) ∷ []

abbrev search_request : HttpRequest
search_request = record request { path = codes "/s?" ++ encode_query pairs }

query_params-encode_example :
    (query_params search_request ≡ insert_all [] pairs) × (clean_path search_request ≡ codes "/s")
query_params-encode_example =
    query_params-encode search_request (codes "/s") pairs (omega arith) (omega arith) refl

decode-percent_encode_example : decode (percent_encode (codes "é=1 &")) ≡ some (codes "é=1 &")
decode-percent_encode_example = decode-percent_encode (codes "é=1 &") (omega arith)
