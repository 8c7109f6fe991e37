-- ===== src/Http/Response.antt =====
-- src/http/response.rs. The order in which a `HashMap` yields its entries is a parameter, and so is
-- `serde_json::to_vec`. Bodies are lists of bytes.
pub mod Framing
pub mod Plain
pub mod Reader
pub mod Size
use Prim.Native.String.{String}
use mathlib.Core.List.{Perm}
use rust_kernel_engine.Base.{
  ℕ, List, [], ◌∷◌, ◌++◌, Option, none, some, ◌==◌, length, if◌then◌else◌,
}
use rust_kernel_engine.Std.Keys.{Text, text_key}
use rust_kernel_engine.Std.HashMap.{HashMap, insert}
use rust_kernel_engine.Std.Numbers.{to_string}
use rust_kernel_engine.Std.Str.{codes, as_bytes}

pub record HttpResponse : Type 0 where
  pub status_code : ℕ
  pub status_text : Text
  pub headers : HashMap Text Text
  pub body : List ℕ

-- The order in which a map is iterated: some arrangement of its entries.
pub record Iteration : Type 0 where
  pub entries : HashMap Text Text → List (Text × Text)
  pub entries_perm : (m : HashMap Text Text) → Perm (entries m) m

status_text_for_code : ℕ → Text
status_text_for_code code =
    if code == 200
    then codes "OK"
    else if code == 201
    then codes "Created"
    else if code == 204
    then codes "No Content"
    else if code == 301
    then codes "Moved Permanently"
    else if code == 302
    then codes "Found"
    else if code == 304
    then codes "Not Modified"
    else if code == 400
    then codes "Bad Request"
    else if code == 401
    then codes "Unauthorized"
    else if code == 403
    then codes "Forbidden"
    else if code == 404
    then codes "Not Found"
    else if code == 405
    then codes "Method Not Allowed"
    else if code == 408
    then codes "Request Timeout"
    else if code == 413
    then codes "Payload Too Large"
    else if code == 414
    then codes "URI Too Long"
    else if code == 500
    then codes "Internal Server Error"
    else if code == 501
    then codes "Not Implemented"
    else if code == 502
    then codes "Bad Gateway"
    else if code == 503
    then codes "Service Unavailable"
    else if code == 504
    then codes "Gateway Timeout"
    else codes "Unknown"

unfoldable pub new : ℕ → HttpResponse
unfolding status_text_for_code
new status_code =
    let headers = insert (codes "Server") (codes "RustKernelEngine/0.1") [] in
    record {
      status_code = status_code;
      status_text = status_text_for_code status_code;
      headers = insert (codes "Connection") (codes "keep-alive") headers;
      body = [];
    }

unfoldable pub set_body : HttpResponse → List ℕ → HttpResponse
set_body resp body = record resp {
  body = body;
  headers = insert (codes "Content-Length") (to_string (length body)) resp.headers;
}

unfoldable pub ok_response : HttpResponse
unfolding new
ok_response = new 200

unfoldable pub not_found : HttpResponse
unfolding new set_body
not_found = set_body (new 404) (codes "404 Not Found")

unfoldable pub internal_error : HttpResponse
unfolding new set_body
internal_error = set_body (new 500) (codes "500 Internal Server Error")

unfoldable pub bad_request : HttpResponse
unfolding new set_body
bad_request = set_body (new 400) (codes "400 Bad Request")

-- The body, its type and its length, as `json`, `html` and `text` set them.
with_typed_body : HttpResponse → Text → List ℕ → HttpResponse
with_typed_body resp content_type body = record resp {
  body = body;
  headers =
      insert (codes "Content-Length") (to_string (length body))
        (insert (codes "Content-Type") content_type resp.headers);
}

-- `to_vec` is `serde_json::to_vec`; a value that it cannot serialise changes nothing.
unfoldable pub json {ℓ} : {T : Type ℓ} → (T → Option (List ℕ)) → HttpResponse → T → HttpResponse
unfolding with_typed_body
json to_vec resp value = elim (to_vec value) [
  | none ↦ resp
  | some bytes ↦ with_typed_body resp (codes "application/json") bytes
]

unfoldable pub html : HttpResponse → Text → HttpResponse
unfolding with_typed_body
html resp content = with_typed_body resp (codes "text/html; charset=utf-8") (as_bytes content)

unfoldable pub text : HttpResponse → Text → HttpResponse
unfolding with_typed_body
text resp content = with_typed_body resp (codes "text/plain; charset=utf-8") (as_bytes content)

unfoldable pub with_header : HttpResponse → Text → Text → HttpResponse
with_header resp name value = record resp { headers = insert name value resp.headers }

abbrev pub crlf : Text
crlf = 13 ∷ 10 ∷ []

unfoldable pub status_line : HttpResponse → Text
status_line resp =
    codes "HTTP/1.1 " ++ (to_string resp.status_code ++ b' ' ∷ (resp.status_text ++ crlf))

abbrev pub header_line : Text × Text → Text
header_line (name, value) = name ++ (b':' ∷ b' ' ∷ (value ++ crlf))

-- The loop over the headers, in the order of iteration.
unfoldable pub header_bytes : List (Text × Text) → List ℕ
header_bytes [] = []
header_bytes (h ∷ hs) = as_bytes (header_line h) ++ header_bytes hs

module _ (it : Iteration) where
  open it use {entries}

  unfoldable pub to_bytes : HttpResponse → List ℕ
  unfolding status_line header_bytes
  to_bytes resp =
      as_bytes (status_line resp) ++ (header_bytes (entries resp.headers) ++ (crlf ++ resp.body))

  unfoldable pub size : HttpResponse → ℕ
  unfolding to_bytes
  size resp = length (to_bytes resp)

-- The `Display` of a response.
unfoldable pub fmt : HttpResponse → Text
fmt resp =
    codes "HTTP/1.1 "
    ++ (to_string resp.status_code
        ++ b' '
          ∷ (resp.status_text ++ (codes " (" ++ (to_string (length resp.body) ++ codes " bytes)"))))
