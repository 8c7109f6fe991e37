-- ===== src/Examples/HttpResponses.antt =====
-- Examples for src/http/response.rs, with maps iterated as they are stored.
use mathlib.Core.List.Perm
use rust_kernel_engine.Base.{ℕ, ◌≡◌, refl, List, [], ◌∷◌, Option, some, arith}
use rust_kernel_engine.Std.Keys.{Text, text_key}
use rust_kernel_engine.Std.HashMap.{insert}
use rust_kernel_engine.Std.Numbers.{to_string}
use rust_kernel_engine.Std.Str.{codes, as_bytes}
use rust_kernel_engine.Http.Response.{
  HttpResponse, Iteration, new, set_body, json, with_header, not_found, bad_request, to_bytes, fmt,
}
use rust_kernel_engine.Http.Response.Framing.{sets_body, sets_json, adds_header, apply_call, build}
use rust_kernel_engine.Http.Response.Reader.{read_response, read_response-to_bytes}

abbrev as_stored : Iteration
as_stored = record { entries = λ m. m; entries_perm = λ m. Perm.refl m }

not_found_bytes :
    to_bytes as_stored not_found
    ≡ codes
        "HTTP/1.1 404 Not Found\r\nServer: RustKernelEngine/0.1\r\nConnection: keep-alive\r\nContent-Length: 13\r\n\r\n404 Not Found"
unfolding to_bytes not_found as_bytes insert to_string
not_found_bytes = refl

display_test : fmt bad_request ≡ codes "HTTP/1.1 400 Bad Request (15 bytes)"
unfolding fmt bad_request to_string insert
display_test = refl

abbrev hello : HttpResponse
hello = record {
  status_code = 200;
  status_text = codes "OK";
  headers = (codes "Server", codes "x") ∷ (codes "Content-Length", codes "2") ∷ [];
  body = 13 ∷ 200 ∷ [];
}

read_response-to_bytes_example :
    read_response (to_bytes as_stored hello)
    ≡ some
        (record { code = 200; reason = codes "OK"; headers = hello.headers; body = 13 ∷ 200 ∷ [] })
read_response-to_bytes_example = read_response-to_bytes as_stored hello (omega arith) (omega arith)

abbrev bytes_of_text : Text → Option (List ℕ)
bytes_of_text t = some t

abbrev page : HttpResponse
page =
    build bytes_of_text
      (apply_call bytes_of_text (build bytes_of_text (new 200) (sets_body (codes "old") ∷ []))
        (sets_json (codes "{}")))
      (adds_header (codes "X-Id") (codes "7") ∷ [])

page_body : page.body ≡ codes "{}"
unfolding build apply_call new json with_header set_body
page_body = refl
