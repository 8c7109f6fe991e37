-- ===== src/Bench/Requests.antt =====
-- The request of bench/run_bench.rs as `HttpRequest::parse` of src/http/parser.rs reads it.
use rust_kernel_engine.Base.{ℕ, [], ◌∷◌, ◌++◌, some, length}
use rust_kernel_engine.Std.Keys.{Text}
use rust_kernel_engine.Std.Numbers.{to_string}
use rust_kernel_engine.Std.Str.{codes}
use rust_kernel_engine.Http.Parser.{Parsed, complete}

-- The request up to its body.
abbrev pub head_of : ℕ → Text
head_of n =
    codes "POST /api/data HTTP/1.1\r\nHost: localhost\r\nContent-Length: "
    ++ (to_string n ++ codes "\r\nConnection: keep-alive\r\n\r\n")

-- What there is to find in it.
abbrev pub parsed_of : ℕ → Parsed
parsed_of n = record {
  status = complete (length (head_of n));
  method = some (codes "POST");
  path = some (codes "/api/data");
  version = some 1;
  headers =
      (codes "Host", codes "localhost")
      ∷ (codes "Content-Length", to_string n)
      ∷ (codes "Connection", codes "keep-alive")
      ∷ [];
}
