-- ===== src/Http/Response/Size.antt =====
-- `HttpResponse::size` of src/http/response.rs.
use mathlib.Core.List.{Perm, Permᴰ}
use mathlib.Core.Logic.{∥∥₁_elim}
use native.Mathlib.Nat.{ℕ_set}
use rust_kernel_engine.Base.{◌+◌, ◌≡◌, refl, ap, ◌∙◌, List, ◌∷◌, ◌++◌, arith, length, length-append}
use rust_kernel_engine.Std.Keys.{Text}
use rust_kernel_engine.Std.Str.{as_bytes}
use rust_kernel_engine.Http.Response.{
  HttpResponse, Iteration, status_line, header_line, header_bytes, to_bytes, size, crlf,
}

length-header_bytes :
    {hs hs' : List (Text × Text)}
    → Permᴰ hs hs'
    → length (header_bytes hs) ≡ length (header_bytes hs')
unfolding header_bytes
length-header_bytes Permᴰ.nil = refl
length-header_bytes (Permᴰ.cons {a = a} {b = b} {l₁ = l₁} {l₂ = l₂} e p) = omega (
  arith,
  length-append (as_bytes (header_line a)) (header_bytes l₁),
  length-append (as_bytes (header_line b)) (header_bytes l₂),
  ap (λ h. length (as_bytes (header_line h))) e,
  length-header_bytes p,
)
length-header_bytes (Permᴰ.swap {a = a} {b = b} {a' = a'} {b' = b'} {l = l} e f) = omega (
  arith,
  length-append (as_bytes (header_line a)) (header_bytes (b ∷ l)),
  length-append (as_bytes (header_line b)) (header_bytes l),
  length-append (as_bytes (header_line a')) (header_bytes (b' ∷ l)),
  length-append (as_bytes (header_line b')) (header_bytes l),
  ap (λ h. length (as_bytes (header_line h))) e,
  ap (λ h. length (as_bytes (header_line h))) f,
)
length-header_bytes (Permᴰ.trans p q) = length-header_bytes p ∙ length-header_bytes q

length_of_perm :
    (hs hs' : List (Text × Text))
    → Perm hs hs'
    → length (header_bytes hs) ≡ length (header_bytes hs')
length_of_perm hs hs' p = ∥∥₁_elim p (ℕ_set _ _) length-header_bytes

-- The size is that of the status line, the headers in any arrangement, an empty line and the body;
-- so it is the same for every order of iteration.
size_lem :
    (it : Iteration) (r : HttpResponse)
    → size it r
      ≡ length (as_bytes (status_line r)) + length (header_bytes r.headers) + 2 + length r.body
unfolding size to_bytes
size_lem it r = omega (
  arith,
  length-append (as_bytes (status_line r))
      (header_bytes (it.entries r.headers) ++ (crlf ++ r.body)),
  length-append (header_bytes (it.entries r.headers)) (crlf ++ r.body),
  length_of_perm (it.entries r.headers) r.headers (it.entries_perm r.headers),
)
