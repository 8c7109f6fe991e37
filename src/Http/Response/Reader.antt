-- ===== src/Http/Response/Reader.antt =====
-- What a client reads from the bytes of a response.
use mathlib.Core.Option
use rust_kernel_engine.Base.{
  ℕ, zero, suc, ◌≤◌, ◌<◌, ◌≡◌, refl, ◌≢◌, List, [], ◌∷◌, ◌++◌, ◌&&◌, Option, none, some, ◌==◌,
  if◌then◌else◌, All, All-append, arith, take, drop, length, length-append, take-append,
  drop-append, drop-length-append, append_assoc,
}
use rust_kernel_engine.Std.Keys.{Text, text_eq}
use rust_kernel_engine.Std.Numbers.{
  to_string, from_str_radix, from_str_radix-to_string, to_string-IsDigit, IsDigit,
}
use rust_kernel_engine.Std.Str.{codes, find, find-append, IsAscii, as_bytes, as_bytes-ascii}
use rust_kernel_engine.Http.Response.{
  HttpResponse, Iteration, status_line, header_line, header_bytes, to_bytes, crlf,
}

infixl 5 ◌>>=◌
abbrev ◌>>=◌ {ℓ κ} : {A : Type ℓ} {B : Type κ} → Option A → (A → Option B) → Option B
none >>= f = none
some a >>= f = f a

-- The bytes up to the first CR LF, and those behind it.
abbrev split_line : List ℕ → Option (List ℕ × List ℕ)
split_line [] = none
split_line (a ∷ []) = none
split_line (a ∷ b ∷ s) =
    if (a == 13) && (b == 10)
    then some ([], s)
    else Option.map (λ r. (a ∷ r.0, r.1)) (split_line (b ∷ s))

-- `name: value`
abbrev read_header : List ℕ → Option (Text × Text)
read_header line = do i ← find b':' line; some (take i line, drop 2 (drop i line))

-- Header lines up to an empty line, and the bytes behind that.
read_headers : ℕ → List ℕ → Option (List (Text × Text) × List ℕ)
read_headers zero s = none
read_headers (suc f) s = do
  r ← split_line s
  elim r.0 [
    | [] ↦ some ([], r.1)
    | c ∷ line ↦ do h ← read_header (c ∷ line); rest ← read_headers f r.1; some (h ∷ rest.0, rest.1)
  ]

-- The code up to a blank, and the reason behind it.
abbrev read_code : List ℕ → Option (ℕ × Text)
read_code s = do
  i ← find b' ' s
  code ← from_str_radix 10 65535 (take i s)
  some (code, drop (suc i) s)

abbrev read_status : List ℕ → Option (ℕ × Text)
read_status line =
    if text_eq (take 9 line) (codes "HTTP/1.1 ") then read_code (drop 9 line) else none

pub record Reading : Type 0 where
  pub code : ℕ
  pub reason : Text
  pub headers : List (Text × Text)
  pub body : List ℕ

-- A reader of HTTP/1.1 responses, independent of the code that writes them.
pub read_response : List ℕ → Option Reading
unfolding read_headers
read_response s = do
  r ← split_line s
  status ← read_status r.0
  rest ← read_headers (length s) r.1
  some (record { code = status.0; reason = status.1; headers = rest.0; body = rest.1 })

abbrev pub NoCr : Text → Type 0
NoCr = All (λ c. c ≢ 13)

-- ASCII, with no carriage return; a name has no colon either.
abbrev pub IsClean : Text × Text → Type 0
IsClean (name, value) =
    IsAscii name × NoCr name × All (λ c. c ≢ b':') name × IsAscii value × NoCr value

split_line_lem : (line s : List ℕ) → NoCr line → split_line (line ++ (crlf ++ s)) ≡ some (line, s)
split_line_lem [] s h = refl
split_line_lem (c ∷ []) s h = ground arith
split_line_lem (c ∷ d ∷ line) s h = ground (arith, split_line_lem (d ∷ line) s h.1)

-- A header line without its CR LF.
abbrev bare : Text × Text → Text
bare (name, value) = name ++ (b':' ∷ b' ' ∷ value)

bare-NoCr : (h : Text × Text) → IsClean h → NoCr (bare h)
bare-NoCr (name, value) (_, no_cr, _, _, no_cr') =
    All-append _ name _ no_cr (omega arith, (omega arith, no_cr'))

bytes_of_header :
    (h : Text × Text) (s : List ℕ)
    → IsClean h
    → as_bytes (header_line h) ++ s ≡ bare h ++ (crlf ++ s)
bytes_of_header (name, value) s (ascii, _, _, ascii', _) =
    rw
      (as_bytes-ascii (header_line (name, value)) (
        All-append _ name _ ascii
          (omega arith, (omega arith, All-append _ value _ ascii' (omega arith)))))
      (simp append_assoc)

read_header-bare : (h : Text × Text) → IsClean h → read_header (bare h) ≡ some h
read_header-bare (name, value) (_, _, no_colon, _, _) =
    rw (find-append b':' name (b' ' ∷ value) no_colon, take-append, drop-length-append) refl

read_headers_line :
    (f : ℕ) (line s : List ℕ) (h : Text × Text) (rest : List (Text × Text) × List ℕ)
    → NoCr line
    → line ≢ []
    → read_header line ≡ some h
    → read_headers f s ≡ some rest
    → read_headers (suc f) (line ++ (crlf ++ s)) ≡ some (h ∷ rest.0, rest.1)
unfolding read_headers
read_headers_line f [] s h rest n ne e k = absurd (ne refl)
read_headers_line f (c ∷ line) s h rest n ne e k = rw (split_line_lem (c ∷ line) s n, e, k) refl

bare-ne-nil : (h : Text × Text) → bare h ≢ []
bare-ne-nil ([], value) = cc
bare-ne-nil (c ∷ name, value) = cc

read_headers_lem :
    (hs : List (Text × Text)) (f : ℕ) (body : List ℕ)
    → All IsClean hs
    → length hs < f
    → read_headers f (header_bytes hs ++ (crlf ++ body)) ≡ some (hs, body)
unfolding header_bytes
read_headers_lem hs zero body c h = elim h [ ]
read_headers_lem [] (suc f) body c h = unfold read_headers in refl
read_headers_lem (h ∷ hs) (suc f) body c lt =
    rw
      (
        append_assoc (as_bytes (header_line h)) (header_bytes hs) (crlf ++ body),
        bytes_of_header h (header_bytes hs ++ (crlf ++ body)) c.0,
      )
      (read_headers_line f (bare h) _ h (hs, body) (bare-NoCr h c.0) (bare-ne-nil h)
        (read_header-bare h c.0) (read_headers_lem hs f body c.1 (omega arith)))

length-le-header_bytes :
    (hs : List (Text × Text)) → All IsClean hs → length hs ≤ length (header_bytes hs)
unfolding header_bytes
length-le-header_bytes [] c = omega arith
length-le-header_bytes (h ∷ hs) c =
    rw (bytes_of_header h (header_bytes hs) c.0, length-append (bare h) (crlf ++ header_bytes hs))
      (omega (arith, length-le-header_bytes hs c.1))

-- The status line without its CR LF.
abbrev bare_status : HttpResponse → Text
bare_status r = codes "HTTP/1.1 " ++ (to_string r.status_code ++ b' ' ∷ r.status_text)

pub record IsReadable (r : HttpResponse) : Type 0 where
  pub code : r.status_code ≤ 65535
  pub reason_ascii : IsAscii r.status_text
  pub reason_no_cr : NoCr r.status_text

pub digits_plain : (s : Text) → All IsDigit s → IsAscii s × NoCr s × All (λ c. c ≢ b' ') s
digits_plain [] h = (tt, tt, tt)
digits_plain (c ∷ s) h =
    let (a, n, b) = digits_plain s h.1 in ((omega arith, a), (omega arith, n), (omega arith, b))

code_plain :
    (n : ℕ) → IsAscii (to_string n) × NoCr (to_string n) × All (λ c. c ≢ b' ') (to_string n)
code_plain n = digits_plain (to_string n) (to_string-IsDigit n).0

status_line-IsAscii : (r : HttpResponse) → IsReadable r → IsAscii (status_line r)
unfolding status_line
status_line-IsAscii r v = All-append _ (codes "HTTP/1.1 ") _ (omega arith) (
    All-append _ (to_string r.status_code) _ (code_plain r.status_code).0
      (omega arith, All-append _ r.status_text _ v.reason_ascii (omega arith)))

bytes_of_status :
    (r : HttpResponse) (s : List ℕ)
    → IsReadable r
    → as_bytes (status_line r) ++ s ≡ bare_status r ++ (crlf ++ s)
unfolding status_line
bytes_of_status r s v =
    rw (as_bytes-ascii (status_line r) (status_line-IsAscii r v)) (simp append_assoc)

bare_status-NoCr : (r : HttpResponse) → IsReadable r → NoCr (bare_status r)
bare_status-NoCr r v = All-append _ (codes "HTTP/1.1 ") _ (omega arith) (
    All-append _ (to_string r.status_code) _ (code_plain r.status_code).1
      (omega arith, v.reason_no_cr))

read_status_lem :
    (r : HttpResponse)
    → IsReadable r
    → read_status (bare_status r) ≡ some (r.status_code, r.status_text)
read_status_lem r v =
    rw
      (
        find-append b' ' (to_string r.status_code) r.status_text (code_plain r.status_code).2,
        take-append,
        drop-append (to_string r.status_code) r.status_text b' ',
        from_str_radix-to_string 65535 r.status_code v.code,
      )
      refl

-- A client reads back the status code, the reason, the headers in the order in which they were
-- written and exactly the body, whatever bytes it holds, if the code fits 16 bits, reason and
-- headers are ASCII without a carriage return, and no header name has a colon.
pub read_response-to_bytes :
    (it : Iteration) (r : HttpResponse)
    → IsReadable r
    → All IsClean (it.entries r.headers)
    → read_response (to_bytes it r)
      ≡ some (record {
        code = r.status_code;
        reason = r.status_text;
        headers = it.entries r.headers;
        body = r.body;
      })
unfolding read_response to_bytes
read_response-to_bytes it r v c =
    let hs = it.entries r.headers in
    let tail = header_bytes hs ++ (crlf ++ r.body) in
    let fits : length hs < length (bare_status r ++ (crlf ++ tail)) =
      rw
        (
          length-append (bare_status r) (crlf ++ tail),
          length-append (header_bytes hs) (crlf ++ r.body),
        )
        (omega (arith, length-le-header_bytes hs c)) in
    rw
      (
        bytes_of_status r tail v,
        split_line_lem (bare_status r) tail (bare_status-NoCr r v),
        read_status_lem r v,
        read_headers_lem hs _ r.body c fits,
      )
      refl
