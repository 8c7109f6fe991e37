-- ===== src/Http/Response/Plain.antt =====
-- The responses that src/http/response.rs builds from plain texts, which a client can read back.
use mathlib.Core.List.{Perm, Permᴰ}
use mathlib.Core.List.Perm
use mathlib.Core.List.Permᴰ.{nil, cons, swap, trans}
use mathlib.Core.Logic.{∥∥₁_elim}
use native.Mathlib.Bridge.{le_prop}
use rust_kernel_engine.Base.{
  ℕ, ◌≡◌, refl, subst, List, [], ◌∷◌, Bool, true, ◌||◌, ◌==◌, Option, some, All, arith, length,
  Option-cases, inl, inr,
}
use rust_kernel_engine.Std.Keys.{Text, text_key}
use rust_kernel_engine.Std.HashMap.{insert, All-insert}
use rust_kernel_engine.Std.Numbers.{to_string, to_string-IsDigit}
use rust_kernel_engine.Std.Str.{codes, as_bytes}
use rust_kernel_engine.Http.Response.{
  HttpResponse, Iteration, new, ok_response, not_found, bad_request, set_body, json, text,
  with_header, with_typed_body, to_bytes,
}
use rust_kernel_engine.Http.Response.Reader.{
  IsReadable, IsClean, digits_plain, read_response, read_response-to_bytes,
}

-- The codes that the handlers answer with.
abbrev pub is_answer_code : ℕ → Bool
is_answer_code code = code == 200 || code == 400 || code == 404

-- Status and headers are plain texts, and the code is one of the handlers'.
pub record IsPlain (r : HttpResponse) : Type 0 where
  pub readable : IsReadable r
  pub answer_code : is_answer_code r.status_code ≡ true
  pub clean : All IsClean r.headers

-- New headers only.
add_header-IsPlain :
    (r : HttpResponse) (name value : Text) (body : List ℕ)
    → IsClean (name, value)
    → IsPlain r
    → IsPlain (record r { headers = insert name value r.headers; body = body })
add_header-IsPlain r name value body c p = record {
  readable = record {
    code = p.readable.code;
    reason_ascii = p.readable.reason_ascii;
    reason_no_cr = p.readable.reason_no_cr;
  };
  answer_code = p.answer_code;
  clean = All-insert IsClean name value r.headers c p.clean;
}

length_header-IsClean : (n : ℕ) → IsClean (codes "Content-Length", to_string n)
length_header-IsClean n =
    let (ascii, no_cr, _) = digits_plain (to_string n) (to_string-IsDigit n).0 in
    (omega arith, omega arith, omega arith, ascii, no_cr)

pub with_header-IsPlain :
    (r : HttpResponse) (name value : Text)
    → IsClean (name, value)
    → IsPlain r
    → IsPlain (with_header r name value)
unfolding with_header
with_header-IsPlain r name value c p = add_header-IsPlain r name value r.body c p

pub set_body-IsPlain : (r : HttpResponse) (body : List ℕ) → IsPlain r → IsPlain (set_body r body)
unfolding set_body
set_body-IsPlain r body p =
    add_header-IsPlain r (codes "Content-Length") _ body (length_header-IsClean (length body)) p

with_typed_body-IsPlain :
    (r : HttpResponse) (content_type : Text) (body : List ℕ)
    → IsClean (codes "Content-Type", content_type)
    → IsPlain r
    → IsPlain (with_typed_body r content_type body)
unfolding with_typed_body
with_typed_body-IsPlain r content_type body c p =
    add_header-IsPlain _ (codes "Content-Length") _ body (length_header-IsClean (length body))
      (add_header-IsPlain r (codes "Content-Type") content_type r.body c p)

pub text-IsPlain : (r : HttpResponse) (content : Text) → IsPlain r → IsPlain (text r content)
unfolding text
text-IsPlain r content p = with_typed_body-IsPlain r _ (as_bytes content) (omega arith) p

pub json-IsPlain {ℓ} :
    {T : Type ℓ} (to_vec : T → Option (List ℕ)) (r : HttpResponse) (value : T)
    → IsPlain r
    → IsPlain (json to_vec r value)
unfolding json
json-IsPlain to_vec r value p = elim (Option-cases (to_vec value)) [
  | inl e ↦ rw (e, json) p
  | inr (bytes, e) ↦ rw (e, json) (with_typed_body-IsPlain r _ bytes (omega arith) p)
]

new_200-IsPlain : IsPlain (new 200)
unfolding new insert
new_200-IsPlain = record {
  readable = record { code = omega arith; reason_ascii = omega arith; reason_no_cr = omega arith };
  answer_code = refl;
  clean = omega arith;
}

pub ok_response-IsPlain : IsPlain ok_response
unfolding ok_response
ok_response-IsPlain = new_200-IsPlain

new_400-IsPlain : IsPlain (new 400)
unfolding new insert
new_400-IsPlain = record {
  readable = record { code = omega arith; reason_ascii = omega arith; reason_no_cr = omega arith };
  answer_code = refl;
  clean = omega arith;
}

new_404-IsPlain : IsPlain (new 404)
unfolding new insert
new_404-IsPlain = record {
  readable = record { code = omega arith; reason_ascii = omega arith; reason_no_cr = omega arith };
  answer_code = refl;
  clean = omega arith;
}

pub not_found-IsPlain : IsPlain not_found
unfolding not_found
not_found-IsPlain = set_body-IsPlain (new 404) (codes "404 Not Found") new_404-IsPlain

pub bad_request-IsPlain : IsPlain bad_request
unfolding bad_request
bad_request-IsPlain = set_body-IsPlain (new 400) (codes "400 Bad Request") new_400-IsPlain

All-IsProp {ℓ κ} :
    {A : Type ℓ} {P : A → Type κ} → ((x : A) → IsProp (P x)) → (xs : List A) → IsProp (All P xs)
All-IsProp h [] a b = refl
All-IsProp h (x ∷ xs) a b = λ i. (h x a.0 b.0 i, All-IsProp h xs a.1 b.1 i)

IsClean-IsProp : (h : Text × Text) → IsProp (IsClean h)
IsClean-IsProp (name, value) a b = λ i. (
  All-IsProp (λ c. le_prop) name a.0 b.0 i,
  All-IsProp (λ c. hlevel) name a.1 b.1 i,
  All-IsProp (λ c. hlevel) name a.2 b.2 i,
  All-IsProp (λ c. le_prop) value a.3 b.3 i,
  All-IsProp (λ c. hlevel) value a.4 b.4 i,
)

All-Permᴰ {ℓ κ} : {A : Type ℓ} (P : A → Type κ) {xs ys : List A} → Permᴰ xs ys → All P xs → All P ys
All-Permᴰ P nil h = tt
All-Permᴰ P (cons e p) h = (subst P e h.0, All-Permᴰ P p h.1)
All-Permᴰ P (swap e e') h = (subst P e' h.1.0, (subst P e h.0, h.1.1))
All-Permᴰ P (trans p q) h = All-Permᴰ P q (All-Permᴰ P p h)

All-Perm : {xs ys : List (Text × Text)} → Perm xs ys → All IsClean xs → All IsClean ys
All-Perm {ys} p h = ∥∥₁_elim p (All-IsProp IsClean-IsProp ys) (λ d. All-Permᴰ IsClean d h)

-- The bytes of a plain response are read back as its status, reason and body, with its headers in the
-- order of iteration.
pub read_response-IsPlain :
    (it : Iteration) (r : HttpResponse)
    → IsPlain r
    → read_response (to_bytes it r)
      ≡ some (record {
        code = r.status_code;
        reason = r.status_text;
        headers = it.entries r.headers;
        body = r.body;
      })
read_response-IsPlain it r p =
    read_response-to_bytes it r p.readable
      (All-Perm (Perm.symm (it.entries_perm r.headers)) p.clean)
