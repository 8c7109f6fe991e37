-- ===== src/Http/Response/Framing.antt =====
-- The `Content-Length` header of a response against its body.
use rust_kernel_engine.Base.{
  ℕ, ◌≤◌, ◌≡◌, refl, ◌≢◌, subst, List, [], ◌∷◌, Option, none, some, All, arith, length,
  Option-cases, inl, inr,
}
use rust_kernel_engine.Std.Keys.{Text, text_eq_iff, text_key}
use rust_kernel_engine.Std.HashMap.{get, get-insert}
use rust_kernel_engine.Std.Numbers.{to_string, from_str_radix, usize_max, from_str_radix-to_string}
use rust_kernel_engine.Std.Str.{codes, as_bytes}
use rust_kernel_engine.Http.Response.{
  HttpResponse, new, set_body, json, html, text, with_header, with_typed_body,
}

-- The header gives the length of the body.
abbrev pub IsFramed : HttpResponse → Type 0
IsFramed r = get (codes "Content-Length") r.headers ≡ some (to_string (length r.body))

-- The calls with which the program builds a response. `T` is what can be serialised.
pub data Call {ℓ} (T : Type ℓ) : Type ℓ where
  sets_body : List ℕ → Call T
  sets_json : T → Call T
  sets_html sets_text : Text → Call T
  adds_header : Text → Text → Call T

pub set_body-IsFramed : (r : HttpResponse) (body : List ℕ) → IsFramed (set_body r body)
unfolding set_body
set_body-IsFramed r body = rw get-insert refl

with_typed_body-IsFramed :
    (r : HttpResponse) (content_type : Text) (body : List ℕ)
    → IsFramed (with_typed_body r content_type body)
unfolding with_typed_body
with_typed_body-IsFramed r content_type body = rw get-insert refl

pub text-IsFramed : (r : HttpResponse) (content : Text) → IsFramed (text r content)
unfolding text
text-IsFramed r content = with_typed_body-IsFramed r _ (as_bytes content)

pub with_header-IsFramed :
    (r : HttpResponse) (name value : Text)
    → name ≢ codes "Content-Length"
    → IsFramed r
    → IsFramed (with_header r name value)
unfolding with_header
with_header-IsFramed r name value ne h =
    rw get-insert (ground (arith, h, text_eq_iff name (codes "Content-Length")))

module _ {ℓ} {T : Type ℓ} (to_vec : T → Option (List ℕ)) where
  unfoldable pub apply_call : HttpResponse → Call T → HttpResponse
  apply_call r (sets_body body) = set_body r body
  apply_call r (sets_json value) = json to_vec r value
  apply_call r (sets_html content) = html r content
  apply_call r (sets_text content) = text r content
  apply_call r (adds_header name value) = with_header r name value

  unfoldable pub build : HttpResponse → List (Call T) → HttpResponse
  build r [] = r
  build r (c ∷ cs) = build (apply_call r c) cs

  -- The call sets a body: a value that cannot be serialised sets none.
  abbrev SetsBody : Call T → Type 0
  SetsBody (sets_json value) = to_vec value ≢ none
  SetsBody (adds_header name value) = ⊥
  SetsBody _ = Unit

  abbrev KeepsLength : Call T → Type 0
  KeepsLength (adds_header name value) = name ≢ codes "Content-Length"
  KeepsLength _ = Unit

  pub json-IsFramed :
      (r : HttpResponse) (value : T) {bytes : List ℕ}
      → to_vec value ≡ some bytes
      → IsFramed (json to_vec r value)
  unfolding json
  json-IsFramed r value {bytes} e =
      rw (e, json) (with_typed_body-IsFramed r (codes "application/json") bytes)

  apply_call_sets : (r : HttpResponse) (c : Call T) → SetsBody c → IsFramed (apply_call r c)
  unfolding apply_call html text
  apply_call_sets r (sets_body body) s = set_body-IsFramed r body
  apply_call_sets r (sets_json value) s = elim (Option-cases (to_vec value)) [
    | inl e ↦ absurd (s e)
    | inr (bytes, e) ↦ json-IsFramed r value e
  ]
  apply_call_sets r (sets_html content) s = with_typed_body-IsFramed r _ (as_bytes content)
  apply_call_sets r (sets_text content) s = with_typed_body-IsFramed r _ (as_bytes content)
  apply_call_sets r (adds_header name value) s = absurd s

  apply_call_keeps :
      (r : HttpResponse) (c : Call T) → KeepsLength c → IsFramed r → IsFramed (apply_call r c)
  unfolding apply_call json
  apply_call_keeps r (sets_json value) s h = elim (Option-cases (to_vec value)) [
    | inl e ↦ rw (e, json) h
    | inr (bytes, e) ↦ json-IsFramed r value e
  ]
  apply_call_keeps r (adds_header name value) s h = with_header-IsFramed r name value s h
  apply_call_keeps r (sets_body body) s h = set_body-IsFramed r body
  apply_call_keeps r (sets_html content) s h = apply_call_sets r (sets_html content) tt
  apply_call_keeps r (sets_text content) s h = apply_call_sets r (sets_text content) tt

  build-IsFramed :
      (r : HttpResponse) (cs : List (Call T))
      → All KeepsLength cs
      → IsFramed r
      → IsFramed (build r cs)
  unfolding build
  build-IsFramed r [] k h = h
  build-IsFramed r (c ∷ cs) k h =
      build-IsFramed (apply_call r c) cs k.1 (apply_call_keeps r c k.0 h)

  -- Once a call has set a body, whatever the calls before it and as long as no later call writes
  -- `Content-Length` by hand, the header reads back as the length of the final body.
  build_framed :
      (code : ℕ) (before after : List (Call T)) (c : Call T)
      → SetsBody c
      → All KeepsLength after
      → (r : HttpResponse) → build (apply_call (build (new code) before) c) after ≡ r
      → length r.body ≤ usize_max
      → (v : Text) × (get (codes "Content-Length") r.headers ≡ some v)
        × (from_str_radix 10 usize_max v ≡ some (length r.body))
  build_framed code before after c s k r e fits =
      let framed = build-IsFramed _ after k (apply_call_sets (build (new code) before) c s) in
      (
        to_string (length r.body),
        subst IsFramed e framed,
        from_str_radix-to_string usize_max (length r.body) fits,
      )
