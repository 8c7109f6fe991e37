-- ===== src/Http/Parser/Parse.antt =====
-- The outcomes of `parse`.
use rust_kernel_engine.Base.{
  ℕ, zero, suc, ◌≡◌, refl, ◌≢◌, ◌↔◌, ◌⊎◌, inl, inr, sym, ◌∙◌, ap, List, [], ◌∷◌, ◌++◌, false, some,
  ltb, arith, Option-cases, Outcome-cases, ok, panic, length, drop, take, take-append-drop,
  length-take,
}
use rust_kernel_engine.Std.Str.{Lowercase}
use rust_kernel_engine.Http.Parser.{
  HttpRequest, Httparse, Parsed, Status, complete, partial, collect_headers, parse, IsDocumented,
}

drop_all : (n : ℕ) (buf : List ℕ) → ltb n (length buf) ≡ false → drop n buf ≡ []
drop_all zero [] h = refl
drop_all zero (b ∷ buf) h = absurd (ground arith)
drop_all (suc n) [] h = refl
drop_all (suc n) (b ∷ buf) h = drop_all n buf (ground arith)

Status-cases : (s : Status) → (s ≡ partial) ⊎ ((n : ℕ) × (s ≡ complete n))
Status-cases partial = inl refl
Status-cases (complete n) = inr (n, refl)

module _ (lc : Lowercase) (httparse : Httparse) where
  -- What a successful parse has read.
  pub record Reads (buf : List ℕ) (req : HttpRequest) (p : Parsed) (n : ℕ) : Type 0 where
    pub found : httparse buf ≡ some p
    pub whole : p.status ≡ complete n
    pub method : p.method ≡ some req.method
    pub path : p.path ≡ some req.path
    pub version : p.version ≡ some req.version
    pub headers : req.headers ≡ collect_headers lc [] p.headers
    pub body : req.body ≡ drop n buf

  pub parse-Reads :
      (buf : List ℕ) {req : HttpRequest}
      → parse lc httparse buf ≡ ok req
      → (p : Parsed) × (n : ℕ) × Reads buf req p n
  unfolding parse
  parse-Reads buf {req} h = elim (Option-cases (httparse buf)) [
    | inl e ↦ cc
    | inr (p, e) ↦ elim (Status-cases p.status) [
      | inl s ↦ ground arith
      | inr (n, s) ↦ (
        p,
        n,
        record {
          found = e;
          whole = s;
          method = ground arith;
          path = ground arith;
          version = ground arith;
          headers = ground arith;
          body = ground (arith, drop_all n buf);
        },
      )
    ]
  ]

  -- `parse` returns a value or an error and never panics: `status.unwrap()` meets no `Partial`.
  pub parse-ne-panic : (buf : List ℕ) → parse lc httparse buf ≢ panic
  unfolding parse
  parse-ne-panic buf = ground arith

  module _ (doc : IsDocumented httparse) where
    complete-ok :
        (buf : List ℕ) (p : Parsed) (n : ℕ)
        → httparse buf ≡ some p
        → p.status ≡ complete n
        → (req : HttpRequest) × (parse lc httparse buf ≡ ok req)
    unfolding parse
    complete-ok buf p n found whole =
        let (parts, fits) = doc buf p n found whole in
        elim (Outcome-cases (parse lc httparse buf)) [
          | inl good ↦ good
          | inr bad ↦ absurd (ground (arith, parts.method, parts.path, parts.version))
        ]

    -- `parse` succeeds exactly when `httparse` finds a complete request.
    pub parse-ok_iff :
        (buf : List ℕ)
        → ((req : HttpRequest) × (parse lc httparse buf ≡ ok req))
          ↔ ((p : Parsed) × (n : ℕ) × (httparse buf ≡ some p) × (p.status ≡ complete n))
    parse-ok_iff buf = (
      (λ (req, h). let (p, n, r) = parse-Reads buf h in (p, n, r.found, r.whole)),
      λ (p, n, found, whole). complete-ok buf p n found whole,
    )

    -- The body of a parsed request is what stands in the buffer behind the head that `httparse`
    -- measured: head and body make up the whole buffer.
    pub parse-body :
        (buf : List ℕ) {req : HttpRequest}
        → parse lc httparse buf ≡ ok req
        → (head : List ℕ) × (p : Parsed) × (httparse buf ≡ some p)
          × (p.status ≡ complete (length head))
          × (buf ≡ head ++ req.body)
    parse-body buf {req} h =
        let (p, n, r) = parse-Reads buf h in
        let fits = (doc buf p n r.found r.whole).1 in
        (
          take n buf,
          p,
          r.found,
          r.whole ∙ ap complete (sym (length-take n buf fits)),
          sym (ap (λ b. take n buf ++ b) r.body ∙ take-append-drop n buf),
        )
