-- ===== src/Worker/Reactor/Handlers.antt =====
-- The answers of `handle_static_file` and `handle_dynamic` of src/worker/reactor.rs.
use rust_kernel_engine.Base.{
  ℕ, ◌≡◌, ◌≢◌, refl, subst, ◌∙◌, ◌↔◌, ◌⊎◌, inl, inr, is_neg, List, ◌∷◌, Bool, true, false, ◌&&◌,
  Option, none, some, Outcome, ok, err, panic, ltb, arith, Bool-cases, Option-cases, Outcome-cases,
  lt→ltb, ◌<◌,
}
use rust_kernel_engine.State.{bind}
use rust_kernel_engine.Std.Keys.{Text, text_eq, text_eq_iff}
use rust_kernel_engine.Std.Str.{codes}
use rust_kernel_engine.Std.FilePath.{join, extension, join_absolute}
use rust_kernel_engine.Config.{ServerConfig}
use rust_kernel_engine.Http.Parser.{HttpRequest, clean_path}
use rust_kernel_engine.Http.Response.{
  HttpResponse, ok_response, not_found, new, set_body, json, text, with_header,
}
use rust_kernel_engine.Http.Response.Framing.{
  IsFramed, set_body-IsFramed, text-IsFramed, json-IsFramed, with_header-IsFramed,
}
use rust_kernel_engine.Os.{Trace, exists_path}
use rust_kernel_engine.File.Mmap
use rust_kernel_engine.File.Mmap.{MmapFile}
use rust_kernel_engine.File.Mmap.Mapping.{new-ne-panic}
use rust_kernel_engine.Worker.Reactor.{
  Environment, Metrics, JsonObject, tail_of, content_type, with_content_type, serve_file,
  handle_static_file, handle_dynamic,
}

with_content_type-IsFramed :
    (ext : Option Text) (r : HttpResponse)
    → IsFramed r
    → IsFramed (with_content_type ext r)
      × ((with_content_type ext r).body ≡ r.body)
      × ((with_content_type ext r).status_code ≡ r.status_code)
unfolding with_header
with_content_type-IsFramed none r h = (h, refl, refl)
with_content_type-IsFramed (some ext) r h =
    (with_header-IsFramed r (codes "Content-Type") (content_type ext) (λ e. cc) h, refl, refl)

not_found-IsFramed : IsFramed not_found
unfolding not_found
not_found-IsFramed = set_body-IsFramed (new 404) (codes "404 Not Found")

not_found_code : not_found.status_code ≡ 404
unfolding not_found
not_found_code = refl

ok_response_code : ok_response.status_code ≡ 200
unfolding ok_response
ok_response_code = refl

json-status_code :
    (to_vec : JsonObject → Option (List ℕ)) (r : HttpResponse) (o : JsonObject)
    → (json to_vec r o).status_code ≡ r.status_code
unfolding json
json-status_code to_vec r o = ground arith

-- `text` and `with_header` keep the status.
text-status_code :
    (r : HttpResponse) (name value content : Text)
    → (text (with_header r name value) content).status_code ≡ r.status_code
unfolding text with_header
text-status_code r name value content = refl

module _ (env : Environment) (config : ServerConfig) where
  open env use {kernel, to_vec, encode}

  -- What `handle_static_file` may answer when it looks for a file: 200 with the bytes mapped from the
  -- file, 404, or the error of mapping it.
  abbrev pub AnswersFile : Text → Trace → Outcome HttpResponse → Type 0
  AnswersFile path t (ok r) =
      IsFramed r
      × (((is_neg (kernel t (exists_path path)).ret ≡ true) × (r.status_code ≡ 404))
          ⊎ ((is_neg (kernel t (exists_path path)).ret ≡ false)
              × (r.status_code ≡ 200)
              × ((m : MmapFile) × ((Mmap.new kernel path
                      ((exists_path path, kernel t (exists_path path)) ∷ t)).0
                    ≡ ok m)
                  × (r.body ≡ Mmap.as_slice m))))
  AnswersFile path t (err e) =
      (is_neg (kernel t (exists_path path)).ret ≡ false)
      × ((Mmap.new kernel path ((exists_path path, kernel t (exists_path path)) ∷ t)).0 ≡ err e)
  AnswersFile path t panic = ⊥

  serve_file-AnswersFile :
      (path : Text) (t : Trace)
      → is_neg (kernel t (exists_path path)).ret ≡ false
      → AnswersFile path t
          (serve_file env config path ((exists_path path, kernel t (exists_path path)) ∷ t)).0
  unfolding serve_file ok_response new set_body
  serve_file-AnswersFile path t there =
      let t₁ : Trace = (exists_path path, kernel t (exists_path path)) ∷ t in
      elim (Outcome-cases (Mmap.new kernel path t₁).0) [
        | inl (m, e) ↦
            let (framed, body, code) =
              with_content_type-IsFramed (extension path) (set_body ok_response (Mmap.as_slice m))
                (set_body-IsFramed ok_response (Mmap.as_slice m)) in
            rw (e, bind) (framed, inr (there, code, (m, e, body)))
        | inr (inl (f, e)) ↦ rw (e, bind) (there, e)
        | inr (inr e) ↦ absurd (new-ne-panic kernel path t₁ e)
      ]

  -- Every request whose clean path starts with an ASCII character is answered from the file that
  -- the rest of the path names below the static directory: status 404 if it does not exist, status
  -- 200 and exactly the mapped bytes if it can be mapped, and otherwise the error of mapping it. The
  -- length header always fits the body.
  pub handle_static_file-AnswersFile :
      (req : HttpRequest) (c : ℕ) (tail : Text) (t : Trace)
      → clean_path req ≡ c ∷ tail
      → c < 128
      → AnswersFile (join config.static_dir tail) t (handle_static_file env config req t).0
  unfolding handle_static_file
  handle_static_file-AnswersFile req c tail t e ascii =
      let path = join config.static_dir tail in
      let first : ltb c 128 ≡ true = lt→ltb c 128 ascii in
      elim (Bool-cases (is_neg (kernel t (exists_path path)).ret)) [
        | inl missing ↦
            rw (e, tail_of, first, missing) (not_found-IsFramed, inl (missing, not_found_code))
        | inr there ↦ rw (e, tail_of, first, there) (serve_file-AnswersFile path t there)
      ]

  -- Two slashes at the start of the path reach any file: the static directory has no effect.
  handle_static_file_absolute :
      (req : HttpRequest) (rest : Text) (t : Trace)
      → clean_path req ≡ b'/' ∷ b'/' ∷ rest
      → AnswersFile (b'/' ∷ rest) t (handle_static_file env config req t).0
  handle_static_file_absolute req rest t e =
      let answer = handle_static_file-AnswersFile req b'/' (b'/' ∷ rest) t e (omega arith) in
      subst (λ p. AnswersFile p t (handle_static_file env config req t).0)
        (join_absolute config.static_dir rest) answer

  -- The three paths of the API, by `GET`.
  abbrev pub IsApi : HttpRequest → Type 0
  IsApi req =
      (req.method ≡ codes "GET")
      × ((clean_path req ≡ codes "/api/health")
          ⊎ ((clean_path req ≡ codes "/api/metrics") ⊎ (clean_path req ≡ codes "/api/stats")))

  abbrev asks_for : HttpRequest → Text → Bool
  asks_for req path = text_eq req.method (codes "GET") && text_eq (clean_path req) path

  asks_for_iff :
      (req : HttpRequest) (path : Text)
      → (asks_for req path ≡ true) ↔ ((req.method ≡ codes "GET") × (clean_path req ≡ path))
  asks_for_iff req path =
      ground (arith, text_eq_iff req.method (codes "GET"), text_eq_iff (clean_path req) path)

  -- An answer to a request that asks for something of the API, or for nothing of it.
  abbrev pub Answers : HttpRequest → Outcome HttpResponse → Type 0
  Answers req (ok r) =
      IsFramed r × (((r.status_code ≡ 200) × IsApi req) ⊎ ((r.status_code ≡ 404) × ¬ IsApi req))
  Answers req _ = ⊥

  json-Answers :
      (req : HttpRequest) (o : JsonObject)
      → to_vec o ≢ none
      → IsApi req
      → Answers req (ok (json to_vec ok_response o))
  json-Answers req o h api = elim (Option-cases (to_vec o)) [
    | inl e ↦ absurd (h e)
    | inr (bytes, e) ↦ (
      json-IsFramed to_vec ok_response o e,
      inl (json-status_code to_vec ok_response o ∙ ok_response_code, api),
    )
  ]

  -- If serialisation succeeds, every request is answered with a length header that fits the body:
  -- with status 200 if it is a `GET` of one of the three paths of the API, and with 404 if not.
  pub handle_dynamic-Answers :
      (req : HttpRequest) (m : Metrics)
      → ((o : JsonObject) → to_vec o ≢ none)
      → encode m ≢ none
      → Answers req (handle_dynamic env config req m)
  unfolding handle_dynamic
  handle_dynamic-Answers req m json_ok encode_ok =
      elim (Bool-cases (asks_for req (codes "/api/health"))) [
        | inl a ↦
            let (g, p) = (asks_for_iff req (codes "/api/health")).0 a in
            rw a (json-Answers req _ (json_ok _) (g, inl p))
        | inr a ↦ elim (Bool-cases (asks_for req (codes "/api/metrics"))) [
          | inl b ↦
              let (g, p) = (asks_for_iff req (codes "/api/metrics")).0 b in
              elim (Option-cases (encode m)) [
                | inl e ↦ absurd (encode_ok e)
                | inr (buffer, e) ↦
                    rw (a, b, e)
                      (
                        text-IsFramed _ _,
                        inl (
                          text-status_code ok_response _ _ _ ∙ ok_response_code,
                          (g, inr (inl p)),
                        ),
                      )
              ]
          | inr b ↦ elim (Bool-cases (asks_for req (codes "/api/stats"))) [
            | inl c ↦
                let (g, p) = (asks_for_iff req (codes "/api/stats")).0 c in
                rw (a, b, c) (json-Answers req _ (json_ok _) (g, inr (inr p)))
            | inr c ↦
                rw (a, b, c)
                  (
                    not_found-IsFramed,
                    inr (
                      not_found_code,
                      λ (g, p). elim p [
                        | inl q ↦ ground (arith, (asks_for_iff req (codes "/api/health")).1 (g, q))
                        | inr (inl q) ↦
                            ground (arith, (asks_for_iff req (codes "/api/metrics")).1 (g, q))
                        | inr (inr q) ↦
                            ground (arith, (asks_for_iff req (codes "/api/stats")).1 (g, q))
                      ],
                    ),
                  )
          ]
        ]
      ]
