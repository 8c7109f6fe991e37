-- ===== src/Http/Parser/Query.antt =====
-- The path of a request and its query parameters.
use rust_kernel_engine.Base.{
  ℕ, suc, ◌<◌, ◌≡◌, refl, ◌≢◌, ◌⊎◌, inl, inr, List, [], ◌∷◌, ◌++◌, All, All-append, arith, drop,
  Option-cases, take-append, drop-append,
}
use rust_kernel_engine.Std.Keys.{Text, text_key}
use rust_kernel_engine.Std.HashMap.{HashMap, insert}
use rust_kernel_engine.Std.Str.{
  find, find-some, find-none, find-append, split, split_lem, split-Lacks,
}
use rust_kernel_engine.Http.UrlDecode.RoundTrip.{percent_encode, encode_byte, decode-percent_encode}
use rust_kernel_engine.Http.Parser.{
  HttpRequest, decode_or_default, insert_pair, insert_pairs, query_params, clean_path,
}

-- The clean path has no question mark, and the path is the clean path alone, or the clean path, a
-- question mark and the query.
clean_path-split :
    (req : HttpRequest)
    → All (λ c. c ≢ b'?') (clean_path req)
      × ((req.path ≡ clean_path req)
          ⊎ ((query : Text) × (req.path ≡ clean_path req ++ b'?' ∷ query)))
unfolding clean_path
clean_path-split req = elim (Option-cases (find b'?' req.path)) [
  | inl e ↦ rw (e, clean_path) (find-none b'?' req.path e, inl refl)
  | inr (i, e) ↦
      let (whole, lacks) = find-some b'?' req.path e in
      rw (e, clean_path) (lacks, inr (drop (suc i) req.path, whole))
]

-- A query as a client writes it: each key and value percent encoded, `=` between them, `&` between
-- the pairs.
abbrev pub encode_pair : List ℕ × List ℕ → Text
encode_pair (k, v) = percent_encode k ++ b'=' ∷ percent_encode v

abbrev pub encode_query : List (List ℕ × List ℕ) → Text
encode_query [] = []
encode_query (kv ∷ []) = encode_pair kv
encode_query (kv ∷ kv' ∷ rest) = encode_pair kv ++ b'&' ∷ encode_query (kv' ∷ rest)

abbrev pub insert_all : HashMap Text Text → List (List ℕ × List ℕ) → HashMap Text Text
insert_all m [] = m
insert_all m ((k, v) ∷ rest) = insert_all (insert k v m) rest

abbrev pub IsBytes : List ℕ → Type 0
IsBytes = All (λ b. b < 256)

abbrev IsPlain : Text → Type 0
IsPlain = All (λ c. (c ≢ b'=') × (c ≢ b'&'))

encode_byte-IsPlain : (c : ℕ) → c < 256 → IsPlain (encode_byte c)
encode_byte-IsPlain c h = ground arith

percent_encode-IsPlain : (s : List ℕ) → IsBytes s → IsPlain (percent_encode s)
percent_encode-IsPlain [] h = tt
percent_encode-IsPlain (c ∷ s) h =
    All-append _ (encode_byte c) _ (encode_byte-IsPlain c h.0) (percent_encode-IsPlain s h.1)

no_eq : (s : Text) → IsPlain s → All (λ c. c ≢ b'=') s
no_eq [] h = tt
no_eq (c ∷ s) h = (h.0.0, no_eq s h.1)

no_amp : (s : Text) → IsPlain s → All (λ c. c ≢ b'&') s
no_amp [] h = tt
no_amp (c ∷ s) h = (h.0.1, no_amp s h.1)

insert_pair-encode :
    (m : HashMap Text Text) (k v : List ℕ)
    → IsBytes k
    → IsBytes v
    → insert_pair m (encode_pair (k, v)) ≡ insert k v m
unfolding insert_pair decode_or_default
insert_pair-encode m k v hk hv = rw (
  find-append b'=' (percent_encode k) (percent_encode v) (no_eq _ (percent_encode-IsPlain k hk)),
  insert_pair,
  take-append,
  drop-append (percent_encode k) (percent_encode v) b'=',
  decode-percent_encode k hk,
  decode-percent_encode v hv,
)

encode_pair-no_amp :
    (k v : List ℕ) → IsBytes k → IsBytes v → All (λ c. c ≢ b'&') (encode_pair (k, v))
encode_pair-no_amp k v hk hv =
    All-append _ (percent_encode k) _ (no_amp _ (percent_encode-IsPlain k hk))
      (omega arith, no_amp _ (percent_encode-IsPlain v hv))

insert_pairs-encode :
    (m : HashMap Text Text) (kvs : List (List ℕ × List ℕ))
    → All (λ kv. IsBytes kv.0 × IsBytes kv.1) kvs
    → insert_pairs m (split b'&' (encode_query kvs)) ≡ insert_all m kvs
unfolding insert_pairs
insert_pairs-encode m [] h = unfold split insert_pair find in refl
insert_pairs-encode m ((k, v) ∷ []) h =
    rw (split-Lacks b'&' (encode_pair (k, v)) (encode_pair-no_amp k v h.0.0 h.0.1), insert_pairs)
      (insert_pair-encode m k v h.0.0 h.0.1)
insert_pairs-encode m ((k, v) ∷ kv' ∷ rest) h =
    rw
      (
        split_lem b'&' (encode_pair (k, v)) (encode_query (kv' ∷ rest))
            (encode_pair-no_amp k v h.0.0 h.0.1),
        insert_pairs,
        insert_pair-encode m k v h.0.0 h.0.1,
      )
      (insert_pairs-encode (insert k v m) (kv' ∷ rest) h.1)

-- The parameters of a path whose query encodes a list of pairs of bytes are these pairs, a later
-- pair replacing an earlier one of the same key.
pub query_params-encode :
    (req : HttpRequest) (base : Text) (kvs : List (List ℕ × List ℕ))
    → All (λ c. c ≢ b'?') base
    → All (λ kv. IsBytes kv.0 × IsBytes kv.1) kvs
    → req.path ≡ base ++ b'?' ∷ encode_query kvs
    → (query_params req ≡ insert_all [] kvs) × (clean_path req ≡ base)
unfolding query_params clean_path
query_params-encode req base kvs hb h e = (
  rw
      (
        e,
        find-append b'?' base (encode_query kvs) hb,
        query_params,
        e,
        drop-append base (encode_query kvs) b'?',
      )
      (insert_pairs-encode [] kvs h),
  rw (e, find-append b'?' base (encode_query kvs) hb, clean_path, e, take-append),
)
