-- ===== src/Sys/Affinity/Masks.antt =====
-- Masks that are written and read back, and the cores that a node pins.
use rust_kernel_engine.Base.{
  ℕ, zero, suc, ◌+◌, ◌*◌, ◌/◌, ◌≤◌, ◌<◌, ◌≡◌, refl, ◌≢◌, ap, ◌∙◌, pos, List, [], ◌∷◌, Bool, true,
  false, ◌&&◌, Outcome, ok, err, some, get_elem?, no_node_cores, ltb, length, replicate,
  length-replicate, take, arith, Bool-cases, inl, inr, if◌then◌else◌, int_eq, ◌==◌, not-ltb→le,
  ltb→lt,
}
use rust_kernel_engine.State.{bind}
use rust_kernel_engine.Os.{sched_setaffinity, sched_getaffinity, Reply, Trace, Kernel}
use rust_kernel_engine.Sys.Affinity.{
  cpu_setsize, cpu_set, cpu_isset, set_bits, read_bits, range, pin_to_cores, pin_to_numa_node,
  set_affinity_mask, get_affinity_mask,
}

isset_same : (c : ℕ) (bits : List Bool) → c < length bits → cpu_isset c (cpu_set c bits) ≡ true
isset_same c [] h = absurd (omega arith)
isset_same zero (b ∷ bits) h = refl
isset_same (suc c) (b ∷ bits) h = isset_same c bits (omega arith)

isset_other : (k c : ℕ) (bits : List Bool) → k ≢ c → cpu_isset k (cpu_set c bits) ≡ cpu_isset k bits
isset_other k c [] h = refl
isset_other zero zero (b ∷ bits) h = absurd (h refl)
isset_other (suc k) zero (b ∷ bits) h = refl
isset_other zero (suc c) (b ∷ bits) h = refl
isset_other (suc k) (suc c) (b ∷ bits) h = isset_other k c bits (λ e. h (ap suc e))

length-cpu_set : (c : ℕ) (bits : List Bool) → length (cpu_set c bits) ≡ length bits
length-cpu_set c [] = refl
length-cpu_set zero (b ∷ bits) = refl
length-cpu_set (suc c) (b ∷ bits) = ap suc (length-cpu_set c bits)

-- Later processors do not touch the bits before them.
isset-set_bits :
    (mask : List Bool) (k c : ℕ) (bits : List Bool)
    → k < c
    → cpu_isset k (set_bits c mask bits) ≡ cpu_isset k bits
unfolding set_bits
isset-set_bits [] k c bits h = refl
isset-set_bits (true ∷ mask) k c bits h =
    isset-set_bits mask k (suc c) (cpu_set c bits) (omega arith)
    ∙ isset_other k c bits (λ e. omega arith)
isset-set_bits (false ∷ mask) k c bits h = isset-set_bits mask k (suc c) bits (omega arith)

isset-set_bits_all :
    (mask : List Bool) (c k j : ℕ) (bits : List Bool)
    → j ≡ c + k
    → c + length mask ≤ length bits
    → ((i : ℕ) → c ≤ i → cpu_isset i bits ≡ false)
    → cpu_isset j (set_bits c mask bits) ≡ cpu_isset k mask
unfolding set_bits
isset-set_bits_all [] c k j bits e room clear = clear j (omega arith)
isset-set_bits_all (true ∷ mask) c zero j bits e room clear =
    isset-set_bits mask j (suc c) (cpu_set c bits) (omega arith)
    ∙ (ap (λ i. cpu_isset i (cpu_set c bits)) (omega arith) ∙ isset_same c bits (omega arith))
isset-set_bits_all (false ∷ mask) c zero j bits e room clear =
    isset-set_bits mask j (suc c) bits (omega arith) ∙ clear j (omega arith)
isset-set_bits_all (true ∷ mask) c (suc k) j bits e room clear =
    isset-set_bits_all mask (suc c) k j (cpu_set c bits) (omega arith)
      (omega (arith, length-cpu_set c bits))
      (λ i h. isset_other i c bits (λ same. omega arith) ∙ clear i (omega arith))
isset-set_bits_all (false ∷ mask) c (suc k) j bits e room clear =
    isset-set_bits_all mask (suc c) k j bits (omega arith) (omega arith)
      (λ i h. clear i (omega arith))

length-read_bits : (n c : ℕ) (bits : List Bool) → length (read_bits n c bits) ≡ n
unfolding read_bits
length-read_bits zero c bits = refl
length-read_bits (suc n) c bits = ap suc (length-read_bits n (suc c) bits)

get_elem-read_bits :
    (n c k j : ℕ) (bits : List Bool)
    → j ≡ c + k
    → k < n
    → get_elem? (read_bits n c bits) k ≡ some (cpu_isset j bits)
unfolding read_bits
get_elem-read_bits zero c k j bits e h = absurd (omega arith)
get_elem-read_bits (suc n) c zero j bits e h = ap (λ i. some (cpu_isset i bits)) (omega arith)
get_elem-read_bits (suc n) c (suc k) j bits e h =
    get_elem-read_bits n (suc c) k j bits (omega arith) (omega arith)

isset-replicate : (n k : ℕ) → cpu_isset k (replicate n false) ≡ false
isset-replicate zero k = refl
isset-replicate (suc n) zero = refl
isset-replicate (suc n) (suc k) = isset-replicate n k

-- The next query after a set that was accepted returns those of its processors that the system allows.
abbrev pub Remembers : Kernel → List Bool → Type 0
Remembers kernel allowed =
    (t : Trace) (bits : List Bool) (reply : Reply)
    → int_eq reply.ret (pos 0) ≡ true
    → ((kernel ((sched_setaffinity bits, reply) ∷ t) sched_getaffinity).ret ≡ pos 0)
      × ((k : ℕ)
          → cpu_isset k (kernel ((sched_setaffinity bits, reply) ∷ t) sched_getaffinity).cpus
            ≡ (cpu_isset k bits && cpu_isset k allowed))

-- A mask is read that has `n` entries: each says whether the processor is in `mask` and allowed.
abbrev pub Reads : List Bool → List Bool → ℕ → Outcome (List Bool) → Type 0
Reads mask allowed n (ok m) =
    (length m ≡ n)
    × ((k : ℕ) → k < n → get_elem? m k ≡ some (cpu_isset k mask && cpu_isset k allowed))
Reads mask allowed n _ = ⊥

module _ (kernel : Kernel) (num_cpus : Trace → ℕ) where
  -- Take a kernel that keeps, of a set that it accepts, the processors that it allows. A mask that has
  -- been set is then read back: the result has as many entries as `num_cpus::get` returns after that,
  -- and each says whether its processor was in the mask and is allowed, whatever length the mask had.
  pub get_affinity_mask-set_affinity_mask :
      (mask allowed : List Bool) (t : Trace)
      → Remembers kernel allowed
      → (set_affinity_mask kernel num_cpus mask t).0 ≡ ok tt
      → Reads mask allowed
          (num_cpus
            (bind
              (set_affinity_mask kernel num_cpus mask t)
              (λ _. get_affinity_mask kernel num_cpus)).1)
          (bind
            (set_affinity_mask kernel num_cpus mask t)
            (λ _. get_affinity_mask kernel num_cpus)).0
  unfolding set_affinity_mask get_affinity_mask
  get_affinity_mask-set_affinity_mask mask allowed t remembers done =
      let bits = set_bits 0 mask (replicate cpu_setsize false) in
      let reply = kernel t (sched_setaffinity bits) in
      elim (Bool-cases (ltb 1024 (length mask))) [
        | inl long ↦ absurd (ground arith)
        | inr small ↦ elim (Bool-cases (int_eq reply.ret (pos 0))) [
          | inr e ↦ absurd (ground arith)
          | inl e ↦
              let (zero_ret, same) = remembers t bits reply e in
              let fits = not-ltb→le 1024 (length mask) small in
              rw (small, e, zero_ret)
                (
                  length-read_bits _ 0 _,
                  λ k h.
                      get_elem-read_bits _ 0 k k _ (omega arith) h
                      ∙ ap some (
                          same k
                          ∙ ap (λ b. b && cpu_isset k allowed)
                              (isset-set_bits_all mask 0 k k (replicate cpu_setsize false)
                                (omega arith) (omega (arith, length-replicate cpu_setsize false))
                                (λ i h'. isset-replicate cpu_setsize i))),
                )
        ]
      ]

module _ (kernel : Kernel) where
  length-range : (start n : ℕ) → length (range start n) ≡ n
  unfolding range
  length-range start zero = refl
  length-range start (suc n) = ap suc (length-range (suc start) n)

  take-range : (start n : ℕ) → (n == 0) ≡ false → take 1 (range start n) ≡ start ∷ []
  unfolding range
  take-range start zero h = absurd (ground arith)
  take-range start (suc n) h = refl

  div_two : (n : ℕ) → (2 ≤ n → (n / 2 == 0) ≡ false) × (n < 2 → n / 2 ≡ 0)
  div_two n = ground arith

  node_fits : (num_cpus node : ℕ) → node < 2 → node * (num_cpus / 2) + num_cpus / 2 ≤ num_cpus
  node_fits num_cpus zero below = omega arith
  node_fits num_cpus (suc zero) below = omega arith
  node_fits num_cpus (suc (suc node)) below = absurd (omega arith)

  -- A node has half of the processors. For the nodes 0 and 1, with fewer than two processors the call
  -- fails without a system call, otherwise it pins the first processor of the node; the processors
  -- of the node exist.
  pin_to_numa_node_lem :
      (num_cpus node : ℕ) (t : Trace)
      → node < 2
      → (pin_to_numa_node kernel num_cpus node t ≡ (
          if ltb num_cpus 2
          then (err no_node_cores, t)
          else pin_to_cores kernel num_cpus (node * (num_cpus / 2) ∷ []) t))
        × (node * (num_cpus / 2) + num_cpus / 2 ≤ num_cpus)
  unfolding pin_to_numa_node range
  pin_to_numa_node_lem num_cpus node t below =
      let start = node * (num_cpus / 2) in
      elim (Bool-cases (ltb num_cpus 2)) [
        | inl e ↦
            let few = ltb→lt num_cpus 2 e in
            (rw (e, (div_two num_cpus).1 few) refl, node_fits num_cpus node below)
        | inr e ↦
            let some_cores = (div_two num_cpus).0 (not-ltb→le num_cpus 2 e) in
            (
              rw
                  (
                    e,
                    length-range start (num_cpus / 2),
                    some_cores,
                    take-range start (num_cpus / 2) some_cores,
                  )
                  refl,
              node_fits num_cpus node below,
            )
      ]
