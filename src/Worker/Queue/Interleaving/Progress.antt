-- ===== src/Worker/Queue/Interleaving/Progress.antt =====
-- A `pop` of src/worker/queue.rs that others disturb: that it waits for none of them.
use rust_kernel_engine.Base.{
  ℕ, suc, ◌+◌, ◌*◌, ◌≤◌, ◌<◌, ◌≡◌, refl, List, [], ◌∷◌, true, Option-cases, subst, none, some, ◌==◌,
  ==_iff, if◌then◌else◌, length, arith, Bool-cases, inl, inr, ap,
}
use rust_kernel_engine.Worker.ArrayQueue.{ArrayQueue}
use rust_kernel_engine.Worker.LockFree
use rust_kernel_engine.Worker.LockFree.{LockFreeQueue}
use rust_kernel_engine.Worker.Queue.{Task, WorkStealingQueue}
use rust_kernel_engine.Worker.Queue.Interleaving.{
  Pc, idle, trying, returned, update, tries, System, Step, starts, finds, misses, gives_up, leaves,
  accepts, refuses, Reach, here, later,
}

-- The steps that a worker in `pop` has left at most: one for each queue, and one to give up.
abbrev pub steps_left : Pc → ℕ
steps_left idle = 0
steps_left (trying qs) = suc (length qs)
steps_left (returned found) = 0

abbrev when_same : ℕ → ℕ → ℕ → ℕ
when_same j i n = if j == i then n else 0

module _ (aq : ArrayQueue Task) (workers : ℕ → WorkStealingQueue) where
  -- Does worker `i` make this step, inside of a `pop`?
  abbrev pub inside : ℕ → {s t : System aq} → Step aq workers s t → ℕ
  inside i (starts j e) = 0
  inside i (finds j q qs task e found) = when_same j i 1
  inside i (misses j q qs e empty) = when_same j i 1
  inside i (gives_up j e) = when_same j i 1
  inside i (leaves j found e) = 0
  inside i (accepts j task done) = 0
  inside i (refuses j task back e) = 0

  -- Does worker `i` begin a `pop` by it?
  abbrev pub begins : ℕ → {s t : System aq} → Step aq workers s t → ℕ
  begins i (starts j e) = when_same j i 1
  begins i _ = 0

  -- The steps of worker `i` inside of `pop`s, and the `pop`s that it began.
  abbrev pub total_inside : ℕ → {s t : System aq} → Reach aq workers s t → ℕ
  total_inside i here = 0
  total_inside i (later r step) = total_inside i r + inside i step

  abbrev pub total_begun : ℕ → {s t : System aq} → Reach aq workers s t → ℕ
  total_begun i here = 0
  total_begun i (later r step) = total_begun i r + begins i step

  abbrev pub queues_of : ℕ → ℕ
  queues_of i = length (tries (workers i))

  -- A worker `j` goes on to `p`, seen by worker `i`.
  moves :
      (pc : ℕ → Pc) (j i : ℕ) (p : Pc) (cost : ℕ)
      → cost + steps_left p ≤ steps_left (pc j)
      → when_same j i cost + steps_left (update pc j p i) ≤ steps_left (pc i)
  moves pc j i p cost h = elim (Bool-cases (j == i)) [
    | inl e ↦ rw e (subst (λ k. cost + steps_left p ≤ steps_left (pc k)) ((==_iff j i).0 e) h)
    | inr e ↦ rw e (omega arith)
  ]

  moves_in :
      (pc : ℕ → Pc) (j i : ℕ)
      → steps_left (update pc j (trying (tries (workers j))) i)
        ≤ steps_left (pc i) + when_same j i 1 * suc (queues_of i)
  moves_in pc j i = elim (Bool-cases (j == i)) [
    | inl e ↦
        let same : queues_of j ≡ queues_of i = ap queues_of ((==_iff j i).0 e) in
        rw e (omega (arith, same))
    | inr e ↦ rw e (omega arith)
  ]

  Step-steps_left :
      (i : ℕ) {s t : System aq} (step : Step aq workers s t)
      → inside i step + steps_left (t.pc i)
        ≤ steps_left (s.pc i) + begins i step * suc (queues_of i)
  Step-steps_left i {s} (starts j e) = omega (arith, moves_in s.pc j i)
  Step-steps_left i {s} (finds j q qs task e found) =
      omega (arith, moves s.pc j i (returned (some task)) 1 (rw e (omega arith)))
  Step-steps_left i {s} (misses j q qs e empty) =
      omega (arith, moves s.pc j i (trying qs) 1 (rw e (omega arith)))
  Step-steps_left i {s} (gives_up j e) =
      omega (arith, moves s.pc j i (returned none) 1 (rw e (omega arith)))
  Step-steps_left i {s} (leaves j found e) = elim (Bool-cases (j == i)) [
    | inl same ↦ rw same (omega arith)
    | inr other ↦ rw other (omega arith)
  ]
  Step-steps_left i (accepts j task done) = omega arith
  Step-steps_left i (refuses j task back e) = omega arith

  -- However the calls interleave, and whatever the other workers do, the steps that a worker makes
  -- inside of its `pop`s, with those left of the last one, are at most one more than it has queues for
  -- each `pop` that it began, on top of those that it had left at first.
  Reach-steps_left :
      (i : ℕ) {s t : System aq} (r : Reach aq workers s t)
      → total_inside i r + steps_left (t.pc i)
        ≤ steps_left (s.pc i) + total_begun i r * suc (queues_of i)
  Reach-steps_left i here = omega arith
  Reach-steps_left i (later r step) = omega (arith, Reach-steps_left i r, Step-steps_left i step)

  same_worker : (i : ℕ) → (i == i) ≡ true
  same_worker i = (==_iff i i).1 refl

  -- A step inside of a `pop` that worker `i` can make by itself, and that brings it nearer to the end.
  abbrev pub GoesOn : ℕ → System aq → Type 0
  GoesOn i t =
      (u : System aq) × (step : Step aq workers t u) × (inside i step ≡ 1)
      × (steps_left (u.pc i) < steps_left (t.pc i))

  goes_on : (i : ℕ) (t : System aq) (qs : List LockFreeQueue) → t.pc i ≡ trying qs → GoesOn i t
  goes_on i t [] e = (_, gives_up i e, rw (same_worker i) refl, rw (same_worker i, e) (omega arith))
  goes_on i t (q ∷ qs) e = elim (Option-cases (LockFree.pop aq q t.store).0) [
    | inl empty ↦
        (_, misses i q qs e empty, rw (same_worker i) refl, rw (same_worker i, e) (omega arith))
    | inr (task, found) ↦
        (_, finds i q qs task e found, rw (same_worker i) refl, rw (same_worker i, e) (omega arith))
  ]

  -- A `pop` waits for no other worker. In every state that some interleaving reaches, a worker that is
  -- in a `pop` can make its next step at once, whatever the others are doing, and has fewer left
  -- behind it. The steps that it has made inside of its `pop`s so far, with those left, are at most one
  -- more than it has queues for each `pop` that it began, on top of those that it had left at first.
  pub Reach-GoesOn :
      (i : ℕ) {s t : System aq} (r : Reach aq workers s t) (qs : List LockFreeQueue)
      → t.pc i ≡ trying qs
      → GoesOn i t
        × (total_inside i r + steps_left (t.pc i)
            ≤ steps_left (s.pc i) + total_begun i r * suc (queues_of i))
  Reach-GoesOn i {t} r qs e = (goes_on i t qs e, Reach-steps_left i r)
