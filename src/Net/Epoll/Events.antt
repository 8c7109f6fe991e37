-- ===== src/Net/Epoll/Events.antt =====
-- The events that `process_events` returns.
use rust_kernel_engine.Base.{
  ℕ, zero, suc, ◌<◌, ◌≤◌, ◌≡◌, refl, ap, ◌∙◌, ℤ, pos, List, [], ◌∷◌, map, drop, some, ok, arith,
  length, get_elem?,
}
use rust_kernel_engine.State.{bind}
use rust_kernel_engine.Os.{EpollEvent, epoll_wait, Reply, Kernel}
use rust_kernel_engine.Net.Epoll.{Machine, as_raw_fd, overwrite, wait, collect, process_events}

-- What a client of the backend sees of an event.
abbrev pub seen : EpollEvent → ℤ × ℕ
seen e = (as_raw_fd e.u64, e.events)

-- The documented result of `epoll_wait`: a count and as many events, no more than there is room for.
pub record IsEventReply (room : ℕ) (reply : Reply) : Type 0 where
  pub count : reply.ret ≡ pos (length reply.events)
  pub fits : length reply.events ≤ room

length-overwrite :
    (es old : List EpollEvent) → length es ≤ length old → length (overwrite es old) ≡ length old
length-overwrite [] old h = refl
length-overwrite (e ∷ es) [] h = omega arith
length-overwrite (e ∷ es) (o ∷ old) h = ap suc (length-overwrite es old (omega arith))

get-overwrite :
    (es old : List EpollEvent) (i : ℕ)
    → length es ≤ length old
    → i < length es
    → get_elem? (overwrite es old) i ≡ get_elem? es i
get-overwrite [] old i h k = absurd (omega arith)
get-overwrite (e ∷ es) [] i h k = absurd (omega arith)
get-overwrite (e ∷ es) (o ∷ old) zero h k = refl
get-overwrite (e ∷ es) (o ∷ old) (suc i) h k = get-overwrite es old i (omega arith) (omega arith)

get-drop :
    (es : List EpollEvent) (i : ℕ) (e : EpollEvent) (rest : List EpollEvent)
    → drop i es ≡ e ∷ rest
    → (get_elem? es i ≡ some e) × (drop (suc i) es ≡ rest) × (i < length es)
get-drop [] zero e rest h = absurd (cc)
get-drop [] (suc i) e rest h = absurd (cc)
get-drop (x ∷ es) zero e rest h = (ground arith, ground arith, omega arith)
get-drop (x ∷ es) (suc i) e rest h = let (a, b, c) = get-drop es i e rest h in (a, b, omega arith)

module _ (kernel : Kernel) where
  collect_lem :
      (es old rest : List EpollEvent) (i : ℕ) (s : Machine)
      → s.backend.events ≡ overwrite es old
      → length es ≤ length old
      → drop i es ≡ rest
      → collect kernel (length rest) i s ≡ (ok (map seen rest), s)
  unfolding collect
  collect_lem es old [] i s e h d = refl
  collect_lem es old (x ∷ rest) i s e h d =
      let (here, next, inside) = get-drop es i x rest d in
      let at_i : get_elem? s.backend.events i ≡ some x =
        ap (λ evs. get_elem? evs i) e ∙ (get-overwrite es old i h inside ∙ here) in
      rw (at_i, collect, collect_lem es old rest (suc i) s e h next) refl

  -- The machine when `wait` has got its answer.
  abbrev waited : ℤ → Machine → Reply → Machine
  waited timeout s reply = record {
    backend = record (s.backend) { events = overwrite reply.events s.backend.events };
    trace =
        (epoll_wait s.backend.epoll_fd (as_raw_fd s.backend.max_events) timeout, reply) ∷ s.trace;
  }

  wait_lem :
      (timeout : ℤ) (s : Machine) (reply : Reply)
      → kernel s.trace (epoll_wait s.backend.epoll_fd (as_raw_fd s.backend.max_events) timeout)
        ≡ reply
      → IsEventReply (length s.backend.events) reply
      → wait kernel timeout s ≡ (ok (length reply.events), waited timeout s reply)
  unfolding wait
  wait_lem timeout s reply e v = simp (e, v.count)

  -- If the kernel answers as documented, `process_events` returns exactly the events of the answer,
  -- each as its descriptor and flags, in their order; it never indexes outside the array, and
  -- registers and forgets no connection.
  process_events_lem :
      (timeout : ℤ) (s : Machine) (reply : Reply)
      → kernel s.trace (epoll_wait s.backend.epoll_fd (as_raw_fd s.backend.max_events) timeout)
        ≡ reply
      → IsEventReply (length s.backend.events) reply
      → ((process_events kernel timeout s).0 ≡ ok (map seen reply.events))
        × ((process_events kernel timeout s).1.backend.connections ≡ s.backend.connections)
        × (length (process_events kernel timeout s).1.backend.events ≡ length s.backend.events)
  unfolding process_events collect
  process_events_lem timeout s reply e v =
      let s' = waited timeout s reply in
      rw
        (
          wait_lem timeout s reply e v,
          bind,
          collect_lem reply.events s.backend.events reply.events 0 s' refl v.fits refl,
        )
        (refl, refl, length-overwrite reply.events s.backend.events v.fits)
