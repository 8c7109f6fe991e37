-- ===== src/Examples/Interleavings.antt =====
-- Examples for workers of src/worker/queue.rs that run at the same time, all on the queues of one of
-- them. The first has passed the queue 1 when the second puts a task there and takes it out again.
use mathlib.Core.List.{Perm}
use rust_kernel_engine.Worker.Queue.Interleaving.Progress.{
  steps_left, total_inside, total_begun, queues_of, GoesOn, Reach-GoesOn,
}
use rust_kernel_engine.Base.{suc, ◌+◌, ◌*◌, ◌≤◌, ℕ, ◌≡◌, refl, [], ◌∷◌, ◌++◌, All, none, some}
use rust_kernel_engine.Worker.LockFree
use rust_kernel_engine.Worker.LockFree.Laws.{all_items, items_at}
use rust_kernel_engine.Worker.Queue.Interleaving.Fifo.{all_put, all_taken, Reach-Fifo}
use rust_kernel_engine.Worker.Queue.Interleaving.Emptiness.{Since, Reach-Since}
use rust_kernel_engine.Worker.Queue.{shutdown, WorkStealingQueue, push, pop}
use rust_kernel_engine.Worker.Queue.Interleaving.{
  idle, trying, returned, update, tries, System, Step, starts, finds, misses, accepts, gives_up,
  Reach, here, later,
}
use rust_kernel_engine.Worker.Queue.Interleaving.Safety.{
  BagStep, event_of, bag, Step-BagStep, Reach-Balances,
}
use rust_kernel_engine.Worker.Queue.Interleaving.Sequential.{Returns, pop-Returns}
use rust_kernel_engine.Examples.TaskQueues.{bounded, bounded-IsFifo, handle, middle, queues}

abbrev workers : ℕ → WorkStealingQueue
workers i = middle

abbrev at_rest : System bounded
at_rest = record { store = queues; pc = λ i. idle; taken_in = []; handed_out = [] }

abbrev first_starts : System bounded
first_starts = record at_rest { pc = update at_rest.pc 0 (trying (tries middle)) }

abbrev first_misses : System bounded
first_misses = record first_starts {
  store = (LockFree.pop bounded (handle 1) first_starts.store).1;
  pc = update first_starts.pc 0 (trying (handle 0 ∷ handle 2 ∷ []));
}

abbrev second_puts : System bounded
second_puts = record first_misses {
  store = (push bounded middle shutdown first_misses.store).1;
  taken_in = shutdown ∷ first_misses.taken_in;
}

abbrev second_starts : System bounded
second_starts = record second_puts { pc = update second_puts.pc 1 (trying (tries middle)) }

abbrev second_finds : System bounded
second_finds = record second_starts {
  store = (LockFree.pop bounded (handle 1) second_starts.store).1;
  pc = update second_starts.pc 1 (returned (some shutdown));
  handed_out = shutdown ∷ second_starts.handed_out;
}

misses_first : (LockFree.pop bounded (handle 1) first_starts.store).0 ≡ none
unfolding LockFree.pop
misses_first = refl

puts_second : (push bounded middle shutdown first_misses.store).0 ≡ none
unfolding LockFree.pop push LockFree.push
puts_second = refl

finds_second : (LockFree.pop bounded (handle 1) second_starts.store).0 ≡ some shutdown
unfolding LockFree.pop push LockFree.push
finds_second = refl

finding : Step bounded workers second_starts second_finds
finding = finds 1 (handle 1) (handle 0 ∷ handle 2 ∷ []) shutdown refl finds_second

overtaken : Reach bounded workers at_rest second_finds
overtaken =
    later
      (later
        (later
          (later (later here (starts 0 refl))
            (misses 0 (handle 1) (handle 0 ∷ handle 2 ∷ []) refl misses_first))
          (accepts 1 shutdown puts_second))
        (starts 1 refl))
      finding

Step-BagStep_example :
    BagStep
      (event_of bounded bounded-IsFifo workers finding)
      (bag bounded bounded-IsFifo workers second_starts)
      (bag bounded bounded-IsFifo workers second_finds)
Step-BagStep_example = Step-BagStep bounded bounded-IsFifo workers finding

Reach-Balances_example :
    Perm
      (all_items bounded bounded-IsFifo queues ++ second_finds.taken_in)
      (second_finds.handed_out ++ all_items bounded bounded-IsFifo second_finds.store)
Reach-Balances_example = Reach-Balances bounded bounded-IsFifo workers refl refl overtaken

pop-Returns_example : Returns bounded workers 2 at_rest (pop bounded middle queues)
pop-Returns_example = pop-Returns bounded workers 2 at_rest refl

-- The first worker has begun one `pop` and has missed once; two queues are left to it.
Reach-GoesOn_example :
    GoesOn bounded workers 0 second_finds
    × (total_inside bounded workers 0 overtaken + steps_left (second_finds.pc 0)
        ≤ steps_left (at_rest.pc 0)
          + total_begun bounded workers 0 overtaken * suc (queues_of bounded workers 0))
Reach-GoesOn_example = Reach-GoesOn bounded workers 0 overtaken (handle 0 ∷ handle 2 ∷ []) refl

Reach-Fifo_example :
    items_at bounded bounded-IsFifo at_rest.store (handle 1)
      ++ all_put bounded bounded-IsFifo workers (handle 1) overtaken
    ≡ all_taken bounded bounded-IsFifo workers (handle 1) overtaken
      ++ items_at bounded bounded-IsFifo second_finds.store (handle 1)
Reach-Fifo_example = Reach-Fifo bounded bounded-IsFifo workers (handle 1) overtaken

-- Two workers that know only the queues 1 and 0, both empty: when the first has passed the queue 1,
-- the second puts a task there, and the first comes back with nothing.
abbrev pair : ℕ → WorkStealingQueue
pair i = record { local_queue = handle 1; shared_queues = handle 0 ∷ [] }

abbrev begun : System bounded
begun = record at_rest { pc = update at_rest.pc 0 (trying (handle 1 ∷ handle 0 ∷ [])) }

abbrev passed_own : System bounded
passed_own = record begun {
  store = (LockFree.pop bounded (handle 1) begun.store).1;
  pc = update begun.pc 0 (trying (handle 0 ∷ []));
}

abbrev filled : System bounded
filled = record passed_own {
  store = (push bounded (pair 1) shutdown passed_own.store).1;
  taken_in = shutdown ∷ passed_own.taken_in;
}

abbrev passed_both : System bounded
passed_both = record filled {
  store = (LockFree.pop bounded (handle 0) filled.store).1;
  pc = update filled.pc 0 (trying []);
}

abbrev with_nothing : System bounded
with_nothing = record passed_both { pc = update passed_both.pc 0 (returned none) }

misses_own : (LockFree.pop bounded (handle 1) begun.store).0 ≡ none
unfolding LockFree.pop
misses_own = refl

fills : (push bounded (pair 1) shutdown passed_own.store).0 ≡ none
unfolding LockFree.pop push LockFree.push
fills = refl

misses_other : (LockFree.pop bounded (handle 0) filled.store).0 ≡ none
unfolding LockFree.pop push LockFree.push
misses_other = refl

unlucky : Reach bounded pair at_rest with_nothing
unlucky =
    later
      (later
        (later
          (later (later here (starts 0 refl)) (misses 0 (handle 1) (handle 0 ∷ []) refl misses_own))
          (accepts 1 shutdown fills))
        (misses 0 (handle 0) [] refl misses_other))
      (gives_up 0 refl)

Reach-Since_example :
    All
      (λ q.
        Since bounded bounded-IsFifo pair 0
          (λ u. items_at bounded bounded-IsFifo u.store q ≡ [])
          unlucky)
      (tries (pair 0))
Reach-Since_example = Reach-Since bounded bounded-IsFifo pair 0 unlucky refl refl
