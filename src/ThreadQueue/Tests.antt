-- ===== src/ThreadQueue/Tests.antt =====
-- Runs of the lab5 model, and the theorems at inputs that meet their hypotheses.
use osisp.Prelude.{ℕ, ◌+◌, ◌≡◌, refl, arith, List, [], ◌∷◌, none, some, replicate, inl, Bool, ltb}
use osisp.Fifo
use osisp.Fifo.{Op, put, get}
use osisp.ThreadQueue.Queue.{MessageQueue, queue_push, queue_pop, queue_expand, queue_reduce}
use osisp.ThreadQueue.Queue.Valid.{IsBusy, contents}
use osisp.ThreadQueue.Queue.Runs.{run, queue_run_refines, drained_queue_loses}
use osisp.ThreadQueue.Queue.Expand.{queue_expand-contents}
use osisp.ThreadQueue.Queue.Reduce.{queue_reduce-contents}
use osisp.ThreadQueue.Pool.{Side, Effect, waits_for_ever, cleanup_and_exit}
use osisp.ThreadQueue.Pool.Laws.{IsPrefix, joined}
use osisp.ThreadQueue.Pool.Endings.{AllReturn, cleanup_and_exit_waits}

-- Three messages round the end of four slots.
abbrev wrapped : MessageQueue
wrapped = record {
  head = 2;
  tail = 0;
  len = 3;
  max_len = 4;
  messages = some 12 ∷ none ∷ some 10 ∷ some 11 ∷ [];
}

wrapped-IsBusy : IsBusy wrapped
wrapped-IsBusy = record {
  slots = refl;
  head_in = omega arith;
  held = omega arith;
  fits = omega arith;
  tail_last = refl;
}

abbrev script : List (Op ℕ)
script = put 13 ∷ put 14 ∷ get ∷ get ∷ get ∷ []

queue_run_refines_example : run wrapped script ≡ some (Fifo.run 4 (10 ∷ 11 ∷ 12 ∷ []) script)
unfolding Fifo.push Fifo.pop
queue_run_refines_example =
    queue_run_refines script 4 wrapped (10 ∷ 11 ∷ 12 ∷ []) wrapped-IsBusy refl refl
      (omega arith, (omega arith, (omega arith, tt)))

run-wrapped : run wrapped script ≡ some (some 10 ∷ some 11 ∷ some 12 ∷ [])
unfolding run queue_push queue_pop
run-wrapped = refl

-- One message.
abbrev single : MessageQueue
single = record { head = 1; tail = 1; len = 1; max_len = 3; messages = none ∷ some 10 ∷ none ∷ [] }

single-IsBusy : IsBusy single
single-IsBusy = record {
  slots = refl;
  head_in = omega arith;
  held = omega arith;
  fits = omega arith;
  tail_last = refl;
}

drained_queue_loses_example : run single (get ∷ put 11 ∷ get ∷ []) ≡ some (some 10 ∷ none ∷ [])
drained_queue_loses_example = drained_queue_loses 11 single single-IsBusy refl (omega arith) refl

queue_expand-contents_example :
    (q' : MessageQueue) × (queue_expand (some 99) wrapped ≡ some q')
    × IsBusy q'
    × (contents q' ≡ some 10 ∷ some 11 ∷ some 12 ∷ [])
    × (q'.max_len ≡ 5)
queue_expand-contents_example = queue_expand-contents (some 99) wrapped wrapped-IsBusy

queue_reduce-contents_example :
    (q' : MessageQueue) × (queue_reduce wrapped ≡ some q')
    × IsBusy q'
    × (contents q' ≡ some 10 ∷ some 11 ∷ some 12 ∷ [])
    × (q'.max_len + 1 ≡ 4)
queue_reduce-contents_example =
    queue_reduce-contents wrapped wrapped-IsBusy (omega arith) (inl (omega arith))

-- Two messages in the last two of three slots.
abbrev at_end : MessageQueue
at_end = record {
  head = 1;
  tail = 2;
  len = 2;
  max_len = 3;
  messages = none ∷ some 10 ∷ some 11 ∷ [];
}

at_end-IsBusy : IsBusy at_end
at_end-IsBusy = record {
  slots = refl;
  head_in = omega arith;
  held = omega arith;
  fits = omega arith;
  tail_last = refl;
}

abbrev two_threads : Side
two_threads = record { count = 2; working = 1 ∷ 1 ∷ replicate 8 0 }

two_threads-IsPrefix : IsPrefix two_threads
two_threads-IsPrefix = record { fits = omega arith; first = refl }

-- The third join does not return.
abbrev first_two : ℕ → Bool
first_two k = ltb k 2

first_two-AllReturn : AllReturn first_two 2
first_two-AllReturn k h = ground arith

third_join_waits :
    (made : List Effect) × (cleanup_and_exit first_two 5
        (λ k. wrapped)
        single
        (record { producers = two_threads; consumers = two_threads })
      ≡ some (waits_for_ever made))
    × (joined made ≡ 1 ∷ 0 ∷ 1 ∷ [])
third_join_waits =
    cleanup_and_exit_waits first_two 5 (λ k. wrapped) single
      (record { producers = two_threads; consumers = two_threads }) two_threads-IsPrefix
      two_threads-IsPrefix (omega arith) (omega arith) 2 (omega arith) first_two-AllReturn refl
