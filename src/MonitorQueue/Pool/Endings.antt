-- ===== src/MonitorQueue/Pool/Endings.antt =====
-- How `cleanup_and_exit` of lab5/5.2/src/main.c ends when its joins return, compared with lab5/5.1.
use osisp.Prelude.{
  ℕ, ◌+◌, ◌<◌, ◌≤◌, ◌≡◌, refl, ap, arith, List, [], ◌∷◌, ◌++◌, some, Bool, length, length-append,
}
use osisp.Prelude.OptionMonad.{◌>>=◌}
use osisp.ThreadQueue.Queue.{MessageQueue}
use osisp.ThreadQueue.Pool.{Pool, exited, Effect as Asked, cleanup_and_exit as cleanup_joining}
use osisp.ThreadQueue.Pool.Laws.{IsPrefix, countdown}
use osisp.ThreadQueue.Pool.Endings.{AllReturn, length-countdown, perform-exited as joins-exited}
use osisp.MonitorQueue.Pool.{
  Effect, cancel, join, broadcast, sync_destroy, free_message, perform, cleanup_and_exit,
}
use osisp.MonitorQueue.Pool.Calls.{translated, ended}
use osisp.MonitorQueue.Pool.Laws.{cleanup_calls-ended}

perform-exited :
    (returns : ℕ → Bool) (k n : ℕ) (es : List Effect)
    → AllReturn returns n
    → k + length (ended es) ≤ n
    → perform returns k es ≡ exited es
unfolding perform
perform-exited returns k n [] all h = refl
perform-exited returns k n (join i ∷ es) all h =
    rw (all k (omega arith), perform-exited returns (k + 1) n es all (omega arith)) refl
perform-exited returns k n (cancel i ∷ es) all h =
    rw (perform-exited returns k n es all (omega arith)) refl
perform-exited returns k n (broadcast ∷ es) all h = rw (perform-exited returns k n es all h) refl
perform-exited returns k n (sync_destroy ∷ es) all h = rw (perform-exited returns k n es all h) refl
perform-exited returns k n (free_message m ∷ es) all h =
    rw (perform-exited returns k n es all h) refl

-- From a state whose first threads are in use, with fuel above both counts, when every join returns:
-- `cleanup_and_exit` exits, and so does that of lab5/5.1 in the same state. Its calls are those of
-- lab5/5.1, but that a cancelled thread is not joined and a broadcast comes before each join; every
-- producer and then every consumer is cancelled or joined, once, from the last to the first.
pub cleanup_and_exit-ended :
    (returns : ℕ → Bool) (fuel : ℕ) (queues : ℕ → MessageQueue) (queue : MessageQueue) (p : Pool)
    → IsPrefix p.producers
    → IsPrefix p.consumers
    → p.producers.count < fuel
    → p.consumers.count < fuel
    → AllReturn returns (p.producers.count + p.consumers.count)
    → (calls : List Effect) × (asked : List Asked) × (cleanup_and_exit returns fuel queues queue p
        ≡ some (exited calls))
      × (cleanup_joining returns fuel queues queue p ≡ some (exited asked))
      × (calls ≡ translated asked)
      × (ended calls ≡ countdown p.producers.count ++ countdown p.consumers.count)
unfolding cleanup_and_exit cleanup_joining
cleanup_and_exit-ended returns fuel queues queue p vp vc fp fc all =
    let (calls, asked, p', run, run', same, all_ended, matched) =
      cleanup_calls-ended fuel queues queue p vp vc fp fc in
    let n : ℕ = p.producers.count + p.consumers.count in
    let counted : length (ended calls) ≡ n = omega (
      arith,
      ap length all_ended,
      length-append (countdown p.producers.count) (countdown p.consumers.count),
      length-countdown p.producers.count,
      length-countdown p.consumers.count,
    ) in
    (
      calls,
      asked,
      rw (run, ◌>>=◌)
          (ap (λ e. some e) (perform-exited returns 0 n calls all (omega (arith, counted)))),
      rw (run', ◌>>=◌)
          (ap (λ e. some e)
            (joins-exited returns 0 n asked all (omega (arith, counted, ap length matched)))),
      same,
      all_ended,
    )
