-- ===== src/MonitorQueue/Pool/Tests.antt =====
-- Closing two producers and two consumers of lab5/5.2 on an empty queue.
use osisp.Prelude.{◌≡◌, refl, arith, List, [], ◌∷◌, some, true, false, replicate}
use osisp.Prelude.Int.{pos}
use osisp.ThreadQueue.Queue.{queue_init}
use osisp.ThreadQueue.Pool.{
  Side, Pool, exited, Effect as Asked, cleanup_and_exit as cleanup_joining,
}
use osisp.ThreadQueue.Pool.Laws.{IsPrefix}
use osisp.MonitorQueue.Pool.{Effect, cancel, join, broadcast, close_on, cleanup_and_exit}
use osisp.MonitorQueue.Pool.Calls.{translated, ended}
use osisp.MonitorQueue.Pool.Endings.{cleanup_and_exit-ended}

abbrev two_threads : Side
two_threads = record { count = 2; working = 1 ∷ 1 ∷ replicate 8 0 }

two_threads-IsPrefix : IsPrefix two_threads
two_threads-IsPrefix = record { fits = omega arith; first = refl }

abbrev two_of_each : Pool
two_of_each = record { producers = two_threads; consumers = two_threads }

two_of_each_closed :
    (calls : List Effect) × (asked : List Asked) × (cleanup_and_exit
        (λ k. true)
        3
        (λ k. queue_init)
        queue_init
        two_of_each
      ≡ some (exited calls))
    × (cleanup_joining (λ k. true) 3 (λ k. queue_init) queue_init two_of_each ≡ some (exited asked))
    × (calls ≡ translated asked)
    × (ended calls ≡ 1 ∷ 0 ∷ 1 ∷ 0 ∷ [])
two_of_each_closed =
    cleanup_and_exit-ended (λ k. true) 3 (λ k. queue_init) queue_init two_of_each
      two_threads-IsPrefix two_threads-IsPrefix (omega arith) (omega arith) (λ k h. refl)

starving : (close_on (pos 1) true two_threads).0 ≡ cancel 1 ∷ []
unfolding close_on
starving = refl

woken : (close_on (pos 1) false two_threads).0 ≡ broadcast ∷ join 1 ∷ []
unfolding close_on
woken = refl
