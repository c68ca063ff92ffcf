-- ===== src/MonitorQueue/Pool.antt =====
-- Closing the threads of lab5/5.2/src/main.c, as the main thread does it. The threads' arrays and
-- `create_thread` are those of lab5/5.1, textually the same, and `returns k` again is whether the `k`-th
-- join of a run returns. Here a thread that waits for ever is cancelled and not joined, and another one is woken by a broadcast and joined.
pub mod Calls
pub mod Endings
pub mod Laws
mod Tests
use osisp.Prelude.{
  ℕ, zero, suc, ◌+◌, ◌-◌, List, [], ◌∷◌, ◌++◌, Option, none, some, Bool, true, false, ◌&&◌, ◌==◌,
  ltb, if◌then◌else◌, get_or, set, map,
}
use osisp.Prelude.Int.{ℤ, pos, negsuc}
use osisp.Prelude.OptionMonad.{◌>>=◌}
use osisp.ThreadQueue.Queue.{MessageQueue, queue_free}
use osisp.ThreadQueue.Pool.{
  max_threads, Side, Pool, last_index, count_of, Ending, waits_for_ever, exited, after_call,
}

pub data Effect : Type 0 where
  cancel join : ℕ → Effect
  broadcast sync_destroy : Effect
  free_message : ℕ → Effect

-- `close_thread_by_ind` on its side; `starved` is whether the thread waits for ever.
unfoldable pub close_on : ℤ → Bool → Side → List Effect × Side
close_on (negsuc k) starved s = ([], s)
close_on (pos ind) starved s =
    if ltb 0 s.count && ltb ind max_threads && get_or s.working ind 0 == 1
    then (
      if starved then cancel ind ∷ [] else broadcast ∷ join ind ∷ [],
      record { count = s.count - 1; working = set s.working ind 0 },
    )
    else ([], s)

-- `close_thread_by_ind`, with the queue as it is then.
unfoldable pub close_thread_by_ind : ℤ → ℤ → MessageQueue → Pool → List Effect × Pool
unfolding close_on
close_thread_by_ind ind (pos (suc zero)) q p =
    let (effects, side) = close_on ind (p.consumers.count == 0 && q.len == q.max_len) p.producers in
    (effects, record p { producers = side })
close_thread_by_ind ind (negsuc zero) q p =
    let (effects, side) = close_on ind (p.producers.count == 0 && q.len == 0) p.consumers in
    (effects, record p { consumers = side })
close_thread_by_ind ind type q p = ([], p)

-- The loop of `close_all_threads` on fuel, as the calls that it makes as long as joins return; `queues k`
-- is the queue at its k-th round.
unfoldable pub close_all_threads :
    ℕ → ℤ → ℕ → (ℕ → MessageQueue) → Pool → Option (List Effect × Pool)
unfolding close_thread_by_ind
close_all_threads zero type k queues p = none
close_all_threads (suc fuel) type k queues p =
    let round : Option (List Effect × Pool) =
      (let (effects, p') = close_thread_by_ind (last_index (count_of type p)) type (queues k) p in
        do
          (rest, p'') ← close_all_threads fuel type (k + 1) queues p'
          some (effects ++ rest, p'')) in
    if ltb 0 (count_of type p) then round else some ([], p)

-- The calls of `cleanup_and_exit` as long as joins return: `queue` is the queue when all threads are
-- closed.
unfoldable pub cleanup_calls :
    ℕ → (ℕ → MessageQueue) → MessageQueue → Pool → Option (List Effect × Pool)
unfolding close_all_threads
cleanup_calls fuel queues queue p = do
  (producers, p') ← close_all_threads fuel (pos 1) 0 queues p
  (consumers, p'') ← close_all_threads fuel (negsuc 0) p.producers.count queues p'
  some (
    producers ++ consumers ++ sync_destroy ∷ map (λ m. free_message m) (queue_free queue.messages),
    p'',
  )

-- The calls in order, up to the first join that does not return; `k` joins have returned.
unfoldable pub perform : (ℕ → Bool) → ℕ → List Effect → Ending Effect
perform returns k [] = exited []
perform returns k (join i ∷ es) =
    let rest : Ending Effect = perform returns (k + 1) es in
    if returns k then after_call (join i) rest else waits_for_ever (join i ∷ [])
perform returns k (e ∷ es) = after_call e (perform returns k es)

unfoldable pub cleanup_and_exit :
    (ℕ → Bool) → ℕ → (ℕ → MessageQueue) → MessageQueue → Pool → Option (Ending Effect)
unfolding cleanup_calls perform
cleanup_and_exit returns fuel queues queue p = do
  (calls, _) ← cleanup_calls fuel queues queue p
  some (perform returns 0 calls)
