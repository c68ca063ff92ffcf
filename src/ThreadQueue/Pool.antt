-- ===== src/ThreadQueue/Pool.antt =====
-- The threads of lab5/5.1/src/main.c as the main thread keeps them: which slots are in use, how
-- threads are started and closed, and the commands on the queue.
-- The code for producers and for consumers is the same but for its arrays, kept here as a `Side`.
-- `pthread_join` waits for ever if its thread does not end: `returns k` is whether the `k`-th join of a
-- run returns. What the main thread would do after a join that does not return is cut off.
pub mod Laws
pub mod Endings
pub mod Commands
use osisp.Prelude.{
  ℕ, zero, suc, ◌+◌, ◌-◌, List, [], ◌∷◌, ◌++◌, Option, none, some, Bool, true, false, ◌&&◌, ◌==◌,
  ltb, if◌then◌else◌, get_or, set, map, replicate, write_at,
}
use osisp.Prelude.Int.{ℤ, pos, negsuc}
use osisp.Prelude.OptionMonad.{◌>>=◌}
use osisp.ThreadQueue.Queue.{MessageQueue, queue_free}

-- MAX_CONSUMER_THREADS and MAX_PRODUCER_THREADS
abbrev pub max_threads : ℕ
max_threads = 10

-- `producers_count` and `producers_working`, or the same of the consumers.
pub record Side : Type 0 where
  pub count : ℕ
  pub working : List ℕ

unfoldable pub no_threads : Side
no_threads = record { count = 0; working = replicate max_threads 0 }

-- The `while` that looks for a free slot; past the end of the array it faults.
unfoldable pub find_free : List ℕ → ℕ → Option ℕ
find_free [] i = none
find_free (w ∷ working) i = if w == 0 then some i else find_free working (i + 1)

-- The side after `create_thread`, and the index of the thread that was started. `created` is
-- whether `pthread_create` succeeds.
unfoldable pub create_on : Bool → Side → Option (Option ℕ × Side)
unfolding find_free
create_on created s =
    if ltb s.count max_threads
    then (do
      index ← find_free s.working 0
      marked ← write_at s.working index 1
      some (
          if created
          then (some index, record { count = s.count + 1; working = marked })
          else (none, record s { working = set marked index 0 })))
    else some (none, s)

pub data Effect : Type 0 where
  cancel join : ℕ → Effect
  sync_destroy : Effect
  free_message : ℕ → Effect

-- `close_thread_by_ind` on its side; `starved` is whether the thread waits for ever.
unfoldable pub close_on : ℤ → Bool → Side → List Effect × Side
close_on (negsuc k) starved s = ([], s)
close_on (pos ind) starved s =
    if ltb 0 s.count && ltb ind max_threads && get_or s.working ind 0 == 1
    then (
      if starved then cancel ind ∷ join ind ∷ [] else join ind ∷ [],
      record { count = s.count - 1; working = set s.working ind 0 },
    )
    else ([], s)

pub record Pool : Type 0 where
  pub producers : Side
  pub consumers : Side

-- `create_thread`: 1 is a producer, -1 a consumer.
unfoldable pub create_thread : ℤ → Bool → Pool → Option (Option ℕ × Pool)
unfolding create_on
create_thread (pos (suc zero)) created p = do
  (started, side) ← create_on created p.producers
  some (started, record p { producers = side })
create_thread (negsuc zero) created p = do
  (started, side) ← create_on created p.consumers
  some (started, record p { consumers = side })
create_thread opt created p = some (none, p)

-- `close_thread_by_ind`, with the queue as it is then.
unfoldable pub close_thread_by_ind : ℤ → ℤ → MessageQueue → Pool → List Effect × Pool
unfolding close_on
close_thread_by_ind ind (pos (suc zero)) q p =
    let (effects, side) = close_on ind (p.consumers.count == 0 && q.len == q.max_len) p.producers in
    (effects, record p { producers = side })
close_thread_by_ind ind (negsuc zero) q p =
    let (effects, side) = close_on ind (p.producers.count == 0 && q.len == 0) p.consumers in
    (effects, record p { consumers = side })
close_thread_by_ind ind type q p = ([], p)

-- `producers_count - 1` as an int.
abbrev pub last_index : ℕ → ℤ
last_index zero = negsuc 0
last_index (suc n) = pos n

abbrev pub count_of : ℤ → Pool → ℕ
count_of (pos (suc zero)) p = p.producers.count
count_of (negsuc zero) p = p.consumers.count
count_of type p = 0

-- The loop of `close_all_threads` on fuel, as the calls that it makes as long as joins return; `queues k`
-- is the queue at its k-th round.
unfoldable pub close_all_threads :
    ℕ → ℤ → ℕ → (ℕ → MessageQueue) → Pool → Option (List Effect × Pool)
unfolding close_thread_by_ind
close_all_threads zero type k queues p = none
close_all_threads (suc fuel) type k queues p =
    let round : Option (List Effect × Pool) =
      (let (effects, p') = close_thread_by_ind (last_index (count_of type p)) type (queues k) p in
        do
          (rest, p'') ← close_all_threads fuel type (k + 1) queues p'
          some (effects ++ rest, p'')) in
    if ltb 0 (count_of type p) then round else some ([], p)

-- The calls of `cleanup_and_exit` as long as joins return: `queue` is the queue when all threads are
-- closed.
unfoldable pub cleanup_calls :
    ℕ → (ℕ → MessageQueue) → MessageQueue → Pool → Option (List Effect × Pool)
unfolding close_all_threads
cleanup_calls fuel queues queue p = do
  (producers, p') ← close_all_threads fuel (pos 1) 0 queues p
  (consumers, p'') ← close_all_threads fuel (negsuc 0) p.producers.count queues p'
  some (
    producers ++ consumers ++ sync_destroy ∷ map (λ m. free_message m) (queue_free queue.messages),
    p'',
  )

-- How the main thread stands after `cleanup_and_exit`: in a join that never returns, or it has exited,
-- with the calls that it has made.
pub data Ending (E : Type 0) : Type 0 where
  waits_for_ever : List E → Ending E
  exited : List E → Ending E

abbrev pub after_call : {E : Type 0} → E → Ending E → Ending E
after_call e (waits_for_ever es) = waits_for_ever (e ∷ es)
after_call e (exited es) = exited (e ∷ es)

-- The calls in order, up to the first join that does not return; `k` joins have returned.
unfoldable pub perform : (ℕ → Bool) → ℕ → List Effect → Ending Effect
perform returns k [] = exited []
perform returns k (join i ∷ es) =
    let rest : Ending Effect = perform returns (k + 1) es in
    if returns k then after_call (join i) rest else waits_for_ever (join i ∷ [])
perform returns k (e ∷ es) = after_call e (perform returns k es)

unfoldable pub cleanup_and_exit :
    (ℕ → Bool) → ℕ → (ℕ → MessageQueue) → MessageQueue → Pool → Option (Ending Effect)
unfolding cleanup_calls perform
cleanup_and_exit returns fuel queues queue p = do
  (calls, _) ← cleanup_calls fuel queues queue p
  some (perform returns 0 calls)
