-- ===== src/ThreadQueue/Threads.antt =====
-- The program of lab5/5.1/src/main.c while it runs: the producer threads, the consumer threads and the
-- main thread with its commands, in any order of their steps, on the queue, the two semaphores and
-- `queue_mutex`. The threads' tables are those of Pool. A step that faults in the queue is no step:
-- what follows undefined behaviour is not modelled. The command q is `cleanup_and_exit` of Pool.

pub mod Account
pub mod Inv
pub mod Safety
mod Tests
use osisp.Prelude.{
  ℕ, ◌+◌, ◌-◌, ◌<◌, ◌≡◌, Bool, true, false, List, [], ◌∷◌, Option, none, some, ◌==◌, get_or,
}
use osisp.Prelude.Family.{update}
use osisp.Prelude.Int.{ℤ, pos, negsuc}
use osisp.ThreadQueue.Queue.{
  MessageQueue, queue_base_size, queue_init, queue_push, queue_pop, queue_expand, queue_reduce,
}
use osisp.ThreadQueue.Pool.{
  max_threads, no_threads, Effect, cancel, join, Pool, create_thread, close_thread_by_ind,
  last_index,
}

-- `message_queue`, the values of `free_space_sem` and `items_sem`, and whether `queue_mutex` is free
-- (1) or held (0).
pub record Shared : Type 0 where
  pub queue : MessageQueue
  pub free_space : ℕ
  pub items : ℕ
  pub queue_mutex : ℕ

-- `sync_init`
unfoldable pub sync_init : MessageQueue → Shared
sync_init q = record { queue = q; free_space = queue_base_size; items = 0; queue_mutex = 1 }

-- Where `producer_thread_processing` stands: what it does next.
pub data Producer : Type 0 where
  produce_check : Producer  -- the test of producers_working
  produce_wait : Producer  -- sleep and sem_wait(&free_space_sem)
  produce_access : Producer  -- pthread_mutex_lock(&queue_mutex)
  produce_put : Producer  -- queue_push
  produce_print : Producer
  produce_release : Producer  -- pthread_mutex_unlock(&queue_mutex)
  produce_post : Producer  -- sem_post(&items_sem)
  produce_end : Producer  -- ended, or not started

-- Where `consumer_thread_processing` stands, with `data`.
pub data Consumer : Type 0 where
  consume_check : Consumer
  consume_wait : Consumer
  consume_access : Consumer
  consume_get : Consumer
  consume_print : Option ℕ → Consumer
  consume_release : Consumer
  consume_post : Consumer
  consume_end : Consumer

-- Where the main thread stands. It joins a thread that it has cancelled before, or not.
pub data Main : Type 0 where
  commands : Main
  joining_producer joining_consumer : ℕ → Bool → Main
  reduce_wait reduce_access reduce_body reduce_release : Main
  expand_access expand_body expand_release expand_post : Main

-- A step of a producer whose entry of `producers_working` is `working`. `cancelled` is whether
-- `pthread_cancel` was called on it: it takes effect in sleep, sem_wait and printf.
pub data Produce (m : Shared) (working : ℕ) (cancelled : Bool)
    : Producer → Shared → Producer → Type 0 where
  produce_goes : (working == 0) ≡ false → Produce m working cancelled produce_check m produce_wait
  produce_ends : (working == 0) ≡ true → Produce m working cancelled produce_check m produce_end
  produce_waited :
      0 < m.free_space
      → Produce m working cancelled produce_wait
          (record m { free_space = m.free_space - 1 })
          produce_access
  produce_locked :
      0 < m.queue_mutex
      → Produce m working cancelled produce_access
          (record m { queue_mutex = m.queue_mutex - 1 })
          produce_put
  produce_pushed :
      {q' : MessageQueue} (msg : ℕ)
      → queue_push msg m.queue ≡ some q'
      → Produce m working cancelled produce_put (record m { queue = q' }) produce_print
  produce_printed : Produce m working cancelled produce_print m produce_release
  produce_unlocked :
      Produce m working cancelled produce_release
        (record m { queue_mutex = m.queue_mutex + 1 })
        produce_post
  produce_posted :
      Produce m working cancelled produce_post (record m { items = m.items + 1 }) produce_check
  produce_cancelled : cancelled ≡ true → Produce m working cancelled produce_wait m produce_end
  produce_cut : cancelled ≡ true → Produce m working cancelled produce_print m produce_end

-- The same of a consumer. It prints only a message that is not NULL.
pub data Consume (m : Shared) (working : ℕ) (cancelled : Bool)
    : Consumer → Shared → Consumer → Type 0 where
  consume_goes : (working == 0) ≡ false → Consume m working cancelled consume_check m consume_wait
  consume_ends : (working == 0) ≡ true → Consume m working cancelled consume_check m consume_end
  consume_waited :
      0 < m.items
      → Consume m working cancelled consume_wait (record m { items = m.items - 1 }) consume_access
  consume_locked :
      0 < m.queue_mutex
      → Consume m working cancelled consume_access
          (record m { queue_mutex = m.queue_mutex - 1 })
          consume_get
  consume_popped :
      {popped : Option ℕ} {q' : MessageQueue}
      → queue_pop m.queue ≡ some (popped, q')
      → Consume m working cancelled consume_get (record m { queue = q' }) (consume_print popped)
  consume_printed :
      {popped : Option ℕ} → Consume m working cancelled (consume_print popped) m consume_release
  consume_unlocked :
      Consume m working cancelled consume_release
        (record m { queue_mutex = m.queue_mutex + 1 })
        consume_post
  consume_posted :
      Consume m working cancelled consume_post
        (record m { free_space = m.free_space + 1 })
        consume_check
  consume_cancelled : cancelled ≡ true → Consume m working cancelled consume_wait m consume_end
  consume_cut :
      {message : ℕ}
      → cancelled ≡ true
      → Consume m working cancelled (consume_print (some message)) m consume_end

pub record System : Type 0 where
  pub mem : Shared
  pub pool : Pool
  pub producers : ℕ → Producer
  pub consumers : ℕ → Consumer
  pub main : Main

-- What the main thread does after the first calls of `close_thread_by_ind`.
unfoldable pub after_close : (ℕ → Bool → Main) → List Effect → Main
after_close joining (cancel ind ∷ _) = joining ind true
after_close joining (join ind ∷ _) = joining ind false
after_close joining _ = commands

-- The thread was cancelled and is being joined.
unfoldable pub producer_cancelled : Main → ℕ → Bool
producer_cancelled (joining_producer ind true) i = ind == i
producer_cancelled _ i = false

unfoldable pub consumer_cancelled : Main → ℕ → Bool
consumer_cancelled (joining_consumer ind true) i = ind == i
consumer_cancelled _ i = false

-- A step of the commands r and e. `garbage` is what `realloc` leaves in the new slot.
pub data Resize (consumers_count : ℕ) (m : Shared) : Main → Shared → Main → Type 0 where
  reduce_refused : consumers_count ≡ 0 → Resize consumers_count m commands m commands
  reduce_goes : 0 < consumers_count → Resize consumers_count m commands m reduce_wait
  reduce_waited :
      0 < m.free_space
      → Resize consumers_count m reduce_wait
          (record m { free_space = m.free_space - 1 })
          reduce_access
  reduce_locked :
      0 < m.queue_mutex
      → Resize consumers_count m reduce_access
          (record m { queue_mutex = m.queue_mutex - 1 })
          reduce_body
  reduce_done :
      {q' : MessageQueue}
      → queue_reduce m.queue ≡ some q'
      → Resize consumers_count m reduce_body (record m { queue = q' }) reduce_release
  reduce_unlocked :
      Resize consumers_count m reduce_release
        (record m { queue_mutex = m.queue_mutex + 1 })
        commands
  expand_goes : Resize consumers_count m commands m expand_access
  expand_locked :
      0 < m.queue_mutex
      → Resize consumers_count m expand_access
          (record m { queue_mutex = m.queue_mutex - 1 })
          expand_body
  expand_done :
      {q' : MessageQueue} (garbage : Option ℕ)
      → queue_expand garbage m.queue ≡ some q'
      → Resize consumers_count m expand_body (record m { queue = q' }) expand_release
  expand_unlocked :
      Resize consumers_count m expand_release
        (record m { queue_mutex = m.queue_mutex + 1 })
        expand_post
  expand_posted :
      Resize consumers_count m expand_post (record m { free_space = m.free_space + 1 }) commands

pub data Step (s : System) : System → Type 0 where
  produces :
      (i : ℕ) {m : Shared} {p : Producer}
      → i < max_threads
      → Produce s.mem
          (get_or s.pool.producers.working i 0)
          (producer_cancelled s.main i)
          (s.producers i)
          m
          p
      → Step s (record s { mem = m; producers = update s.producers i p })
  consumes :
      (i : ℕ) {m : Shared} {p : Consumer}
      → i < max_threads
      → Consume s.mem
          (get_or s.pool.consumers.working i 0)
          (consumer_cancelled s.main i)
          (s.consumers i)
          m
          p
      → Step s (record s { mem = m; consumers = update s.consumers i p })
  -- the commands + and *, when a thread is started, and when none is
  adds_producer :
      {i : ℕ} {pool : Pool}
      → s.main ≡ commands
      → create_thread (pos 1) true s.pool ≡ some (some i, pool)
      → Step s (record s { pool = pool; producers = update s.producers i produce_check })
  adds_consumer :
      {i : ℕ} {pool : Pool}
      → s.main ≡ commands
      → create_thread (negsuc 0) true s.pool ≡ some (some i, pool)
      → Step s (record s { pool = pool; consumers = update s.consumers i consume_check })
  adds_none :
      (opt : ℤ) (created : Bool) {pool : Pool}
      → s.main ≡ commands
      → create_thread opt created s.pool ≡ some (none, pool)
      → Step s (record s { pool = pool })
  -- the commands - and _
  closes_producer :
      {effects : List Effect} {pool : Pool}
      → s.main ≡ commands
      → close_thread_by_ind (last_index s.pool.producers.count) (pos 1) s.mem.queue s.pool
        ≡ (effects, pool)
      → Step s (record s { pool = pool; main = after_close joining_producer effects })
  closes_consumer :
      {effects : List Effect} {pool : Pool}
      → s.main ≡ commands
      → close_thread_by_ind (last_index s.pool.consumers.count) (negsuc 0) s.mem.queue s.pool
        ≡ (effects, pool)
      → Step s (record s { pool = pool; main = after_close joining_consumer effects })
  -- pthread_join returns when the thread has ended
  joins_producer :
      {i : ℕ} {cancelled : Bool}
      → s.main ≡ joining_producer i cancelled
      → s.producers i ≡ produce_end
      → Step s (record s { main = commands })
  joins_consumer :
      {i : ℕ} {cancelled : Bool}
      → s.main ≡ joining_consumer i cancelled
      → s.consumers i ≡ consume_end
      → Step s (record s { main = commands })
  resizes :
      {m : Shared} {p : Main}
      → Resize s.pool.consumers.count s.mem s.main m p
      → Step s (record s { mem = m; main = p })

-- `main` after `message_queue_init` and `sync_init`.
unfoldable pub started : System
started = record {
  mem = sync_init queue_init;
  pool = record { producers = no_threads; consumers = no_threads };
  producers = λ i. produce_end;
  consumers = λ i. consume_end;
  main = commands;
}

pub data Reach (s : System) : System → Type 0 where
  here : Reach s s
  later : {t u : System} → Reach s t → Step t u → Reach s u
