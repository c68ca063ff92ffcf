-- ===== src/MonitorQueue.antt =====
-- The program of lab5/5.2/src/main.c while it runs: producer threads, consumer threads and the main
-- thread with its commands, in any order of their steps, on a queue under one mutex with condition
-- variables. The queue is that of lab5/5.1 but for `queue_reduce`.
-- A condition variable keeps no state: POSIX lets `pthread_cond_wait` return at any time, so signals
-- and broadcasts are steps that change nothing. `pthread_mutex_unlock` of a default mutex frees it,
-- whoever holds it. A step that faults in the queue is no step.
-- `create_thread` starts the first free slot, here any free slot; the slot of a cancelled thread, which
-- is not joined, is taken again only after that thread has ended. The command q is in the child module Pool.

pub mod Account
pub mod Inv
pub mod Safety
pub mod Closing
pub mod Pool
mod Tests
use osisp.Prelude.{
  ℕ, ◌+◌, ◌-◌, ◌<◌, ◌≡◌, Bool, true, false, Option, none, some, ◌==◌, ltb, ◌&&◌, if◌then◌else◌,
  take, write_at,
}
use osisp.Prelude.Family.{update}
use osisp.Prelude.OptionMonad.{◌>>=◌}
use osisp.ThreadQueue.Queue.{
  MessageQueue, queue_init, queue_push, queue_pop, queue_expand, shift_down,
}

-- MAX_CONSUMER_THREADS and MAX_PRODUCER_THREADS
abbrev pub max_threads : ℕ
max_threads = 10

unfoldable pub queue_is_full : MessageQueue → Bool
queue_is_full q = q.len == q.max_len

unfoldable pub queue_is_empty : MessageQueue → Bool
queue_is_empty q = q.len == 0

-- `queue_reduce`, which stops at a queue without slots.
unfoldable pub queue_reduce : MessageQueue → Option MessageQueue
queue_reduce q =
    if q.len == q.max_len
    then some q
    else if q.max_len == 0
    then some q
    else if ltb q.tail q.head
    then (do
      shifted ← shift_down (q.max_len - q.head) q.head q.messages
      messages ← write_at shifted (q.max_len - 1) none
      some (record q {
        head = q.head - 1;
        max_len = q.max_len - 1;
        messages = take (q.max_len - 1) messages;
      }))
    else some (record q { max_len = q.max_len - 1; messages = take (q.max_len - 1) q.messages })

-- `message_queue`, and whether `queue_mutex` is free (1) or held (0).
pub record Shared : Type 0 where
  pub queue : MessageQueue
  pub queue_mutex : ℕ

abbrev pub lock : Shared → Shared
lock m = record m { queue_mutex = m.queue_mutex - 1 }

abbrev pub unlock : Shared → Shared
unlock m = record m { queue_mutex = 1 }

-- Where `producer_thread_processing` stands: what it does next.
pub data Producer : Type 0 where
  produce_check : Producer  -- checkTermProducer at the head of the loop
  produce_access : Producer  -- sleep and pthread_mutex_lock
  produce_test : Producer  -- while (queue_is_full(message_queue))
  produce_full : Producer  -- checkTermProducer inside
  produce_wait : Producer  -- pthread_cond_wait releases the mutex
  produce_waiting : Producer  -- and takes it again when it returns
  produce_put : Producer  -- queue_push
  produce_signal : Producer  -- pthread_cond_signal(&items_cond)
  produce_release : Producer  -- pthread_mutex_unlock
  produce_end : Producer  -- ended, or not started

pub data Consumer : Type 0 where
  consume_check consume_access consume_test consume_empty consume_wait consume_waiting : Consumer
  consume_get : Consumer
  consume_print : Option ℕ → Consumer
  consume_signal consume_release consume_end : Consumer

pub data Main : Type 0 where
  commands : Main
  joining_producer joining_consumer : ℕ → Main
  reduce_access reduce_test reduce_wait reduce_waiting reduce_body reduce_release : Main
  expand_access expand_body expand_release expand_signal : Main

-- A step of a producer whose entry of `producers_working` is `working`. `cancelled` is whether
-- `pthread_cancel` was called on it: it takes effect in sleep, in pthread_cond_wait, which takes the
-- mutex again before, and in printf.
pub data Produce (m : Shared) (working cancelled : Bool)
    : Producer → Shared → Producer → Type 0 where
  produce_goes : working ≡ true → Produce m working cancelled produce_check m produce_access
  produce_ends : working ≡ false → Produce m working cancelled produce_check (unlock m) produce_end
  produce_locked :
      0 < m.queue_mutex → Produce m working cancelled produce_access (lock m) produce_test
  produce_no_room :
      queue_is_full m.queue ≡ true → Produce m working cancelled produce_test m produce_full
  produce_room :
      queue_is_full m.queue ≡ false → Produce m working cancelled produce_test m produce_put
  produce_stays : working ≡ true → Produce m working cancelled produce_full m produce_wait
  produce_leaves : working ≡ false → Produce m working cancelled produce_full (unlock m) produce_end
  produce_waits : Produce m working cancelled produce_wait (unlock m) produce_waiting
  produce_woken :
      0 < m.queue_mutex → Produce m working cancelled produce_waiting (lock m) produce_test
  produce_pushed :
      {q' : MessageQueue} (msg : ℕ)
      → queue_push msg m.queue ≡ some q'
      → Produce m working cancelled produce_put (record m { queue = q' }) produce_signal
  produce_signalled : Produce m working cancelled produce_signal m produce_release
  produce_cancelled : cancelled ≡ true → Produce m working cancelled produce_access m produce_end
  produce_cancelled_waiting :
      cancelled ≡ true
      → 0 < m.queue_mutex
      → Produce m working cancelled produce_waiting (lock m) produce_end
  produce_cut : cancelled ≡ true → Produce m working cancelled produce_signal m produce_end
  produce_unlocked : Produce m working cancelled produce_release (unlock m) produce_check

pub data Consume (m : Shared) (working cancelled : Bool)
    : Consumer → Shared → Consumer → Type 0 where
  consume_goes : working ≡ true → Consume m working cancelled consume_check m consume_access
  consume_ends : working ≡ false → Consume m working cancelled consume_check (unlock m) consume_end
  consume_locked :
      0 < m.queue_mutex → Consume m working cancelled consume_access (lock m) consume_test
  consume_none :
      queue_is_empty m.queue ≡ true → Consume m working cancelled consume_test m consume_empty
  consume_some :
      queue_is_empty m.queue ≡ false → Consume m working cancelled consume_test m consume_get
  consume_stays : working ≡ true → Consume m working cancelled consume_empty m consume_wait
  consume_leaves :
      working ≡ false → Consume m working cancelled consume_empty (unlock m) consume_end
  consume_waits : Consume m working cancelled consume_wait (unlock m) consume_waiting
  consume_woken :
      0 < m.queue_mutex → Consume m working cancelled consume_waiting (lock m) consume_test
  consume_popped :
      {popped : Option ℕ} {q' : MessageQueue}
      → queue_pop m.queue ≡ some (popped, q')
      → Consume m working cancelled consume_get (record m { queue = q' }) (consume_print popped)
  consume_printed :
      {popped : Option ℕ} → Consume m working cancelled (consume_print popped) m consume_signal
  consume_signalled : Consume m working cancelled consume_signal m consume_release
  consume_cancelled : cancelled ≡ true → Consume m working cancelled consume_access m consume_end
  consume_cancelled_waiting :
      cancelled ≡ true
      → 0 < m.queue_mutex
      → Consume m working cancelled consume_waiting (lock m) consume_end
  consume_cut :
      {message : ℕ}
      → cancelled ≡ true
      → Consume m working cancelled (consume_print (some message)) m consume_end
  consume_unlocked : Consume m working cancelled consume_release (unlock m) consume_check

-- A step of the commands r and e. `garbage` is what `realloc` leaves in the new slot.
pub data Resize (consumers_count : ℕ) (m : Shared) : Main → Shared → Main → Type 0 where
  reduce_refused : consumers_count ≡ 0 → Resize consumers_count m commands m commands
  reduce_goes : 0 < consumers_count → Resize consumers_count m commands m reduce_access
  reduce_locked : 0 < m.queue_mutex → Resize consumers_count m reduce_access (lock m) reduce_test
  reduce_no_room : queue_is_full m.queue ≡ true → Resize consumers_count m reduce_test m reduce_wait
  reduce_room : queue_is_full m.queue ≡ false → Resize consumers_count m reduce_test m reduce_body
  reduce_waits : Resize consumers_count m reduce_wait (unlock m) reduce_waiting
  reduce_woken : 0 < m.queue_mutex → Resize consumers_count m reduce_waiting (lock m) reduce_test
  reduce_done :
      {q' : MessageQueue}
      → queue_reduce m.queue ≡ some q'
      → Resize consumers_count m reduce_body (record m { queue = q' }) reduce_release
  reduce_unlocked : Resize consumers_count m reduce_release (unlock m) commands
  expand_goes : Resize consumers_count m commands m expand_access
  expand_locked : 0 < m.queue_mutex → Resize consumers_count m expand_access (lock m) expand_body
  expand_done :
      {q' : MessageQueue} (garbage : Option ℕ)
      → queue_expand garbage m.queue ≡ some q'
      → Resize consumers_count m expand_body (record m { queue = q' }) expand_release
  expand_unlocked : Resize consumers_count m expand_release (unlock m) expand_signal
  expand_signalled : Resize consumers_count m expand_signal m commands

pub record System : Type 0 where
  pub mem : Shared
  pub producers_count : ℕ
  pub consumers_count : ℕ
  pub producers_working : ℕ → Bool
  pub consumers_working : ℕ → Bool
  pub producers_cancelled : ℕ → Bool
  pub consumers_cancelled : ℕ → Bool
  pub producers : ℕ → Producer
  pub consumers : ℕ → Consumer
  pub main : Main

-- With `closing` false the commands - and _ are not given.
pub data Step (closing : Bool) (s : System) : System → Type 0 where
  produces :
      (i : ℕ) {m : Shared} {p : Producer}
      → i < max_threads
      → Produce s.mem (s.producers_working i) (s.producers_cancelled i) (s.producers i) m p
      → Step closing s (record s { mem = m; producers = update s.producers i p })
  consumes :
      (i : ℕ) {m : Shared} {p : Consumer}
      → i < max_threads
      → Consume s.mem (s.consumers_working i) (s.consumers_cancelled i) (s.consumers i) m p
      → Step closing s (record s { mem = m; consumers = update s.consumers i p })
  resizes :
      {m : Shared} {p : Main}
      → Resize s.consumers_count s.mem s.main m p
      → Step closing s (record s { mem = m; main = p })
  adds_producer :
      (i : ℕ)
      → s.main ≡ commands
      → s.producers_count < max_threads
      → i < max_threads
      → s.producers_working i ≡ false
      → s.producers i ≡ produce_end
      → Step closing s (record s {
        producers_count = s.producers_count + 1;
        producers_working = update s.producers_working i true;
        producers_cancelled = update s.producers_cancelled i false;
        producers = update s.producers i produce_check;
      })
  adds_consumer :
      (i : ℕ)
      → s.main ≡ commands
      → s.consumers_count < max_threads
      → i < max_threads
      → s.consumers_working i ≡ false
      → s.consumers i ≡ consume_end
      → Step closing s (record s {
        consumers_count = s.consumers_count + 1;
        consumers_working = update s.consumers_working i true;
        consumers_cancelled = update s.consumers_cancelled i false;
        consumers = update s.consumers i consume_check;
      })
  closes_producer :
      (i : ℕ)
      → closing ≡ true
      → s.main ≡ commands
      → i + 1 ≡ s.producers_count
      → i < max_threads
      → s.producers_working i ≡ true
      → (s.consumers_count == 0 && queue_is_full s.mem.queue) ≡ false
      → Step closing s (record s {
        producers_working = update s.producers_working i false;
        main = joining_producer i;
      })
  closes_consumer :
      (i : ℕ)
      → closing ≡ true
      → s.main ≡ commands
      → i + 1 ≡ s.consumers_count
      → i < max_threads
      → s.consumers_working i ≡ true
      → (s.producers_count == 0 && queue_is_empty s.mem.queue) ≡ false
      → Step closing s (record s {
        consumers_working = update s.consumers_working i false;
        main = joining_consumer i;
      })
  closes_starved_producer :
      (i : ℕ)
      → closing ≡ true
      → s.main ≡ commands
      → i + 1 ≡ s.producers_count
      → i < max_threads
      → s.producers_working i ≡ true
      → (s.consumers_count == 0 && queue_is_full s.mem.queue) ≡ true
      → Step closing s (record s {
        producers_count = s.producers_count - 1;
        producers_working = update s.producers_working i false;
        producers_cancelled = update s.producers_cancelled i true;
      })
  joins_producer :
      {i : ℕ}
      → s.main ≡ joining_producer i
      → s.producers i ≡ produce_end
      → Step closing s (record s { producers_count = s.producers_count - 1; main = commands })
  closes_starved_consumer :
      (i : ℕ)
      → closing ≡ true
      → s.main ≡ commands
      → i + 1 ≡ s.consumers_count
      → i < max_threads
      → s.consumers_working i ≡ true
      → (s.producers_count == 0 && queue_is_empty s.mem.queue) ≡ true
      → Step closing s (record s {
        consumers_count = s.consumers_count - 1;
        consumers_working = update s.consumers_working i false;
        consumers_cancelled = update s.consumers_cancelled i true;
      })
  joins_consumer :
      {i : ℕ}
      → s.main ≡ joining_consumer i
      → s.consumers i ≡ consume_end
      → Step closing s (record s { consumers_count = s.consumers_count - 1; main = commands })

-- `main` after `message_queue_init` and `sync_init`.
unfoldable pub started : System
started = record {
  mem = record { queue = queue_init; queue_mutex = 1 };
  producers_count = 0;
  consumers_count = 0;
  producers_working = λ i. false;
  consumers_working = λ i. false;
  producers_cancelled = λ i. false;
  consumers_cancelled = λ i. false;
  producers = λ i. produce_end;
  consumers = λ i. consume_end;
  main = commands;
}

pub data Reach (closing : Bool) (s : System) : System → Type 0 where
  here : Reach closing s s
  later : {t u : System} → Reach closing s t → Step closing t u → Reach closing s u
