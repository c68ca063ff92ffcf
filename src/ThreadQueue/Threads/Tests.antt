-- ===== src/ThreadQueue/Threads/Tests.antt =====
-- A run of a producer and a consumer of lab5/5.1/src/main.c, and the theorems at its states.
use osisp.Prelude.{ℕ, ◌<◌, ◌≡◌, refl, arith, ◌⊎◌, Option, none, some}
use osisp.ThreadQueue.Queue.Sizes.{Sizes}
use osisp.ThreadQueue.Queue.{MessageQueue, queue_base_size, queue_init, queue_push, queue_pop}
use osisp.ThreadQueue.Pool.{no_threads, create_thread, find_free, create_on}
use osisp.ThreadQueue.Threads.{
  System, Reach, started, here, later, adds_producer, adds_consumer, produces, consumes,
  produce_goes, produce_waited, produce_locked, produce_pushed, produce_printed, produce_unlocked,
  produce_posted, consume_goes, consume_waited, consume_locked, sync_init,
}
use osisp.ThreadQueue.Threads.Account.{producer_in_section, consumer_in_section, main_in_section}
use osisp.ThreadQueue.Threads.Safety.{producer_alone_with_room, consumer_alone_with_message}

-- The commands + and *, then producer 0 up to its push.
abbrev at_push : (s : System) × Reach started s
unfolding started sync_init queue_init create_thread no_threads find_free create_on
at_push = (
  _,
  later
      (later
        (later (later (later here (adds_producer refl refl)) (adds_consumer refl refl))
          (produces 0 (omega arith) (produce_goes refl)))
        (produces 0 (omega arith) (produce_waited (omega arith))))
      (produces 0 (omega arith) (produce_locked (omega arith))),
)

-- The producer's round to its end, then consumer 0 up to its pop.
abbrev at_pop : (s : System) × Reach started s
unfolding started sync_init queue_init create_thread no_threads find_free create_on queue_push
at_pop = (
  _,
  later
      (later
        (later
          (later
            (later
              (later (later at_push.1 (produces 0 (omega arith) (produce_pushed 7 refl)))
                (produces 0 (omega arith) produce_printed))
              (produces 0 (omega arith) produce_unlocked))
            (produces 0 (omega arith) produce_posted))
          (consumes 0 (omega arith) (consume_goes refl)))
        (consumes 0 (omega arith) (consume_waited (omega arith))))
      (consumes 0 (omega arith) (consume_locked (omega arith))),
)

producer_alone_with_room_example :
    (producer_in_section (at_push.0.producers 1) ≡ 0)
    × (consumer_in_section (at_push.0.consumers 0) ≡ 0)
    × (main_in_section at_push.0.main ≡ 0)
    × (at_push.0.mem.queue.len < at_push.0.mem.queue.max_len)
    × ((queue_push 7 at_push.0.mem.queue ≡ none)
        ⊎ ((q' : MessageQueue) × (queue_push 7 at_push.0.mem.queue ≡ some q')
            × Sizes 1 queue_base_size q'))
unfolding started sync_init queue_init create_thread no_threads find_free create_on
producer_alone_with_room_example =
    producer_alone_with_room at_push.1 0 (omega arith) 1 0 7 (omega arith) (omega arith)
      (omega arith) refl

consumer_alone_with_message_example :
    (consumer_in_section (at_pop.0.consumers 1) ≡ 0)
    × (producer_in_section (at_pop.0.producers 0) ≡ 0)
    × (main_in_section at_pop.0.main ≡ 0)
    × (0 < at_pop.0.mem.queue.len)
    × ((queue_pop at_pop.0.mem.queue ≡ none)
        ⊎ ((popped : Option ℕ × MessageQueue) × (queue_pop at_pop.0.mem.queue ≡ some popped)
            × Sizes 0 queue_base_size popped.1))
unfolding started sync_init queue_init create_thread no_threads find_free create_on queue_push
consumer_alone_with_message_example =
    consumer_alone_with_message at_pop.1 0 (omega arith) 1 0 (omega arith) (omega arith)
      (omega arith) refl
