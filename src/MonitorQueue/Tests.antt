-- ===== src/MonitorQueue/Tests.antt =====
-- Runs of the threads of lab5/5.2/src/main.c, and the theorems at their states.
use osisp.Prelude.{◌<◌, ◌≡◌, refl, arith, true, false, ◌⊎◌, none, some}
use osisp.ThreadQueue.Queue.{MessageQueue, queue_init, queue_base_size, queue_push}
use osisp.ThreadQueue.Queue.Sizes.{Sizes}
use osisp.MonitorQueue.{
  queue_is_full, queue_is_empty, System, started, Reach, here, later, produce_goes, produce_locked,
  produce_room, produce_pushed, produce_signalled, produce_unlocked, consume_goes, consume_locked,
  consume_some, reduce_goes, reduce_locked, reduce_room, produces, consumes, resizes, adds_producer,
  adds_consumer, closes_producer,
}
use osisp.MonitorQueue.Safety.{producer_inside, consumer_inside, Outside, push_in_monitor}
use osisp.MonitorQueue.Closing.{closing_breaks_exclusion}

-- Producer 0 up to its push.
abbrev at_push : (s : System) × Reach false started s
unfolding started queue_init queue_is_full
at_push = (
  _,
  later
      (later
        (later
          (later (later here (adds_producer 0 refl (omega arith) (omega arith) refl refl))
            (adds_consumer 0 refl (omega arith) (omega arith) refl refl))
          (produces 0 (omega arith) (produce_goes refl)))
        (produces 0 (omega arith) (produce_locked (omega arith))))
      (produces 0 (omega arith) (produce_room refl)),
)

-- Its round to the end, then consumer 0 up to its pop.
abbrev at_pop : (s : System) × Reach false started s
unfolding started queue_init queue_is_full queue_is_empty queue_push
at_pop = (
  _,
  later
      (later
        (later
          (later
            (later (later at_push.1 (produces 0 (omega arith) (produce_pushed 7 refl)))
              (produces 0 (omega arith) produce_signalled))
            (produces 0 (omega arith) produce_unlocked))
          (consumes 0 (omega arith) (consume_goes refl)))
        (consumes 0 (omega arith) (consume_locked (omega arith))))
      (consumes 0 (omega arith) (consume_some refl)),
)

-- A consumer is added, then the command r up to `queue_reduce`.
abbrev at_reduce : (s : System) × Reach false started s
unfolding started queue_init queue_is_full
at_reduce = (
  _,
  later
      (later
        (later (later here (adds_consumer 0 refl (omega arith) (omega arith) refl refl))
          (resizes (reduce_goes (omega arith))))
        (resizes (reduce_locked (omega arith))))
      (resizes (reduce_room refl)),
)

-- Producer 0 waits for the mutex, consumer 0 has it, and producer 1 is closed at the head of its loop.
abbrev at_close : (s : System) × Reach true started s
unfolding started queue_init queue_is_full
at_close = (
  _,
  later
      (later
        (later
          (later
            (later
              (later (later here (adds_producer 0 refl (omega arith) (omega arith) refl refl))
                (adds_producer 1 refl (omega arith) (omega arith) refl refl))
              (adds_consumer 0 refl (omega arith) (omega arith) refl refl))
            (consumes 0 (omega arith) (consume_goes refl)))
          (consumes 0 (omega arith) (consume_locked (omega arith))))
        (produces 0 (omega arith) (produce_goes refl)))
      (closes_producer 1 refl refl refl (omega arith) refl refl),
)

push_in_monitor_example :
    Outside at_push.0 1 0
    × (at_push.0.mem.queue.len < at_push.0.mem.queue.max_len)
    × ((queue_push 7 at_push.0.mem.queue ≡ none)
        ⊎ ((q' : MessageQueue) × (queue_push 7 at_push.0.mem.queue ≡ some q')
            × Sizes 1 queue_base_size q'))
unfolding started queue_init queue_is_full
push_in_monitor_example =
    push_in_monitor at_push.1 0 1 0 7 (omega arith) (omega arith) (omega arith) (omega arith) refl

closing_breaks_exclusion_example :
    (t : System) × Reach true at_close.0 t
    × (producer_inside (t.producers 0) ≡ 1)
    × (consumer_inside (t.consumers 0) ≡ 1)
unfolding started queue_init queue_is_full
closing_breaks_exclusion_example =
    closing_breaks_exclusion at_close.0 1 0 0 (omega arith) (omega arith) (omega arith) refl refl
      refl refl
