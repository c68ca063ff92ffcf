-- ===== src/ShmQueue/System/Tests.antt =====
-- Runs of the producers and consumers of lab4/src/main.c, and the theorems at states of the runs.
use osisp.Prelude.{
  ℕ, ◌+◌, ◌*◌, ◌-◌, ◌≤◌, ◌<◌, zero, suc, ◌≡◌, refl, arith, [], ◌∷◌, ◌++◌, some, true, false, inl,
  if◌then◌else◌, ◌==◌,
}
use osisp.Prelude.Family.{update}
use osisp.ShmQueue.Message.{Message, zero_message, generate_message}
use osisp.ShmQueue.Ring.{MessageQueue, queue_size, enqueue, dequeue}
use osisp.ShmQueue.Ring.Inv.{count-enqueue}
use osisp.ShmQueue.Ring.Refine.{contents}
use osisp.ShmQueue.System.{
  Local, ProcessType, consumer_process, producer_process, produce_goes, produce_wait, produce_lock,
  produce, produce_free, produce_body, produce_access, produce_release, produce_post, generated,
  start_of, consume_items, consume_access, consume_body, consume_goes, consume_wait, consume_lock,
  produce_put, produce_unlock, produce_signal, consume_wait_fails, System, Step, move, interrupt,
  Reach, here, later, started, init_semaphores,
}
use osisp.ShmQueue.System.Inv.{Inv, in_section, Reach-Inv}
use osisp.ShmQueue.System.Safety.{mutual_exclusion, producer_never_full, consumer_never_empty}
use osisp.ShmQueue.System.Progress.{CanStep, no_deadlock}
use osisp.ShmQueue.System.Interrupt.{
  moved, Step-moved, interrupt_breaks_exclusion, interrupt_loses_message,
}
use osisp.ShmQueue.Tests.{fresh, fresh-IsValid}

-- Process 0 produces, process 1 consumes.
abbrev kinds : ℕ → ProcessType
kinds i = if i == 0 then producer_process else consumer_process

abbrev rand : ℕ → ℕ
rand k = k * 300 + 5

abbrev first : Local
first = record { pos = 0; msg = zero_message }

-- The producer has taken both semaphores.
abbrev in_body : System
in_body = record {
  mem = record { queue = fresh; el_count = 0; free_space = 9; queue_access = 0 };
  pc =
      update
        (update (update (λ i. start_of (kinds i)) 0 (produce_free first)) 0 (produce_access first))
        0 (produce_body first);
  flag = λ i. false;
}

in_body-reached : Reach rand 2 false (started fresh kinds) in_body
unfolding init_semaphores
in_body-reached =
    later
      (later (later here (move 0 (omega arith) (produce_goes refl)))
        (move 0 (omega arith) (produce_wait (omega arith))))
      (move 0 (omega arith) (produce_lock (omega arith)))

mutual_exclusion_example : ◌≡◌ {A = ℕ} 0 0
mutual_exclusion_example =
    mutual_exclusion fresh kinds fresh-IsValid refl in_body-reached 0 0 (omega arith) (omega arith)
      refl refl

producer_never_full_example :
    contents (enqueue fresh (generate_message rand 0 zero_message))
    ≡ contents fresh ++ generate_message rand 0 zero_message ∷ []
producer_never_full_example =
    producer_never_full fresh kinds fresh-IsValid refl in_body-reached 0 first (omega arith) refl

-- The producer has stored its message, and the consumer has taken both semaphores.
abbrev stored : MessageQueue
stored = enqueue fresh (generate_message rand 0 zero_message)

abbrev consuming : System
consuming = record {
  mem = record { queue = stored; el_count = 0; free_space = 9; queue_access = 0 };
  pc =
      update
        (update
          (update
            (update
              (update (update in_body.pc 0 (produce_release (generated rand first))) 0
                (produce_post (generated rand first)))
              0 (produce (generated rand first)))
            1 consume_items)
          1 consume_access)
        1 consume_body;
  flag = λ i. false;
}

consuming-reached : Reach rand 2 false (started fresh kinds) consuming
unfolding init_semaphores
consuming-reached =
    later
      (later
        (later
          (later
            (later (later in_body-reached (move 0 (omega arith) produce_put))
              (move 0 (omega arith) produce_unlock))
            (move 0 (omega arith) produce_signal))
          (move 1 (omega arith) (consume_goes refl)))
        (move 1 (omega arith) (consume_wait (omega arith))))
      (move 1 (omega arith) (consume_lock (omega arith)))

consumer_never_empty_example : (dequeue stored).0 ≡ some stored.head
consumer_never_empty_example =
    consumer_never_empty fresh kinds fresh-IsValid refl consuming-reached 1 (omega arith) refl

-- Both processes wait: the producer for space, the consumer for a message.
abbrev waiting : System
waiting = record (started fresh kinds) {
  pc = update (update (λ i. start_of (kinds i)) 0 (produce_free first)) 1 consume_items;
}

waiting-reached : Reach rand 2 true (started fresh kinds) waiting
waiting-reached =
    later (later here (move 0 (omega arith) (produce_goes refl)))
      (move 1 (omega arith) (consume_goes refl))

-- SIGUSR1 interrupts the consumer's wait.
abbrev interrupted : System
interrupted = record waiting {
  pc = update waiting.pc 1 consume_access;
  flag = update waiting.flag 1 true;
}

interrupted-reached : Reach rand 2 true (started fresh kinds) interrupted
unfolding init_semaphores
interrupted-reached =
    later waiting-reached (interrupt 1 refl (omega arith) (consume_wait_fails refl))

no_deadlock_example : CanStep rand 2 waiting
no_deadlock_example =
    no_deadlock fresh kinds fresh-IsValid refl waiting-reached 0 1 first (omega arith) (omega arith)
      refl refl

-- Two producers, of which 0 is in the section and 1 waits for it.
abbrev producers : ℕ → ProcessType
producers i = producer_process

abbrev beside : System
beside = record {
  mem = record { queue = fresh; el_count = 0; free_space = 8; queue_access = 0 };
  pc =
      update
        (update
          (update
            (update (update (λ i. produce first) 0 (produce_free first)) 0 (produce_access first)) 0
            (produce_body first))
          1 (produce_free first))
        1 (produce_access first);
  flag = λ i. false;
}

beside-reached : Reach rand 2 false (started fresh producers) beside
unfolding init_semaphores
beside-reached =
    later
      (later
        (later
          (later (later here (move 0 (omega arith) (produce_goes refl)))
            (move 0 (omega arith) (produce_wait (omega arith))))
          (move 0 (omega arith) (produce_lock (omega arith))))
        (move 1 (omega arith) (produce_goes refl)))
      (move 1 (omega arith) (produce_wait (omega arith)))

interrupt_breaks_exclusion_example :
    (t : System) × Step rand 2 true beside t × (in_section (t.pc 0) ≡ 1) × (in_section (t.pc 1) ≡ 1)
interrupt_breaks_exclusion_example =
    interrupt_breaks_exclusion fresh producers fresh-IsValid refl beside-reached 0 1 (omega arith)
      (omega arith) (omega arith) refl (inl (first, refl))

-- Producer 0 at the head of its loop after `k` rounds.
record Filled (k : ℕ) : Type 0 where
  state : System
  position : Local
  reached : Reach rand 1 false (started fresh producers) state
  at_head : state.pc 0 ≡ produce position
  unflagged : state.flag 0 ≡ false
  held : state.mem.queue.count ≡ k
  unused : state.mem.free_space + k ≡ queue_size
  free : state.mem.queue_access ≡ 1

filled_start : Filled 0
unfolding init_semaphores
filled_start = record {
  state = started fresh producers;
  position = first;
  reached = here;
  at_head = refl;
  unflagged = refl;
  held = refl;
  unused = refl;
  free = refl;
}

-- One round of the producer.
next_round : {k : ℕ} → k < queue_size → Filled k → Filled (suc k)
next_round {k} room f = record {
  state = posted;
  position = generated rand f.position;
  reached =
      later
        (later
          (later
            (later
              (later
                (later f.reached (Step-moved 0 (omega arith) f.at_head (produce_goes f.unflagged)))
                (Step-moved 0 (omega arith) refl (produce_wait (omega (arith, f.unused)))))
              (Step-moved 0 (omega arith) refl (produce_lock (omega (arith, f.free)))))
            (Step-moved 0 (omega arith) refl produce_put))
          (Step-moved 0 (omega arith) refl produce_unlock))
        (Step-moved 0 (omega arith) refl produce_signal);
  at_head = refl;
  unflagged = f.unflagged;
  held =
      omega (arith, count-enqueue s.mem.queue msg (omega (arith, f.held, inv.queue.room)), f.held);
  unused = omega (arith, f.unused);
  free = omega (arith, f.free);
}
  where
    s : System
    s = f.state

    inv : Inv 1 s.mem s.pc
    inv = Reach-Inv fresh producers fresh-IsValid refl f.reached

    msg : Message
    msg = generate_message rand f.position.pos f.position.msg

    waits : System
    waits = moved s 0 s.mem (produce_free f.position)

    waited : System
    waited =
        moved waits 0 (record s.mem { free_space = s.mem.free_space - 1 })
          (produce_access f.position)

    entered : System
    entered =
        moved waited 0 (record waited.mem { queue_access = s.mem.queue_access - 1 })
          (produce_body f.position)

    stored : System
    stored =
        moved entered 0 (record entered.mem { queue = enqueue s.mem.queue msg })
          (produce_release (generated rand f.position))

    released : System
    released =
        moved stored 0 (record stored.mem { queue_access = s.mem.queue_access - 1 + 1 })
          (produce_post (generated rand f.position))

    posted : System
    posted =
        moved released 0 (record released.mem { el_count = s.mem.el_count + 1 })
          (produce (generated rand f.position))

filled : (k : ℕ) → k ≤ queue_size → Filled k
filled zero h = filled_start
filled (suc k) h = next_round (omega arith) (filled k (omega arith))

-- The queue is full, and the producer waits for space.
full_queue : Filled queue_size
full_queue = filled queue_size (omega arith)

abbrev at_wait : System
at_wait = moved full_queue.state 0 full_queue.state.mem (produce_free full_queue.position)

at_wait-reached : Reach rand 1 false (started fresh producers) at_wait
at_wait-reached =
    later full_queue.reached
      (Step-moved 0 (omega arith) full_queue.at_head (produce_goes full_queue.unflagged))

interrupt_loses_message_example :
    (t : System) × Reach rand 1 true at_wait t
    × (t.pc 0 ≡ produce (generated rand full_queue.position))
    × (t.mem.queue ≡ at_wait.mem.queue)
    × (t.mem.queue_access ≡ 1)
    × (t.mem.el_count ≡ at_wait.mem.el_count + 1)
interrupt_loses_message_example =
    interrupt_loses_message fresh producers fresh-IsValid refl at_wait-reached 0 full_queue.position
      (omega arith) refl full_queue.held full_queue.free
