-- ===== src/MonitorQueue/Closing.antt =====
-- What happens to the mutex of lab5/5.2/src/main.c when a thread is closed.
use osisp.Prelude.{ℕ, ◌<◌, ◌≡◌, ◌≢◌, sym, arith, subst, true, false}
use osisp.Prelude.Family.{update}
use osisp.MonitorQueue.{
  lock, unlock, Producer, Produce, System, Reach, here, later, max_threads, produce_check,
  produce_access, produce_test, produce_end, produce_ends, produce_locked, produces,
}
use osisp.MonitorQueue.Safety.{producer_inside, consumer_inside}

-- A producer `i` that was closed stands at the head of its loop, and another one, `j`, waits for the
-- mutex: the threads have two steps after which `j` has it, whoever else has it. A consumer `k` that
-- was inside is still there beside it.
pub closing_breaks_exclusion :
    (s : System) (i j k : ℕ)
    → i < max_threads
    → j < max_threads
    → i ≢ j
    → s.producers i ≡ produce_check
    → s.producers_working i ≡ false
    → s.producers j ≡ produce_access
    → consumer_inside (s.consumers k) ≡ 1
    → (t : System) × Reach true s t
      × (producer_inside (t.producers j) ≡ 1)
      × (consumer_inside (t.consumers k) ≡ 1)
closing_breaks_exclusion s i j k hi hj ne at_check closed waits inside =
    let left : ℕ → Producer = update s.producers i produce_end in
    let still : left j ≡ produce_access = ground (arith, waits) in
    (
      _,
      later
          (later here (
            produces i hi (
              subst
                (λ p.
                  Produce s.mem (s.producers_working i) (s.producers_cancelled i) p (unlock s.mem)
                    produce_end)
                (sym at_check) (produce_ends closed))))
          (produces j hj (
            subst
              (λ p.
                Produce (unlock s.mem) (s.producers_working j) (s.producers_cancelled j) p
                  (lock (unlock s.mem)) produce_test)
              (sym still) (produce_locked (omega arith)))),
      ground arith,
      inside,
    )
