-- ===== src/ShmQueue/System/Safety.antt =====
-- What holds in every reachable state of the producers and consumers, as long as SIGUSR1 interrupts no
-- wait for a semaphore.
use osisp.Prelude.{ℕ, ◌<◌, ◌≤◌, ◌≡◌, ◌≢◌, arith, false, some, ℕ_discrete, ◌++◌, [], ◌∷◌}
use osisp.Prelude.Family.{total, weight-le-total, two-le-total}
use osisp.ShmQueue.Message.{generate_message}
use osisp.ShmQueue.Ring.{MessageQueue, enqueue, dequeue}
use osisp.ShmQueue.Ring.Inv.{IsValid}
use osisp.ShmQueue.Ring.Refine.{contents, enqueue-append}
use osisp.ShmQueue.System.{Local, produce_body, consume_body, ProcessType, System, Reach, started}
use osisp.ShmQueue.System.Inv.{Inv, in_section, free_in_transit, item_in_transit, Reach-Inv}

module _ {rand : ℕ → ℕ} {n : ℕ} (q : MessageQueue) (kinds : ℕ → ProcessType) {s : System}
    (v : IsValid q) (empty : q.count ≡ 0) (r : Reach rand n false (started q kinds) s) where
  -- From a fresh queue, in every order of steps in which SIGUSR1 interrupts no wait for a
  -- semaphore: two processes are never together between taking
  -- and returning the access semaphore.
  pub mutual_exclusion :
      (i j : ℕ) → i < n → j < n → in_section (s.pc i) ≡ 1 → in_section (s.pc j) ≡ 1 → i ≡ j
  mutual_exclusion i j hi hj ei ej = elim (ℕ_discrete i j) [
    | yes e ↦ e
    | no ne ↦ absurd (omega (arith, two-le-total in_section n s.pc i j hi hj ne, inv.access))
  ]
    where
      inv : Inv n s.mem s.pc
      inv = Reach-Inv q kinds v empty r

  -- From a fresh queue, in every order of steps in which SIGUSR1 interrupts no wait for a
  -- semaphore: a producer that is about to enqueue finds free
  -- space, so its message is stored behind the others and the queue never answers "Queue is full!".
  pub producer_never_full :
      (i : ℕ) (l : Local)
      → i < n
      → s.pc i ≡ produce_body l
      → contents (enqueue s.mem.queue (generate_message rand l.pos l.msg))
        ≡ contents s.mem.queue ++ generate_message rand l.pos l.msg ∷ []
  producer_never_full i l hi e = enqueue-append s.mem.queue _ inv.queue room
    where
      inv : Inv n s.mem s.pc
      inv = Reach-Inv q kinds v empty r

      reserved : 1 ≤ total free_in_transit n s.pc
      reserved = rw e at (weight-le-total free_in_transit n s.pc i hi)

      room : s.mem.queue.free_space ≢ 0
      room = omega (arith, reserved, inv.free, inv.queue.room)

  -- From a fresh queue, in every order of steps in which SIGUSR1 interrupts no wait for a
  -- semaphore: a consumer that is about to dequeue finds a
  -- message, so `dequeue` returns a pointer and never NULL.
  pub consumer_never_empty :
      (i : ℕ) → i < n → s.pc i ≡ consume_body → (dequeue s.mem.queue).0 ≡ some s.mem.queue.head
  unfolding dequeue
  consumer_never_empty i hi e = ground (arith, reserved, inv.items)
    where
      inv : Inv n s.mem s.pc
      inv = Reach-Inv q kinds v empty r

      reserved : 1 ≤ total item_in_transit n s.pc
      reserved = rw e at (weight-le-total item_in_transit n s.pc i hi)
