-- ===== src/ThreadQueue/Threads/Inv.antt =====
-- Every step of the threads of lab5/5.1/src/main.c keeps the account.
use osisp.Prelude.{ℕ, ◌≡◌, refl, arith, Bool, true, false, List, ◌∷◌}
use osisp.Prelude.Family.{total-update, total-clear, total-zero, weight-le-total}
use osisp.ThreadQueue.Queue.{queue_init}
use osisp.ThreadQueue.Pool.{max_threads, Effect, cancel, join}
use osisp.ThreadQueue.Threads.{
  sync_init, produce_check, produce_end, consume_check, consume_end, Main, joining_producer,
  joining_consumer, System, after_close, Step, produces, consumes, adds_producer, adds_consumer,
  adds_none, closes_producer, closes_consumer, joins_producer, joins_consumer, resizes, started,
  Reach, here, later,
}
use osisp.ThreadQueue.Threads.Account.{
  producer_in_section, consumer_in_section, main_in_section, producer_frees, consumer_frees,
  main_frees, producer_items, consumer_items, sums, Account, Account-le, Produce-Account,
  Consume-Account, Resize-Account,
}

-- No step of closing changes the weight of the main thread.
main_light :
    (joining : ℕ → Bool → Main) (effects : List Effect)
    → ((i : ℕ) (c : Bool) → (main_in_section (joining i c) ≡ 0) × (main_frees (joining i c) ≡ 0))
    → (main_in_section (after_close joining effects) ≡ 0)
      × (main_frees (after_close joining effects) ≡ 0)
unfolding after_close
main_light joining (cancel i ∷ _) light = light i true
main_light joining (join i ∷ _) light = light i false
main_light joining _ light = (refl, refl)

pub Step-Account : {s t : System} → Step s t → Account s.mem (sums s) → Account t.mem (sums t)
Step-Account {s} (produces i {p = p} h mv) a =
    Produce-Account mv
      (record {
        sections = omega (arith, total-update producer_in_section max_threads s.producers i p h);
        section_in = omega (arith, weight-le-total producer_in_section max_threads s.producers i h);
        frees = omega (arith, total-update producer_frees max_threads s.producers i p h);
        free_in = omega (arith, weight-le-total producer_frees max_threads s.producers i h);
        waiting = omega (arith, total-update producer_items max_threads s.producers i p h);
        item_in = omega (arith, weight-le-total producer_items max_threads s.producers i h);
      })
      a
Step-Account {s} (consumes i {p = p} h mv) a =
    Consume-Account mv
      (record {
        sections = omega (arith, total-update consumer_in_section max_threads s.consumers i p h);
        section_in = omega (arith, weight-le-total consumer_in_section max_threads s.consumers i h);
        frees = omega (arith, total-update consumer_frees max_threads s.consumers i p h);
        free_in = omega (arith, weight-le-total consumer_frees max_threads s.consumers i h);
        waiting = omega (arith, total-update consumer_items max_threads s.consumers i p h);
        item_in = omega (arith, weight-le-total consumer_items max_threads s.consumers i h);
      })
      a
Step-Account {s} (resizes {p = p} mv) a =
    Resize-Account mv
      (record {
        sections = omega arith;
        section_in = omega arith;
        frees = omega arith;
        free_in = omega arith;
        waiting = omega arith;
        item_in = omega arith;
      })
      a
Step-Account {s} (adds_producer {i} _ _) a =
    Account-le
      (omega (arith, total-clear producer_in_section max_threads s.producers i produce_check refl))
      (omega (arith, total-clear producer_frees max_threads s.producers i produce_check refl))
      (omega (arith, total-clear producer_items max_threads s.producers i produce_check refl)) a
Step-Account {s} (adds_consumer {i} _ _) a =
    Account-le
      (omega (arith, total-clear consumer_in_section max_threads s.consumers i consume_check refl))
      (omega (arith, total-clear consumer_frees max_threads s.consumers i consume_check refl))
      (omega (arith, total-clear consumer_items max_threads s.consumers i consume_check refl)) a
Step-Account (adds_none opt created _ _) a = a
Step-Account (closes_producer {effects} _ _) a =
    let (e, f) = main_light joining_producer effects λ i c. (refl, refl) in
    Account-le (omega (arith, e)) (omega (arith, f)) (omega arith) a
Step-Account (closes_consumer {effects} _ _) a =
    let (e, f) = main_light joining_consumer effects λ i c. (refl, refl) in
    Account-le (omega (arith, e)) (omega (arith, f)) (omega arith) a
Step-Account (joins_producer _ _) a = Account-le (omega arith) (omega arith) (omega arith) a
Step-Account (joins_consumer _ _) a = Account-le (omega arith) (omega arith) (omega arith) a

started-Account : Account started.mem (sums started)
unfolding started sync_init queue_init
started-Account =
    let sp = total-zero producer_in_section max_threads (λ i. produce_end) (λ i. refl) in
    let sc = total-zero consumer_in_section max_threads (λ i. consume_end) (λ i. refl) in
    let fp = total-zero producer_frees max_threads (λ i. produce_end) (λ i. refl) in
    let fc = total-zero consumer_frees max_threads (λ i. consume_end) (λ i. refl) in
    let ip = total-zero producer_items max_threads (λ i. produce_end) (λ i. refl) in
    let ic = total-zero consumer_items max_threads (λ i. consume_end) (λ i. refl) in
    record {
      mutex = omega (arith, sp, sc);
      free = omega (arith, fp, fc);
      items = omega (arith, ip, ic);
    }

-- In every reachable state the semaphores and the mutex are within what the queue and the threads
-- account for.
pub Reach-Account : {s : System} → Reach started s → Account s.mem (sums s)
Reach-Account here = started-Account
Reach-Account (later r st) = Step-Account st (Reach-Account r)
