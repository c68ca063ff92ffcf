-- ===== src/MonitorQueue/Inv.antt =====
-- Every step of the threads of lab5/5.2/src/main.c keeps the account, while no thread is closed.
use osisp.Prelude.{ℕ, ◌≤◌, ◌≡◌, refl, arith, Bool, true, false, if◌then◌else◌, ℕ_discrete, subst}
use osisp.Prelude.Family.{update, total-update, total-clear, total-zero, weight-le-total}
use osisp.ThreadQueue.Queue.{queue_init}
use osisp.MonitorQueue.{
  Shared, Producer, Consumer, Produce, Consume, System, Step, started, Reach, here, later,
  max_threads, produce_check, produce_end, consume_check, consume_end, produce_goes, consume_goes,
  produces, consumes, resizes, adds_producer, adds_consumer, closes_producer,
  closes_starved_producer, closes_starved_consumer, closes_consumer, joins_producer, joins_consumer,
}
use osisp.MonitorQueue.Account.{
  producer_holds, consumer_holds, producer_puts, consumer_gets, sums, Account, Produce-Account,
  Consume-Account, Resize-Account, Account-le,
}

-- A thread that has not ended is marked in its table.
abbrev producer_runs : Producer → ℕ
producer_runs produce_end = 0
producer_runs _ = 1

abbrev consumer_runs : Consumer → ℕ
consumer_runs consume_end = 0
consumer_runs _ = 1

abbrev mark : Bool → ℕ
mark working = if working then 1 else 0

module _ {A : Type 0} (runs : A → ℕ) where
  abbrev Marked : (ℕ → A) → (ℕ → Bool) → Type 0
  Marked pc working = (i : ℕ) → runs (pc i) ≤ mark (working i)

  Marked-update :
      (pc : ℕ → A) (working : ℕ → Bool) (i : ℕ) (a : A)
      → Marked pc working
      → runs a ≤ mark (working i)
      → Marked (update pc i a) working
  Marked-update pc working i a h ha j = elim (ℕ_discrete i j) [
    | yes e ↦ ground (arith, subst (λ k. runs a ≤ mark (working k)) e ha)
    | no ne ↦ ground (arith, h j)
  ]

-- A thread that moves is marked, and where it moves to weighs at most its mark.
Produce-marked :
    {m m' : Shared} {w c : Bool} {p p' : Producer}
    → Produce m w c p m' p'
    → producer_runs p ≤ mark w
    → (w ≡ true) × (producer_runs p' ≤ mark w)
Produce-marked (produce_goes e) h = (e, h)
Produce-marked _ h = (ground arith, ground arith)

Consume-marked :
    {m m' : Shared} {w c : Bool} {p p' : Consumer}
    → Consume m w c p m' p'
    → consumer_runs p ≤ mark w
    → (w ≡ true) × (consumer_runs p' ≤ mark w)
Consume-marked (consume_goes e) h = (e, h)
Consume-marked _ h = (ground arith, ground arith)

pub record Inv (s : System) : Type 0 where
  pub producers : Marked producer_runs s.producers s.producers_working
  pub consumers : Marked consumer_runs s.consumers s.consumers_working
  pub account : Account s.mem (sums s)

-- Every step but those of the commands - and _ keeps the account.
pub Step-Inv : {s t : System} → Step false s t → Inv s → Inv t
Step-Inv {s} (produces i {m} {p} h mv) v =
    let (w, l) = Produce-marked mv (v.producers i) in
    record {
      producers = Marked-update producer_runs s.producers s.producers_working i p v.producers l;
      consumers = v.consumers;
      account =
          Produce-Account
            (subst (λ b. Produce s.mem b (s.producers_cancelled i) (s.producers i) m p) w mv)
            (record {
              holding = omega (arith, total-update producer_holds max_threads s.producers i p h);
              holds = omega (arith, weight-le-total producer_holds max_threads s.producers i h);
              with_room = omega (arith, total-update producer_puts max_threads s.producers i p h);
              reserves = omega (arith, weight-le-total producer_puts max_threads s.producers i h);
              with_message = omega arith;
              claims = omega arith;
            })
            v.account;
    }
Step-Inv {s} (consumes i {m} {p} h mv) v =
    let (w, l) = Consume-marked mv (v.consumers i) in
    record {
      producers = v.producers;
      consumers = Marked-update consumer_runs s.consumers s.consumers_working i p v.consumers l;
      account =
          Consume-Account
            (subst (λ b. Consume s.mem b (s.consumers_cancelled i) (s.consumers i) m p) w mv)
            (record {
              holding = omega (arith, total-update consumer_holds max_threads s.consumers i p h);
              holds = omega (arith, weight-le-total consumer_holds max_threads s.consumers i h);
              with_room = omega arith;
              reserves = omega arith;
              with_message =
                  omega (arith, total-update consumer_gets max_threads s.consumers i p h);
              claims = omega (arith, weight-le-total consumer_gets max_threads s.consumers i h);
            })
            v.account;
    }
Step-Inv {s} (resizes mv) v = record {
  producers = v.producers;
  consumers = v.consumers;
  account =
      Resize-Account mv
        (record {
          holding = omega arith;
          holds = omega arith;
          with_room = omega arith;
          reserves = omega arith;
          with_message = omega arith;
          claims = omega arith;
        })
        v.account;
}
Step-Inv {s} (adds_producer i _ _ _ _ _) v = record {
  producers = λ j. ground (arith, v.producers j);
  consumers = v.consumers;
  account =
      Account-le
        (omega (arith, total-clear producer_holds max_threads s.producers i produce_check refl))
        (omega (arith, total-clear producer_puts max_threads s.producers i produce_check refl))
        (omega arith) v.account;
}
Step-Inv {s} (adds_consumer i _ _ _ _ _) v = record {
  producers = v.producers;
  consumers = λ j. ground (arith, v.consumers j);
  account =
      Account-le
        (omega (arith, total-clear consumer_holds max_threads s.consumers i consume_check refl))
        (omega arith)
        (omega (arith, total-clear consumer_gets max_threads s.consumers i consume_check refl))
        v.account;
}
Step-Inv (closes_producer i closing _ _ _ _ _) v = absurd (ground arith)
Step-Inv (closes_consumer i closing _ _ _ _ _) v = absurd (ground arith)
Step-Inv (closes_starved_producer i closing _ _ _ _ _) v = absurd (ground arith)
Step-Inv (closes_starved_consumer i closing _ _ _ _ _) v = absurd (ground arith)
Step-Inv (joins_producer _ _) v = record {
  producers = v.producers;
  consumers = v.consumers;
  account = Account-le (omega arith) (omega arith) (omega arith) v.account;
}
Step-Inv (joins_consumer _ _) v = record {
  producers = v.producers;
  consumers = v.consumers;
  account = Account-le (omega arith) (omega arith) (omega arith) v.account;
}

started-Inv : Inv started
unfolding started queue_init
started-Inv =
    let hp = total-zero producer_holds max_threads (λ i. produce_end) (λ i. refl) in
    let hc = total-zero consumer_holds max_threads (λ i. consume_end) (λ i. refl) in
    let rp = total-zero producer_puts max_threads (λ i. produce_end) (λ i. refl) in
    let gc = total-zero consumer_gets max_threads (λ i. consume_end) (λ i. refl) in
    record {
      producers = λ i. omega arith;
      consumers = λ i. omega arith;
      account = record {
        mutex = omega (arith, hp, hc, rp, gc);
        room = omega (arith, rp);
        message = omega (arith, gc);
      };
    }

-- It holds in every state that is reached without closing a thread.
pub Reach-Inv : {s : System} → Reach false started s → Inv s
Reach-Inv here = started-Inv
Reach-Inv (later r st) = Step-Inv st (Reach-Inv r)
