-- ===== src/ThreadQueue/Threads/Account.antt =====
-- What the threads of lab5/5.1/src/main.c account for: the semaphores and the mutex against the queue.
-- These are bounds and not equations: a cancelled thread takes what it holds with it, and so does a
-- `queue_reduce` that refuses.
use osisp.Prelude.{ℕ, ◌+◌, ◌≤◌, arith, Bool}
use osisp.Prelude.Family.{total}
use osisp.ThreadQueue.Pool.{max_threads}
use osisp.ThreadQueue.Threads.{
  Shared, Producer, produce_access, produce_put, produce_print, produce_release, produce_post,
  Consumer, consume_access, consume_get, consume_print, consume_release, consume_post, Main,
  reduce_access, reduce_body, reduce_release, expand_body, expand_release, expand_post, Produce,
  produce_waited, produce_locked, produce_pushed, Consume, consume_waited, consume_locked,
  consume_popped, System, Resize, reduce_waited, reduce_locked, reduce_done, expand_locked,
  expand_done,
}
use osisp.ThreadQueue.Queue.Sizes.{
  result, queue_push-Sizes, queue_pop-Sizes, queue_expand-Sizes, queue_reduce-sizes,
}

-- The thread has `queue_mutex`.
abbrev pub producer_in_section : Producer → ℕ
producer_in_section produce_put = 1
producer_in_section produce_print = 1
producer_in_section produce_release = 1
producer_in_section _ = 0

abbrev pub consumer_in_section : Consumer → ℕ
consumer_in_section consume_get = 1
consumer_in_section (consume_print _) = 1
consumer_in_section consume_release = 1
consumer_in_section _ = 0

abbrev pub main_in_section : Main → ℕ
main_in_section reduce_body = 1
main_in_section reduce_release = 1
main_in_section expand_body = 1
main_in_section expand_release = 1
main_in_section _ = 0

-- It has taken from `free_space_sem` and not yet stored; it has removed, or added a slot, and not
-- yet posted; or it has taken from the semaphore and not yet removed a slot.
abbrev pub producer_frees : Producer → ℕ
producer_frees produce_access = 1
producer_frees produce_put = 1
producer_frees _ = 0

abbrev pub consumer_frees : Consumer → ℕ
consumer_frees (consume_print _) = 1
consumer_frees consume_release = 1
consumer_frees consume_post = 1
consumer_frees _ = 0

abbrev pub main_frees : Main → ℕ
main_frees reduce_access = 1
main_frees reduce_body = 1
main_frees expand_release = 1
main_frees expand_post = 1
main_frees _ = 0

-- It has stored and not yet posted `items_sem`, or has taken from it and not yet removed.
abbrev pub producer_items : Producer → ℕ
producer_items produce_print = 1
producer_items produce_release = 1
producer_items produce_post = 1
producer_items _ = 0

abbrev pub consumer_items : Consumer → ℕ
consumer_items consume_access = 1
consumer_items consume_get = 1
consumer_items _ = 0

-- The sums over the producers, the consumers and the main thread.
pub record Sums : Type 0 where
  pub sections : ℕ
  pub frees : ℕ
  pub waiting : ℕ

abbrev pub sums : System → Sums
sums s = record {
  sections =
      total producer_in_section max_threads s.producers
      + total consumer_in_section max_threads s.consumers
      + main_in_section s.main;
  frees =
      total producer_frees max_threads s.producers
      + total consumer_frees max_threads s.consumers
      + main_frees s.main;
  waiting =
      total producer_items max_threads s.producers + total consumer_items max_threads s.consumers;
}

pub record Account (m : Shared) (w : Sums) : Type 0 where
  pub mutex : m.queue_mutex + w.sections ≤ 1
  pub free : m.free_space + w.frees + m.queue.len ≤ m.queue.max_len
  pub items : m.items + w.waiting ≤ m.queue.len

-- What the moving thread weighs before and after, and the sums before and after.
pub record Weighs (w w' : Sums) (sec sec' fr fr' it it' : ℕ) : Type 0 where
  pub sections : w'.sections + sec ≤ w.sections + sec'
  pub section_in : sec ≤ w.sections
  pub frees : w'.frees + fr ≤ w.frees + fr'
  pub free_in : fr ≤ w.frees
  pub waiting : w'.waiting + it ≤ w.waiting + it'
  pub item_in : it ≤ w.waiting

pub Produce-Account :
    {m m' : Shared} {working : ℕ} {cancelled : Bool} {p p' : Producer} {w w' : Sums}
    → Produce m working cancelled p m' p'
    → Weighs w w'
        (producer_in_section p)
        (producer_in_section p')
        (producer_frees p)
        (producer_frees p')
        (producer_items p)
        (producer_items p')
    → Account m w
    → Account m' w'
Produce-Account {m} (produce_pushed msg e) f a =
    let (l, c) = result e (queue_push-Sizes msg m.queue (omega arith)) in
    record { mutex = omega arith; free = omega arith; items = omega arith }
Produce-Account (produce_waited h) f a = record {
  mutex = omega arith;
  free = omega arith;
  items = omega arith;
}
Produce-Account (produce_locked h) f a = record {
  mutex = omega arith;
  free = omega arith;
  items = omega arith;
}
Produce-Account _ f a = record { mutex = ground arith; free = ground arith; items = ground arith }

pub Consume-Account :
    {m m' : Shared} {working : ℕ} {cancelled : Bool} {p p' : Consumer} {w w' : Sums}
    → Consume m working cancelled p m' p'
    → Weighs w w'
        (consumer_in_section p)
        (consumer_in_section p')
        (consumer_frees p)
        (consumer_frees p')
        (consumer_items p)
        (consumer_items p')
    → Account m w
    → Account m' w'
Consume-Account {m} (consume_popped e) f a =
    let (l, c) = result e (queue_pop-Sizes m.queue (omega arith)) in
    record { mutex = omega arith; free = omega arith; items = omega arith }
Consume-Account (consume_waited h) f a = record {
  mutex = omega arith;
  free = omega arith;
  items = omega arith;
}
Consume-Account (consume_locked h) f a = record {
  mutex = omega arith;
  free = omega arith;
  items = omega arith;
}
Consume-Account _ f a = record { mutex = ground arith; free = ground arith; items = ground arith }

pub Resize-Account :
    {count : ℕ} {m m' : Shared} {p p' : Main} {w w' : Sums}
    → Resize count m p m' p'
    → Weighs w w' (main_in_section p) (main_in_section p') (main_frees p) (main_frees p') 0 0
    → Account m w
    → Account m' w'
Resize-Account {m} (reduce_done e) f a =
    let (l, c) = result e (queue_reduce-sizes m.queue) in
    record { mutex = omega arith; free = omega arith; items = omega arith }
Resize-Account {m} (expand_done garbage e) f a =
    let (l, c) = result e (queue_expand-Sizes garbage m.queue) in
    record { mutex = omega arith; free = omega arith; items = omega arith }
Resize-Account (reduce_waited h) f a = record {
  mutex = omega arith;
  free = omega arith;
  items = omega arith;
}
Resize-Account (reduce_locked h) f a = record {
  mutex = omega arith;
  free = omega arith;
  items = omega arith;
}
Resize-Account (expand_locked h) f a = record {
  mutex = omega arith;
  free = omega arith;
  items = omega arith;
}
Resize-Account _ f a = record { mutex = ground arith; free = ground arith; items = ground arith }

-- Sums that do not grow keep the account.
pub Account-le :
    {m : Shared} {w w' : Sums}
    → w'.sections ≤ w.sections
    → w'.frees ≤ w.frees
    → w'.waiting ≤ w.waiting
    → Account m w
    → Account m w'
Account-le s f i a = record { mutex = omega arith; free = omega arith; items = omega arith }
