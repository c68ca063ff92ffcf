-- ===== src/ThreadQueue/Queue/Runs.antt =====
-- Sequences of `queue_push` and `queue_pop`, against the bounded first-in first-out queue, and what
-- happens when the queue is drained.
use native.Mathlib.Nat.{add-zero, mod-eq_of_lt}
use osisp.Prelude.{
  ℕ, suc, ◌+◌, ◌-◌, ◌%◌, ◌<◌, ◌≤◌, ◌≡◌, ◌≢◌, refl, ap, ap₂, sym, ◌∙◌, arith, List, [], ◌∷◌, ◌++◌,
  map, Option, none, some, get_or, set, length, length-set, length-tabulate, dec_lt, get_or-set_ne,
  read_at-get_or, write_at-set,
}
use osisp.Prelude.Modulo.{add-mod_injective}
use osisp.Prelude.OptionMonad.{◌>>=◌}
use osisp.Fifo
use osisp.Fifo.{Op, put, get}
use osisp.ThreadQueue.Queue.{MessageQueue, queue_base_size, queue_init, queue_push, queue_pop}
use osisp.ThreadQueue.Queue.Valid.{
  IsBusy, slot, slot-zero, contents, queue_push-contents, queue_pop-contents,
}

-- What the pops of a sequence of calls return; `none` is a fault.
unfoldable pub run : MessageQueue → List (Op ℕ) → Option (List (Option ℕ))
run q [] = some []
run q (put msg ∷ ops) = do q' ← queue_push msg q; run q' ops
run q (get ∷ ops) = do (out, q') ← queue_pop q; outs ← run q' ops; some (out ∷ outs)

-- Of a sequence of calls on the abstract queue: no `get` takes the last message.
abbrev pub StaysBusy : ℕ → List ℕ → List (Op ℕ) → Type 0
StaysBusy cap xs [] = Unit
StaysBusy cap xs (put x ∷ ops) = StaysBusy cap (Fifo.push cap xs x) ops
StaysBusy cap xs (get ∷ ops) = (1 < length xs) × StaysBusy cap (Fifo.pop xs).1 ops

length-map-some : (xs : List ℕ) → length (map (λ x. some x) xs) ≡ length xs
length-map-some [] = refl
length-map-some (x ∷ xs) = ap suc (length-map-some xs)

length-contents :
    (q : MessageQueue) (xs : List ℕ) → contents q ≡ map (λ x. some x) xs → length xs ≡ q.len
length-contents q xs e =
    omega (arith, length-map-some xs, ap length e, length-tabulate (slot q) 0 q.len)

map-append_some :
    (xs : List ℕ) (x : ℕ) → map (λ y. some y) xs ++ some x ∷ [] ≡ map (λ y. some y) (xs ++ x ∷ [])
map-append_some [] x = refl
map-append_some (y ∷ xs) x = ap (◌∷◌ (some y)) (map-append_some xs x)

full_push : (msg : ℕ) (q : MessageQueue) → q.max_len ≤ q.len → queue_push msg q ≡ some q
unfolding queue_push
full_push msg q h = ground arith

push-append : (cap : ℕ) (xs : List ℕ) (x : ℕ) → length xs < cap → Fifo.push cap xs x ≡ xs ++ x ∷ []
unfolding Fifo.push
push-append cap xs x h = ground arith

push-full : (cap : ℕ) (xs : List ℕ) (x : ℕ) → cap ≤ length xs → Fifo.push cap xs x ≡ xs
unfolding Fifo.push
push-full cap xs x h = ground arith

-- From a queue whose array has `max_len` slots, with `head` inside it and 1 to `max_len` messages, the last
-- of them at `tail`, that holds the messages `xs`, every sequence of pushes and pops that never takes the
-- last message runs without a fault and answers as the bounded first-in first-out queue does: a
-- push on a full queue is refused, and every pop returns the oldest message.
pub queue_run_refines :
    (ops : List (Op ℕ)) (cap : ℕ) (q : MessageQueue) (xs : List ℕ)
    → IsBusy q
    → q.max_len ≡ cap
    → contents q ≡ map (λ x. some x) xs
    → StaysBusy cap xs ops
    → run q ops ≡ some (Fifo.run cap xs ops)
unfolding run Fifo.run Fifo.pop
queue_run_refines [] cap q xs v m c busy = refl
queue_run_refines (put msg ∷ ops) cap q xs v m c busy = elim (dec_lt q.len q.max_len) [
  | yes room ↦
      let (q', e, v', c', m') = queue_push-contents msg q v room in
      let added : Fifo.push cap xs msg ≡ xs ++ msg ∷ [] =
        push-append cap xs msg (omega (arith, length-contents q xs c)) in
      let held : contents q' ≡ map (λ x. some x) (Fifo.push cap xs msg) =
        c'
        ∙ ap (λ l. l ++ some msg ∷ []) c
        ∙ map-append_some xs msg
        ∙ ap (map (λ x. some x)) (sym added) in
      rw e (queue_run_refines ops cap q' (Fifo.push cap xs msg) v' (m' ∙ m) held busy)
  | no full ↦
      let refused : Fifo.push cap xs msg ≡ xs =
        push-full cap xs msg (omega (arith, length-contents q xs c)) in
      rw (full_push msg q (omega arith)) (
        queue_run_refines ops cap q (Fifo.push cap xs msg) v m
          (c ∙ ap (map (λ x. some x)) (sym refused)) busy)
]
queue_run_refines (get ∷ ops) cap q [] v m c busy = absurd (omega (arith, busy.0))
queue_run_refines (get ∷ ops) cap q (x ∷ xs) v m c busy =
    let (p, q', e, c', m', v') = queue_pop-contents q v in
    let oldest : p ≡ some x = cc (c, c') in
    let rest : contents q' ≡ map (λ x. some x) xs = cc (c, c') in
    let more : 1 < q.len = omega (arith, length-contents q (x ∷ xs) c, busy.0) in
    rw (e, ◌>>=◌, queue_run_refines ops cap q' xs (v' more) (m' ∙ m) rest busy.1, oldest)

-- The first push on the queue of `queue_init` makes it hold exactly that message.
pub queue_push-queue_init :
    (msg : ℕ)
    → (q : MessageQueue) × (queue_push msg queue_init ≡ some q)
      × IsBusy q
      × (q.max_len ≡ queue_base_size)
      × (contents q ≡ some msg ∷ [])
unfolding queue_init queue_push
queue_push-queue_init msg = (
  record queue_init { len = 1; messages = set queue_init.messages 0 (some msg) },
  refl,
  record {
    slots = refl;
    head_in = omega arith;
    held = omega arith;
    fits = omega arith;
    tail_last = refl;
  },
  refl,
  refl,
)

-- From `queue_init`, a first push and then any sequence of calls that never takes the last message
-- run without a fault and answer as the first-in first-out queue of ten messages does.
pub run-queue_init :
    (msg : ℕ) (ops : List (Op ℕ))
    → StaysBusy queue_base_size (msg ∷ []) ops
    → run queue_init (put msg ∷ ops) ≡ some (Fifo.run queue_base_size [] (put msg ∷ ops))
unfolding run Fifo.run Fifo.push
run-queue_init msg ops busy =
    let (q, e, v, m, c) = queue_push-queue_init msg in
    rw e (queue_run_refines ops queue_base_size q (msg ∷ []) v m c busy)

pop_step :
    (q : MessageQueue)
    → 0 < q.len
    → q.head < length q.messages
    → queue_pop q
      ≡ some (
        get_or q.messages q.head none,
        record q {
          head = (q.head + 1) % q.max_len;
          len = q.len - 1;
          messages = set q.messages q.head none;
        },
      )
unfolding queue_pop
pop_step q h i =
    ground (arith, read_at-get_or q.messages q.head none, write_at-set q.messages q.head none)

-- On an empty queue the push writes at `tail` and leaves both positions.
push_empty :
    (msg : ℕ) (q : MessageQueue)
    → q.len ≡ 0
    → 0 < q.max_len
    → q.tail < length q.messages
    → queue_push msg q
      ≡ some (record q { len = q.len + 1; messages = set q.messages q.tail (some msg) })
unfolding queue_push
push_empty msg q e m i = ground (arith, write_at-set q.messages q.tail (some msg))

-- The defect at the empty queue: a push on an empty queue writes at `tail`, which `queue_pop` has
-- left one slot behind `head`. On a queue of two slots or more whose one message stands at
-- `head` and `tail`, with the slot after it NULL, a pop, a push and a pop return the held message and then NULL in place of the
-- message that was pushed.
pub drained_queue_loses :
    (msg : ℕ) (q : MessageQueue)
    → IsBusy q
    → q.len ≡ 1
    → 2 ≤ q.max_len
    → slot q 1 ≡ none
    → run q (get ∷ put msg ∷ get ∷ []) ≡ some (slot q 0 ∷ none ∷ [])
unfolding run
drained_queue_loses msg q v one big cleared =
    rw
      (
        pop_step q v.held (omega arith),
        ◌>>=◌,
        push_empty msg q₁ (omega arith) (omega arith) in₁,
        ◌>>=◌,
      )
      (rw (pop_step q₂ (omega arith) in₂, ◌>>=◌)
        (ap₂ (λ a b. some (a ∷ b ∷ [])) (sym (slot-zero q v)) second))
  where
    q₁ : MessageQueue
    q₁ = record q {
      head = (q.head + 1) % q.max_len;
      len = q.len - 1;
      messages = set q.messages q.head none;
    }

    q₂ : MessageQueue
    q₂ = record q₁ { len = q₁.len + 1; messages = set q₁.messages q₁.tail (some msg) }

    tail_at_head : q.tail ≡ q.head
    tail_at_head =
        v.tail_last
        ∙ ap (λ k. k % q.max_len) (let e : q.head + (q.len - 1) ≡ q.head = omega arith in e)
        ∙ mod-eq_of_lt v.head_in

    in₁ : q₁.tail < length q₁.messages
    in₁ = omega (arith, tail_at_head, length-set q.messages q.head none)

    in₂ : q₂.head < length q₂.messages
    in₂ =
        omega (arith, length-set q.messages q.head none, length-set q₁.messages q₁.tail (some msg))

    next : ℕ
    next = (q.head + 1) % q.max_len

    apart : q.head ≢ next
    apart e =
        let at_zero : (q.head + 0) % q.max_len ≡ next =
          ap (λ k. k % q.max_len) (add-zero q.head) ∙ mod-eq_of_lt v.head_in ∙ e in
        omega (
          arith,
          add-mod_injective q.head 0 1 q.max_len v.head_in (omega arith) (omega arith) at_zero,
        )

    second : get_or q₂.messages next none ≡ none
    second =
        get_or-set_ne q₁.messages q.tail next (some msg) none (λ e. apart (sym tail_at_head ∙ e))
        ∙ get_or-set_ne q.messages q.head next none none apart
        ∙ cleared
