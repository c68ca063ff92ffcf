-- ===== src/ThreadQueue/Pool/Endings.antt =====
-- How `cleanup_and_exit` of lab5/5.1/src/main.c ends, by which of its joins return.
use osisp.Prelude.{
  ℕ, zero, suc, ◌+◌, ◌<◌, ◌≡◌, refl, ap, ◌∙◌, arith, List, [], ◌∷◌, ◌++◌, some, Bool, true, false,
  length, length-append, take, map,
}
use osisp.Prelude.OptionMonad.{◌>>=◌}
use osisp.ThreadQueue.Queue.{MessageQueue, queue_free}
use osisp.ThreadQueue.Pool.{
  Effect, cancel, join, sync_destroy, free_message, Pool, waits_for_ever, exited, perform,
  cleanup_and_exit,
}
use osisp.ThreadQueue.Pool.Laws.{IsPrefix, joined, countdown, cleanup_calls_lem}

-- The first `n` joins return.
abbrev pub AllReturn : (ℕ → Bool) → ℕ → Type 0
AllReturn returns n = (k : ℕ) → k < n → returns k ≡ true

pub perform-exited :
    (returns : ℕ → Bool) (k n : ℕ) (es : List Effect)
    → AllReturn returns n
    → k + length (joined es) ≡ n
    → perform returns k es ≡ exited es
unfolding perform
perform-exited returns k n [] all e = refl
perform-exited returns k n (join i ∷ es) all e =
    rw (all k (omega arith), perform-exited returns (k + 1) n es all (omega arith)) refl
perform-exited returns k n (cancel i ∷ es) all e = rw (perform-exited returns k n es all e) refl
perform-exited returns k n (sync_destroy ∷ es) all e = rw (perform-exited returns k n es all e) refl
perform-exited returns k n (free_message m ∷ es) all e =
    rw (perform-exited returns k n es all e) refl

-- The calls up to the first join that does not return are a beginning of the calls `es`, whatever would
-- follow them.
perform-waits :
    (returns : ℕ → Bool) (k n b : ℕ) (es more : List Effect)
    → AllReturn returns n
    → returns n ≡ false
    → k + b ≡ n
    → b < length (joined es)
    → (made : List Effect) × (perform returns k (es ++ more) ≡ waits_for_ever made)
      × (joined made ≡ take (suc b) (joined es))
unfolding perform
perform-waits returns k n b [] more all stuck e h = absurd (omega arith)
perform-waits returns k n zero (join i ∷ es) more all stuck e h =
    let here : returns k ≡ false = ap returns {y = n} (omega arith) ∙ stuck in
    (join i ∷ [], rw here refl, refl)
perform-waits returns k n (suc b) (join i ∷ es) more all stuck e h =
    let (made, run, same) =
      perform-waits returns (k + 1) n b es more all stuck (omega arith) (omega arith) in
    (join i ∷ made, rw (all k (omega arith), run) refl, ap (◌∷◌ i) same)
perform-waits returns k n b (cancel i ∷ es) more all stuck e h =
    let (made, run, same) = perform-waits returns k n b es more all stuck e h in
    (cancel i ∷ made, rw run refl, same)
perform-waits returns k n b (sync_destroy ∷ es) more all stuck e h =
    let (made, run, same) = perform-waits returns k n b es more all stuck e h in
    (sync_destroy ∷ made, rw run refl, same)
perform-waits returns k n b (free_message m ∷ es) more all stuck e h =
    let (made, run, same) = perform-waits returns k n b es more all stuck e h in
    (free_message m ∷ made, rw run refl, same)

pub length-countdown : (n : ℕ) → length (countdown n) ≡ n
length-countdown zero = refl
length-countdown (suc n) = omega (arith, length-countdown n)

-- The joins of `n` producers and `m` consumers.
pub length-joins :
    (n m : ℕ) (closed : List Effect)
    → joined closed ≡ countdown n ++ countdown m
    → length (joined closed) ≡ n + m
length-joins n m closed e = omega (
  arith,
  ap length e,
  length-append (countdown n) (countdown m),
  length-countdown n,
  length-countdown m,
)

module _ (returns : ℕ → Bool) (fuel : ℕ) (queues : ℕ → MessageQueue) (queue : MessageQueue)
    (p : Pool) (vp : IsPrefix p.producers) (vc : IsPrefix p.consumers)
    (fp : p.producers.count < fuel) (fc : p.consumers.count < fuel) where
  -- From such a state, when the joins of the first `b` closed threads return and that of the next does
  -- not: `cleanup_and_exit` waits for ever in that join, the last of `b + 1`, with the threads joined
  -- in the same order.
  pub cleanup_and_exit_waits :
      (b : ℕ)
      → b < p.producers.count + p.consumers.count
      → AllReturn returns b
      → returns b ≡ false
      → (made : List Effect) × (cleanup_and_exit returns fuel queues queue p
          ≡ some (waits_for_ever made))
        × (joined made ≡ take (suc b) (countdown p.producers.count ++ countdown p.consumers.count))
  unfolding cleanup_and_exit
  cleanup_and_exit_waits b h all stuck =
      let ms : List ℕ = queue_free queue.messages in
      let (closed, p', run, joins, _, _) = cleanup_calls_lem fuel queues queue p vp vc fp fc in
      let more : List Effect = sync_destroy ∷ map (λ m. free_message m) ms in
      let (made, waits, same) =
        perform-waits returns 0 b b closed more all stuck (omega arith)
          (omega (arith, length-joins p.producers.count p.consumers.count closed joins)) in
      (made, rw (run, ◌>>=◌) (ap (λ e. some e) waits), same ∙ ap (take (suc b)) joins)
