-- ===== src/MonitorQueue/Pool/Laws.antt =====
-- Closing all threads of lab5/5.2, compared with lab5/5.1.
use mathlib.Core.Option.{some-injective}
use osisp.Prelude.{
  ℕ, zero, suc, ◌+◌, ◌-◌, ◌<◌, ◌≡◌, refl, subst, ap, sym, ◌∙◌, List, [], ◌∷◌, ◌++◌, append-nil,
  Option, none, some, Bool, Bool-cases, true, false, ◌==◌, ◌&&◌, ltb, if◌then◌else◌, get_or, set,
  inl, inr, map,
}
use osisp.Prelude.Int.{ℤ, pos, negsuc}
use osisp.Prelude.OptionMonad.{◌>>=◌}
use osisp.ThreadQueue.Queue.{MessageQueue, queue_free}
use osisp.ThreadQueue.Pool.{
  max_threads, Side, Pool, last_index, count_of, Effect as Asked, sync_destroy as destroyed,
  free_message as freed, close_on as close_joining, close_thread_by_ind as close_one_joining,
  close_all_threads as close_all_joining, cleanup_calls as cleanup_joining,
}
use osisp.ThreadQueue.Pool.Laws.{
  IsPrefix, joined, joined-append, joined-freeing, countdown, cleanup_calls_lem,
}
use osisp.MonitorQueue.Pool.Calls.{
  translated, ended, Matches, append-Matches, none-Matches, calls-Matches, freeing-Matches, closing,
  waking,
}
use osisp.MonitorQueue.Pool.{
  Effect, sync_destroy, free_message, close_on, close_thread_by_ind, close_all_threads,
  cleanup_calls,
}

-- The same pool, with calls that match, or no result of both.
abbrev pub Same : Option (List Effect × Pool) → Option (List Asked × Pool) → Type 0
Same none none = Unit
Same none (some t) = ⊥
Same (some r) none = ⊥
Same (some (calls, p)) (some (calls', p')) = Matches calls calls' × (p ≡ p')

abbrev chosen : {E : Type 0} → Bool → List E → Side → Side → List E × Side
chosen b es closed s = if b then (es, closed) else ([], s)

close_on-Matches :
    (ind : ℤ) (starved : Bool) (s : Side)
    → Matches (close_on ind starved s).0 (close_joining ind starved s).0
      × ((close_on ind starved s).1 ≡ (close_joining ind starved s).1)
unfolding close_on close_joining
close_on-Matches (negsuc k) starved s = (none-Matches, refl)
close_on-Matches (pos ind) starved s =
    by_guard (ltb 0 s.count && ltb ind max_threads && get_or s.working ind 0 == 1)
  where
    shrunk : Side
    shrunk = record { count = s.count - 1; working = set s.working ind 0 }

    by_guard :
        (b : Bool)
        → Matches
            (chosen b (waking starved ind) shrunk s).0
            (chosen b (closing starved ind) shrunk s).0
          × ((chosen b (waking starved ind) shrunk s).1
              ≡ (chosen b (closing starved ind) shrunk s).1)
    by_guard true = (calls-Matches starved ind, refl)
    by_guard false = (none-Matches, refl)

-- One thread.
close_one-Matches :
    (ind type : ℤ) (q : MessageQueue) (p : Pool)
    → Matches (close_thread_by_ind ind type q p).0 (close_one_joining ind type q p).0
      × ((close_thread_by_ind ind type q p).1 ≡ (close_one_joining ind type q p).1)
unfolding close_thread_by_ind close_one_joining
close_one-Matches ind (pos zero) q p = (none-Matches, refl)
close_one-Matches ind (pos (suc zero)) q p =
    let (calls, side) =
      close_on-Matches ind (p.consumers.count == 0 && q.len == q.max_len) p.producers in
    (calls, ap (λ s. record p { producers = s }) side)
close_one-Matches ind (pos (suc (suc n))) q p = (none-Matches, refl)
close_one-Matches ind (negsuc zero) q p =
    let (calls, side) = close_on-Matches ind (p.producers.count == 0 && q.len == 0) p.consumers in
    (calls, ap (λ s. record p { consumers = s }) side)
close_one-Matches ind (negsuc (suc n)) q p = (none-Matches, refl)

-- Calls before a result.
round-Same :
    (calls : List Effect) (calls' : List Asked) (t : Option (List Asked × Pool))
    (r : Option (List Effect × Pool))
    → Matches calls calls'
    → Same r t
    → Same (r >>= λ x. some (calls ++ x.0, x.1)) (t >>= λ x. some (calls' ++ x.0, x.1))
round-Same calls calls' none none h e = tt
round-Same calls calls' (some x) none h e = absurd e
round-Same calls calls' none (some x) h e = absurd e
round-Same calls calls' (some (es', p')) (some (es, p)) h e =
    (append-Matches calls es calls' es' h e.0, e.1)

close_all-Same :
    (fuel : ℕ) (type : ℤ) (k : ℕ) (queues : ℕ → MessageQueue) (p : Pool)
    → Same (close_all_threads fuel type k queues p) (close_all_joining fuel type k queues p)
unfolding close_all_threads close_all_joining
close_all-Same zero type k queues p = tt
close_all-Same (suc fuel) type k queues p = elim (Bool-cases (ltb 0 (count_of type p))) [
  | inr none_left ↦ rw none_left (none-Matches, refl)
  | inl more ↦
      let ind : ℤ = last_index (count_of type p) in
      let q : MessageQueue = queues k in
      let (calls, side) = close_one-Matches ind type q p in
      let rest : Same
          (close_all_threads fuel type (k + 1) queues (close_thread_by_ind ind type q p).1)
          (close_all_joining fuel type (k + 1) queues (close_one_joining ind type q p).1) =
        rw side (close_all-Same fuel type (k + 1) queues (close_one_joining ind type q p).1) in
      rw more (
        round-Same (close_thread_by_ind ind type q p).0 (close_one_joining ind type q p).0
          (close_all_joining fuel type (k + 1) queues (close_one_joining ind type q p).1)
          (close_all_threads fuel type (k + 1) queues (close_thread_by_ind ind type q p).1) calls
          rest)
]

bind-Same :
    (r : Option (List Effect × Pool)) (t : Option (List Asked × Pool))
    (f : List Effect × Pool → Option (List Effect × Pool))
    (g : List Asked × Pool → Option (List Asked × Pool))
    → Same r t
    → ((calls : List Effect) (calls' : List Asked) (p : Pool)
        → Matches calls calls'
        → Same (f (calls, p)) (g (calls', p)))
    → Same (r >>= f) (t >>= g)
bind-Same none none f g h k = tt
bind-Same none (some t) f g h k = absurd h
bind-Same (some r) none f g h k = absurd h
bind-Same (some (calls, p)) (some (calls', p')) f g h k = rw h.1 (k calls calls' p' h.0)

cleanup-Same :
    (fuel : ℕ) (queues : ℕ → MessageQueue) (queue : MessageQueue) (p : Pool)
    → Same (cleanup_calls fuel queues queue p) (cleanup_joining fuel queues queue p)
unfolding cleanup_calls cleanup_joining
cleanup-Same fuel queues queue p =
    let ms : List ℕ = queue_free queue.messages in
    let freeing : List Effect = sync_destroy ∷ map (λ m. free_message m) ms in
    let freeing' : List Asked = destroyed ∷ map (λ m. freed m) ms in
    bind-Same (close_all_threads fuel (pos 1) 0 queues p)
      (close_all_joining fuel (pos 1) 0 queues p) _ _ (close_all-Same fuel (pos 1) 0 queues p)
      λ a a' p' h.
        bind-Same (close_all_threads fuel (negsuc 0) p.producers.count queues p')
          (close_all_joining fuel (negsuc 0) p.producers.count queues p') _ _
          (close_all-Same fuel (negsuc 0) p.producers.count queues p')
          λ b b' p'' g. (
            append-Matches (a ++ b) freeing (a' ++ b') freeing' (append-Matches a b a' b' h g)
                (freeing-Matches ms),
            refl,
          )

-- A result that is the same as a known one.
known :
    (r : Option (List Effect × Pool)) (t : Option (List Asked × Pool)) (calls' : List Asked)
    (p : Pool)
    → Same r t
    → t ≡ some (calls', p)
    → (calls : List Effect) × (r ≡ some (calls, p)) × Matches calls calls'
known none none calls' p h e = cc e
known none (some t) calls' p h e = absurd h
known (some r) none calls' p h e = cc e
known (some (calls, p₁)) (some (asked, p₂)) calls' p h e =
    let same : ◌≡◌ {A = List Asked × Pool} (asked, p₂) (calls', p) = some-injective _ _ e in
    (
      calls,
      ap (λ x. some (calls, x)) (h.1 ∙ ap (λ x. x.1) same),
      subst (λ x. Matches calls x) (ap (λ x. x.0) same) h.0,
    )

-- From a state whose first threads are in use, with fuel above both counts: the calls of
-- `cleanup_and_exit` are those of lab5/5.1 in the same state, but that a cancelled thread is not joined
-- and a broadcast comes before each join.
pub cleanup_calls-ended :
    (fuel : ℕ) (queues : ℕ → MessageQueue) (queue : MessageQueue) (p : Pool)
    → IsPrefix p.producers
    → IsPrefix p.consumers
    → p.producers.count < fuel
    → p.consumers.count < fuel
    → (calls : List Effect) × (asked : List Asked) × (p' : Pool) × (cleanup_calls fuel queues queue
          p
        ≡ some (calls, p'))
      × (cleanup_joining fuel queues queue p ≡ some (asked, p'))
      × (calls ≡ translated asked)
      × (ended calls ≡ countdown p.producers.count ++ countdown p.consumers.count)
      × (ended calls ≡ joined asked)
unfolding translated
cleanup_calls-ended fuel queues queue p vp vc fp fc =
    let (closed, p', run, all, _, _) = cleanup_calls_lem fuel queues queue p vp vc fp fc in
    let ms : List ℕ = queue_free queue.messages in
    let asked : List Asked = closed ++ destroyed ∷ map (λ m. freed m) ms in
    let (calls, run', matching) =
      known (cleanup_calls fuel queues queue p) (cleanup_joining fuel queues queue p) asked p'
        (cleanup-Same fuel queues queue p) run in
    (
      calls,
      asked,
      p',
      run',
      run,
      sym (append-nil calls) ∙ matching.same [] ∙ ap translated (append-nil asked),
      matching.ends
          ∙ joined-append closed (destroyed ∷ map (λ m. freed m) ms)
          ∙ ap (λ x. joined closed ++ x) (joined-freeing ms)
          ∙ append-nil (joined closed)
          ∙ all,
      matching.ends,
    )
