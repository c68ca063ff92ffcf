-- ===== src/ThreadQueue/Pool/Laws.antt =====
-- The threads in use are the first ones of their array: creation starts the next, closing takes the
-- last, and closing all of them ends.
use osisp.Prelude.{
  ℕ, zero, suc, ◌+◌, ◌-◌, ◌<◌, ◌≤◌, ◌≡◌, refl, ap, ap₂, sym, ◌∙◌, arith, List, [], ◌∷◌, ◌++◌,
  Option, none, some, Bool, Bool-cases, true, false, ◌==◌, ltb, if◌then◌else◌, get_or, set,
  replicate, length, write_at-set, ◌&&◌, inl, inr, append_assoc, map,
}
use osisp.Prelude.Int.{pos, negsuc}
use osisp.Prelude.OptionMonad.{◌>>=◌}
use osisp.ThreadQueue.Queue.{MessageQueue, queue_free}
use osisp.ThreadQueue.Pool.{
  max_threads, Side, find_free, create_on, Effect, cancel, join, sync_destroy, free_message,
  close_on, Pool, last_index, close_all_threads, cleanup_calls,
}

-- `m` threads in use, then `n` free slots.
abbrev slots : ℕ → ℕ → List ℕ
slots m n = replicate m 1 ++ replicate n 0

pub record IsPrefix (s : Side) : Type 0 where
  pub fits : s.count ≤ max_threads
  pub first : s.working ≡ slots s.count (max_threads - s.count)

find_free-slots : (m n i : ℕ) → find_free (slots m (suc n)) i ≡ some (i + m)
unfolding find_free
find_free-slots zero n i = ap (λ k. some k) (omega arith)
find_free-slots (suc m) n i = find_free-slots m n (i + 1) ∙ ap (λ k. some k) (omega arith)

set-slots_mark : (m n : ℕ) → set (slots m (suc n)) m 1 ≡ slots (suc m) n
set-slots_mark zero n = refl
set-slots_mark (suc m) n = ap (◌∷◌ 1) (set-slots_mark m n)

set-slots_clear : (m n : ℕ) → set (slots (suc m) n) m 0 ≡ slots m (suc n)
set-slots_clear zero n = refl
set-slots_clear (suc m) n = ap (◌∷◌ 1) (set-slots_clear m n)

get_or-slots : (m n : ℕ) → get_or (slots (suc m) n) m 0 ≡ 1
get_or-slots zero n = refl
get_or-slots (suc m) n = get_or-slots m n

length-slots : (m n : ℕ) → length (slots m n) ≡ m + n
length-slots zero zero = refl
length-slots zero (suc n) = omega (arith, length-slots zero n)
length-slots (suc m) n = omega (arith, length-slots m n)

-- The side with one thread more, and one fewer.
abbrev grown : Side → Side
grown s = record { count = s.count + 1; working = set s.working s.count 1 }

abbrev shrunk : Side → Side
shrunk s = record { count = s.count - 1; working = set s.working (s.count - 1) 0 }

-- With a free slot the slots are `count` ones and then zeros, the first of them at `count`.
free_slots :
    (s : Side)
    → IsPrefix s
    → s.count < max_threads
    → s.working ≡ slots s.count (suc (max_threads - s.count - 1))
free_slots s v room =
    v.first ∙ ap (slots s.count) {y = suc (max_threads - s.count - 1)} (omega arith)

grown-IsPrefix : (s : Side) → IsPrefix s → s.count < max_threads → IsPrefix (grown s)
grown-IsPrefix s v room = record {
  fits = omega arith;
  first =
      ap (λ w. set w s.count 1) (free_slots s v room)
      ∙ set-slots_mark s.count (max_threads - s.count - 1)
      ∙ ap₂ slots (let e : suc s.count ≡ s.count + 1 = omega arith in e)
          (let e : max_threads - s.count - 1 ≡ max_threads - (s.count + 1) = omega arith in e);
}

-- With threads in use the slots are as many ones and then zeros.
used_slots :
    (s : Side)
    → IsPrefix s
    → 0 < s.count
    → s.working ≡ slots (suc (s.count - 1)) (max_threads - s.count)
used_slots s v some_used =
    v.first ∙ ap (λ c. slots c (max_threads - s.count)) {y = suc (s.count - 1)} (omega arith)

shrunk-IsPrefix : (s : Side) → IsPrefix s → 0 < s.count → IsPrefix (shrunk s)
shrunk-IsPrefix s v some_used = record {
  fits = omega (arith, v.fits);
  first =
      ap (λ w. set w (s.count - 1) 0) (used_slots s v some_used)
      ∙ set-slots_clear (s.count - 1) (max_threads - s.count)
      ∙ ap (slots (s.count - 1)) (
          let e : suc (max_threads - s.count) ≡ max_threads - (s.count - 1) =
            omega (arith, v.fits) in
          e);
}

unmark :
    (s : Side)
    → IsPrefix s
    → s.count < max_threads
    → set (set s.working s.count 1) s.count 0 ≡ s.working
unmark s v room =
    let n : ℕ = max_threads - s.count - 1 in
    ap (λ w. set (set w s.count 1) s.count 0) (free_slots s v room)
    ∙ ap (λ w. set w s.count 0) (set-slots_mark s.count n)
    ∙ set-slots_clear s.count n
    ∙ sym (free_slots s v room)

-- On a side whose first threads are in use, creating one never leaves the array. It starts the next
-- index if there is room and `pthread_create` succeeds, and else leaves the side as it was.
pub create_on-next :
    (created : Bool) (s : Side)
    → IsPrefix s
    → create_on created s ≡ (
        if ltb s.count max_threads && created then some (some s.count, grown s) else some (none, s))
unfolding create_on
create_on-next created s v = elim (Bool-cases (ltb s.count max_threads)) [
  | inl room ↦
      let lt : s.count < max_threads = ground arith in
      let n : ℕ = max_threads - s.count - 1 in
      let found : find_free s.working 0 ≡ some s.count =
        ap (λ w. find_free w 0) (free_slots s v lt)
        ∙ find_free-slots s.count n 0
        ∙ ap (λ k. some k) (omega arith) in
      let inside : s.count < length s.working =
        omega (arith, ap length (free_slots s v lt), length-slots s.count (suc n)) in
      rw (room, found, ◌>>=◌, write_at-set s.working s.count 1 inside, ◌>>=◌) (finish created lt)
  | inr full ↦ rw full
]
  where
    finish :
        (created : Bool)
        → s.count < max_threads
        → ◌≡◌ {A = Option (Option ℕ × Side)}
            (some (
              if created
              then (some s.count, grown s)
              else (none, record s { working = set (set s.working s.count 1) s.count 0 })))
            (if created then some (some s.count, grown s) else some (none, s))
    finish true lt = refl
    finish false lt = ap (λ w. some (none, record s { working = w })) (unmark s v lt)

last_index-pos : (n : ℕ) → 0 < n → last_index n ≡ pos (n - 1)
last_index-pos zero h = absurd (omega arith)
last_index-pos (suc n) h = ap (λ k. pos k) {y = suc n - 1} (omega arith)

-- What closing the last of `n` threads asks for.
abbrev closing : Bool → ℕ → List Effect
closing starved n = if starved then cancel (n - 1) ∷ join (n - 1) ∷ [] else join (n - 1) ∷ []

-- Closing the last thread in use joins it, after a cancel if it waits for ever, and frees its slot.
close_on-last :
    (starved : Bool) (s : Side)
    → IsPrefix s
    → 0 < s.count
    → close_on (last_index s.count) starved s ≡ (closing starved s.count, shrunk s)
unfolding close_on
close_on-last starved s v some_used =
    let marked : get_or s.working (s.count - 1) 0 ≡ 1 =
      ap (λ w. get_or w (s.count - 1) 0) (used_slots s v some_used)
      ∙ get_or-slots (s.count - 1) (max_threads - s.count) in
    let chosen : (ltb 0 s.count
          && ltb (s.count - 1) max_threads
          && get_or s.working (s.count - 1) 0 == 1)
        ≡ true =
      ground (arith, v.fits) in
    rw (last_index-pos s.count some_used, close_on, chosen)

-- The threads that are joined, in order.
abbrev pub joined : List Effect → List ℕ
joined [] = []
joined (join i ∷ es) = i ∷ joined es
joined (_ ∷ es) = joined es

-- n - 1, …, 0
abbrev pub countdown : ℕ → List ℕ
countdown zero = []
countdown (suc n) = n ∷ countdown n

joined-closing :
    (starved : Bool) (n : ℕ) (es : List Effect)
    → joined (closing starved (suc n) ++ es) ≡ n ∷ joined es
joined-closing true n es = ap (λ k. k ∷ joined es) {y = n} (omega arith)
joined-closing false n es = ap (λ k. k ∷ joined es) {y = n} (omega arith)

-- The loop on one side, for any number of threads in use below the fuel.
module _ (queues : ℕ → MessageQueue) where
  -- From a state whose first threads are in use, closing all producers ends, for every number of
  -- rounds above the count: no producer is left, each was joined once, from the last to the first,
  -- and the consumers are untouched.
  pub close_all_producers :
      (n fuel k : ℕ) (p : Pool)
      → p.producers.count ≡ n
      → n < fuel
      → IsPrefix p.producers
      → (effects : List Effect) × (side : Side) × (close_all_threads fuel (pos 1) k queues p
          ≡ some (effects, record p { producers = side }))
        × (side.count ≡ 0)
        × IsPrefix side
        × (joined effects ≡ countdown n)
  unfolding close_all_threads
  close_all_producers n zero k p e h v = absurd (omega arith)
  close_all_producers zero (suc fuel) k p e h v = ([], p.producers, ground arith, e, v, refl)
  close_all_producers (suc n) (suc fuel) k p e h v =
      let starved : Bool = p.consumers.count == 0 && (queues k).len == (queues k).max_len in
      let p' : Pool = record p { producers = shrunk p.producers } in
      let (effects, side, run, none_left, v', all) =
        close_all_producers n fuel (k + 1) p' (omega arith) (omega arith)
          (shrunk-IsPrefix p.producers v (omega arith)) in
      let more : ltb 0 p.producers.count ≡ true = ground arith in
      (
        closing starved p.producers.count ++ effects,
        side,
        rw (more, close_on-last starved p.producers v (omega arith), run),
        none_left,
        v',
        ap (λ c. joined (closing starved c ++ effects)) e
            ∙ joined-closing starved n effects
            ∙ ap (◌∷◌ n) all,
      )

  -- From a state whose first threads are in use, closing all consumers ends, for every number of
  -- rounds above the count: no consumer is left, each was joined once, from the last to the first,
  -- and the producers are untouched.
  pub close_all_consumers :
      (n fuel k : ℕ) (p : Pool)
      → p.consumers.count ≡ n
      → n < fuel
      → IsPrefix p.consumers
      → (effects : List Effect) × (side : Side) × (close_all_threads fuel (negsuc 0) k queues p
          ≡ some (effects, record p { consumers = side }))
        × (side.count ≡ 0)
        × IsPrefix side
        × (joined effects ≡ countdown n)
  unfolding close_all_threads
  close_all_consumers n zero k p e h v = absurd (omega arith)
  close_all_consumers zero (suc fuel) k p e h v = ([], p.consumers, ground arith, e, v, refl)
  close_all_consumers (suc n) (suc fuel) k p e h v =
      let starved : Bool = p.producers.count == 0 && (queues k).len == 0 in
      let p' : Pool = record p { consumers = shrunk p.consumers } in
      let (effects, side, run, none_left, v', all) =
        close_all_consumers n fuel (k + 1) p' (omega arith) (omega arith)
          (shrunk-IsPrefix p.consumers v (omega arith)) in
      let more : ltb 0 p.consumers.count ≡ true = ground arith in
      (
        closing starved p.consumers.count ++ effects,
        side,
        rw (more, close_on-last starved p.consumers v (omega arith), run),
        none_left,
        v',
        ap (λ c. joined (closing starved c ++ effects)) e
            ∙ joined-closing starved n effects
            ∙ ap (◌∷◌ n) all,
      )

pub joined-append : (es fs : List Effect) → joined (es ++ fs) ≡ joined es ++ joined fs
joined-append [] fs = refl
joined-append (join i ∷ es) fs = ap (◌∷◌ i) (joined-append es fs)
joined-append (cancel i ∷ es) fs = joined-append es fs
joined-append (sync_destroy ∷ es) fs = joined-append es fs
joined-append (free_message m ∷ es) fs = joined-append es fs

pub joined-freeing : (ms : List ℕ) → joined (map (λ m. free_message m) ms) ≡ []
joined-freeing [] = refl
joined-freeing (m ∷ ms) = joined-freeing ms

-- From a state whose first threads are in use, with fuel above both counts, the calls of
-- `cleanup_and_exit` are a join of every producer and then of every consumer, each once, and then the
-- ends of the semaphores and mutexes and of each message left in the queue.
pub cleanup_calls_lem :
    (fuel : ℕ) (queues : ℕ → MessageQueue) (queue : MessageQueue) (p : Pool)
    → IsPrefix p.producers
    → IsPrefix p.consumers
    → p.producers.count < fuel
    → p.consumers.count < fuel
    → (closed : List Effect) × (p' : Pool) × (cleanup_calls fuel queues queue p
        ≡ some (closed ++ sync_destroy ∷ map (λ m. free_message m) (queue_free queue.messages), p'))
      × (joined closed ≡ countdown p.producers.count ++ countdown p.consumers.count)
      × (p'.producers.count ≡ 0)
      × (p'.consumers.count ≡ 0)
unfolding cleanup_calls
cleanup_calls_lem fuel queues queue p vp vc fp fc =
    let (e₁, s₁, run₁, z₁, v₁, j₁) =
      close_all_producers queues p.producers.count fuel 0 p refl fp vp in
    let (e₂, s₂, run₂, z₂, v₂, j₂) =
      close_all_consumers queues p.consumers.count fuel p.producers.count
        (record p { producers = s₁ }) refl fc vc in
    (
      e₁ ++ e₂,
      record { producers = s₁; consumers = s₂ },
      rw (run₁, ◌>>=◌, run₂, ◌>>=◌, append_assoc),
      joined-append e₁ e₂ ∙ ap₂ ◌++◌ j₁ j₂,
      z₁,
      z₂,
    )
