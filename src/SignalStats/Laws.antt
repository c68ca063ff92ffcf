-- ===== src/SignalStats/Laws.antt =====
-- What the counters of lab3/src/parent.c add up to.
use osisp.Prelude.{
  ℕ, zero, suc, ◌+◌, ◌-◌, ◌*◌, ◌<◌, ◌≤◌, ◌≡◌, refl, ap, sym, ◌∙◌, arith, List, [], ◌∷◌, none, some,
  length, get_or, set, ◌==◌, if◌then◌else◌, subst, length-set, write_at-set,
}
use osisp.Prelude.OptionMonad.{◌>>=◌}
use osisp.SignalStats.{
  cycle_iterations_count, Globals, flipped, alarm_handler, Pc, cycle, test, delete_timer, finished,
  Child, initial, started, Step, cycle_starts, cycles_end, goes_on, flips_a, flips_b, signalled,
  cycle_ends, alarm, Reach, here, later,
}

unfoldable pub sum : List ℕ → ℕ
sum [] = 0
sum (x ∷ xs) = x + sum xs

sum-set : (xs : List ℕ) (i : ℕ) → i < length xs → sum (set xs i (get_or xs i 0 + 1)) ≡ sum xs + 1
unfolding sum
sum-set [] i h = absurd (omega arith)
sum-set (x ∷ xs) zero h = omega arith
sum-set (x ∷ xs) (suc i) h = omega (arith, sum-set xs i (omega arith))

-- The flags are 0 or 1, and there are four counters.
pub record IsGlobals (g : Globals) : Type 0 where
  pub a : g.data_flags.a ≤ 1
  pub b : g.data_flags.b ≤ 1
  pub counters : length g.stat ≡ 4

alarm_handler-sum :
    (g : Globals)
    → IsGlobals g
    → (g' : Globals) × (alarm_handler g ≡ some g')
      × IsGlobals g'
      × (sum g'.stat ≡ sum g.stat + 1)
      × (g'.contin ≡ 1)
unfolding alarm_handler
alarm_handler-sum g v =
    let index : ℕ = g.data_flags.a * 2 + g.data_flags.b * 1 in
    let inside : index < length g.stat = omega (arith, v.a, v.b, v.counters) in
    (
      record g { stat = set g.stat index (get_or g.stat index 0 + 1); contin = 1 },
      rw (write_at-set g.stat index (get_or g.stat index 0 + 1) inside, ◌>>=◌) refl,
      record { a = v.a; b = v.b; counters = length-set g.stat index _ ∙ v.counters },
      sum-set g.stat index inside,
      refl,
    )

-- The cycles that have had their signal, in a cycle and outside.
abbrev signals : Pc → ℕ → ℕ → ℕ
signals cycle contin i = i
signals finished contin i = i
signals delete_timer contin i = i + 1
signals _ contin i = if contin == 0 then i else i + 1

signals-le :
    (p : Pc) (contin i : ℕ) → (i ≤ signals p contin i) × (signals p 1 i ≤ signals p contin i + 1)
signals-le p contin i = go p
  where
    go : (p : Pc) → (i ≤ signals p contin i) × (signals p 1 i ≤ signals p contin i + 1)
    go cycle = (omega arith, omega arith)
    go finished = (omega arith, omega arith)
    go delete_timer = (omega arith, omega arith)
    go _ = (ground arith, ground arith)

-- The cycles that are missing at the end.
abbrev missing : Pc → ℕ → ℕ
missing finished i = cycle_iterations_count - i
missing _ i = 0

record Inv (c : Child) : Type 0 where
  valid : IsGlobals c.globals
  counted : signals c.pc c.globals.contin c.i ≤ sum c.globals.stat
  complete : missing c.pc c.i ≡ 0

Step-Inv : {c d : Child} → Step c d → Inv c → Inv d
unfolding flipped
Step-Inv {c} (cycle_starts e lt) v = record {
  valid = record { a = v.valid.a; b = v.valid.b; counters = v.valid.counters };
  counted = rw e at v.counted;
  complete = refl;
}
Step-Inv {c} (cycles_end e all) v = record {
  valid = v.valid;
  counted = rw e at v.counted;
  complete = omega arith;
}
Step-Inv {c} (goes_on e off) v = record {
  valid = v.valid;
  counted = rw e at v.counted;
  complete = refl;
}
Step-Inv {c} (flips_a e) v = record {
  valid = record { a = omega arith; b = v.valid.b; counters = v.valid.counters };
  counted = rw e at v.counted;
  complete = refl;
}
Step-Inv {c} (flips_b e) v = record {
  valid = record { a = v.valid.a; b = omega arith; counters = v.valid.counters };
  counted = rw e at v.counted;
  complete = refl;
}
Step-Inv {c} (signalled e on) v = record {
  valid = v.valid;
  counted =
      let had : signals test c.globals.contin c.i ≤ sum c.globals.stat = rw e at v.counted in
      ground (arith, had);
  complete = refl;
}
Step-Inv {c} (cycle_ends e) v = record {
  valid = v.valid;
  counted = rw e at v.counted;
  complete = refl;
}
Step-Inv {c} (alarm {globals} e) v =
    let (g', e', v', s', on) = alarm_handler-sum c.globals v.valid in
    let same : g' ≡ globals = ap (λ o. elim o [ none ↦ g' | some x ↦ x ]) (sym e' ∙ e) in
    subst (λ g. Inv (record c { globals = g })) same
      (record {
        valid = v';
        counted = rw on (omega (arith, v.counted, s', (signals-le c.pc c.globals.contin c.i).1));
        complete = v.complete;
      })

started-Inv : Inv started
unfolding initial sum
started-Inv = record {
  valid = record { a = omega arith; b = omega arith; counters = refl };
  counted = omega arith;
  complete = refl;
}

Reach-Inv : {c : Child} → Reach started c → Inv c
Reach-Inv here = started-Inv
Reach-Inv (later r st) = Step-Inv st (Reach-Inv r)

-- In every state that a child reaches, with the timer's signals at any moments: there are four
-- counters, a signal is counted in one of them without leaving the array, and they add up to at least
-- the number of cycles that were done.
pub statistics_count :
    {c : Child}
    → Reach started c
    → (length c.globals.stat ≡ 4)
      × (c.i ≤ sum c.globals.stat)
      × ((g' : Globals) × (alarm_handler c.globals ≡ some g')
          × (sum g'.stat ≡ sum c.globals.stat + 1)
          × (g'.contin ≡ 1))
statistics_count {c} r =
    let v = Reach-Inv r in
    let (g', e, _, s, on) = alarm_handler-sum c.globals v.valid in
    (
      v.valid.counters,
      omega (arith, v.counted, (signals-le c.pc c.globals.contin c.i).0),
      (g', e, s, on),
    )

-- In every order of its steps and signals: when a child is about to print its statistic, the four
-- counters add up to at least 5000.
pub statistics_complete :
    {c : Child} → Reach started c → c.pc ≡ finished → cycle_iterations_count ≤ sum c.globals.stat
statistics_complete {c} r e =
    let v = Reach-Inv r in
    let all : cycle_iterations_count - c.i ≡ 0 = rw e at v.complete in
    omega (arith, all, v.counted, (signals-le c.pc c.globals.contin c.i).0)
