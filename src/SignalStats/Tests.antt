-- ===== src/SignalStats/Tests.antt =====
-- A run of a child of lab3/src/parent.c, and of its parent's commands.
use osisp.Prelude.{ℕ, zero, suc, ◌+◌, ◌≤◌, ◌≡◌, refl, arith, [], ◌∷◌, some}
use osisp.SignalStats.{
  cycle_iterations_count, Globals, cycle, finished, Child, initial, started, cycle_starts,
  cycles_end, goes_on, flips_a, signalled, cycle_ends, alarm, Reach, here, later,
}
use osisp.SignalStats.Laws.{sum, statistics_count, statistics_complete}
use osisp.SignalStats.Table
use osisp.SignalStats.Table.{
  Table, Effect, kill, printed, sigkill, sigusr2, Command, plus, minus, list, silence, quit, main,
}
use osisp.SignalStats.Table.Laws.{IsTable, stack_of, promised, main-promised}

-- A signal between the two flips of the first cycle.
abbrev between_flips : (c : Child) × Reach started c
unfolding initial
between_flips = (
  _,
  later (later (later here (cycle_starts refl (omega arith))) (goes_on refl refl)) (flips_a refl),
)

-- A child after `n` cycles, each with one signal before the flags are flipped.
after_cycles :
    (n : ℕ)
    → n ≤ cycle_iterations_count
    → (g : Globals) × Reach started (record { globals = g; i = n; pc = cycle })
after_cycles zero h = (initial, here)
after_cycles (suc n) h =
    let (g, r) = after_cycles n (omega arith) in
    let in_cycle = later r (cycle_starts refl (omega arith)) in
    let (_, _, (g', e, _, on)) = statistics_count in_cycle in
    let e' : n + 1 ≡ suc n = omega arith in
    (
      g',
      rw e' at (
          later (later (later in_cycle (alarm e)) (signalled refl (omega (arith, on))))
            (cycle_ends refl)),
    )

abbrev ended : (c : Child) × Reach started c
ended =
    let (g, r) = after_cycles 5000 (omega arith) in
    (record { globals = g; i = 5000; pc = finished }, later r (cycles_end refl refl))

statistics_complete_example : 5000 ≤ sum ended.0.globals.stat
statistics_complete_example = statistics_complete ended.1 refl

initial-IsTable : IsTable Table.initial
unfolding Table.initial
initial-IsTable = record { slots = refl; fits = omega arith }

main-promised_example :
    main
      (plus (some 7) ∷ plus (some 8) ∷ minus ∷ plus (some 9) ∷ silence ∷ list ∷ quit ∷ [])
      Table.initial
    ≡ promised
        (plus (some 7) ∷ plus (some 8) ∷ minus ∷ plus (some 9) ∷ silence ∷ list ∷ quit ∷ [])
        []
unfolding Table.initial stack_of
main-promised_example =
    main-promised
      (plus (some 7) ∷ plus (some 8) ∷ minus ∷ plus (some 9) ∷ silence ∷ list ∷ quit ∷ [])
      Table.initial initial-IsTable

run-stack :
    main
      (plus (some 7) ∷ plus (some 8) ∷ minus ∷ plus (some 9) ∷ silence ∷ list ∷ quit ∷ [])
      Table.initial
    ≡ some (
        kill 8 sigkill
        ∷ kill 7 sigusr2
        ∷ kill 9 sigusr2
        ∷ printed 7
        ∷ printed 9
        ∷ kill 9 sigkill
        ∷ kill 7 sigkill
        ∷ [])
unfolding Table.initial Table.create_child Table.kill_last_process Table.kill_loop
    Table.kill_all_processes Table.for_all Table.show_all_processes Table.allow_stdout_for_all
    Table.run_command main
run-stack = refl
