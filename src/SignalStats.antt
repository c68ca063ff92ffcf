-- ===== src/SignalStats.antt =====
-- The children of lab3/src/parent.c: a loop that flips two flags until a timer's signal arrives, whose
-- handler counts the flags' values in `stat`. The signal may arrive between any two steps, and more
-- than once in a cycle.
pub mod Laws
pub mod Table
mod Tests
use osisp.Prelude.{
  ℕ, zero, suc, ◌+◌, ◌-◌, ◌*◌, ◌<◌, ◌≡◌, ◌≢◌, List, [], ◌∷◌, Option, none, some, replicate, get_or,
  write_at,
}
use osisp.Prelude.OptionMonad.{◌>>=◌}

-- CYCLE_ITERATIONS_COUNT
abbrev pub cycle_iterations_count : ℕ
cycle_iterations_count = 5000

pub record Data : Type 0 where
  pub a : ℕ
  pub b : ℕ

-- The globals `stat`, `data` and `contin`.
pub record Globals : Type 0 where
  pub stat : List ℕ
  pub data_flags : Data
  pub contin : ℕ

-- `x ^= 1` on a flag that is 0 or 1.
unfoldable pub flipped : ℕ → ℕ
flipped x = 1 - x

-- The handler of the timer's signal. An index outside `stat` is a fault.
unfoldable pub alarm_handler : Globals → Option Globals
alarm_handler g =
    let index = g.data_flags.a * 2 + g.data_flags.b * 1 in
    do
      stat ← write_at g.stat index (get_or g.stat index 0 + 1)
      some (record g { stat = stat; contin = 1 })

-- Where `child_process` stands.
pub data Pc : Type 0 where
  cycle : Pc  -- the test of `for`
  test : Pc  -- while (!contin)
  flip_a flip_b : Pc
  delete_timer : Pc
  finished : Pc

pub record Child : Type 0 where
  pub globals : Globals
  pub i : ℕ
  pub pc : Pc

-- The globals as a child gets them from its parent.
unfoldable pub initial : Globals
initial = record { stat = replicate 4 0; data_flags = record { a = 0; b = 0 }; contin = 0 }

abbrev pub started : Child
started = record { globals = initial; i = 0; pc = cycle }

pub data Step (c : Child) : Child → Type 0 where
  cycle_starts :
      c.pc ≡ cycle
      → c.i < cycle_iterations_count
      → Step c (record c { globals = record c.globals { contin = 0 }; pc = test })
  cycles_end : c.pc ≡ cycle → c.i ≡ cycle_iterations_count → Step c (record c { pc = finished })
  goes_on : c.pc ≡ test → c.globals.contin ≡ 0 → Step c (record c { pc = flip_a })
  flips_a :
      c.pc ≡ flip_a
      → Step c (record c {
        globals = record c.globals {
          data_flags = record c.globals.data_flags { a = flipped c.globals.data_flags.a };
        };
        pc = flip_b;
      })
  flips_b :
      c.pc ≡ flip_b
      → Step c (record c {
        globals = record c.globals {
          data_flags = record c.globals.data_flags { b = flipped c.globals.data_flags.b };
        };
        pc = test;
      })
  signalled : c.pc ≡ test → c.globals.contin ≢ 0 → Step c (record c { pc = delete_timer })
  cycle_ends : c.pc ≡ delete_timer → Step c (record c { i = c.i + 1; pc = cycle })
  alarm :
      {globals : Globals}
      → alarm_handler c.globals ≡ some globals
      → Step c (record c { globals = globals })

pub data Reach (c : Child) : Child → Type 0 where
  here : Reach c c
  later : {d e : Child} → Reach c d → Step d e → Reach c e
