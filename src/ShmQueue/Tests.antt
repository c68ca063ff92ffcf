-- ===== src/ShmQueue/Tests.antt =====
-- Runs of the lab4 model at concrete inputs, and the theorems at inputs that meet their hypotheses.
use osisp.Prelude.{◌+◌, ◌*◌, ◌≡◌, refl, arith, List, [], ◌∷◌, none, some, replicate}
use osisp.Prelude.Int.{pos}
use osisp.Fifo
use osisp.Fifo.{Op, put, get}
use osisp.ShmQueue.Message.{Message, zero_message, calculate_hash, generate_message}
use osisp.ShmQueue.Message.Hash.{IsMessage, generate_message_lem, replicate-AllBytes}
use osisp.ShmQueue.Ring.{MessageQueue, queue_size, Init, queue_init, enqueue, dequeue}
use osisp.ShmQueue.Ring.Inv.{IsValid}
use osisp.ShmQueue.Ring.Refine.{contents, read, run, run_refines, dequeue-enqueue_overwrites}
use osisp.ShmQueue.System.{consumer_process, producer_process}
use osisp.ShmQueue.Processes.{Table, fork_error, goes_on, kill_process, run_command}
use osisp.ShmQueue.Processes.Laws.{IsValid as IsTable}

-- What `queue_init` returns.
abbrev pub fresh : MessageQueue
fresh = record {
  buffer = replicate queue_size zero_message;
  head = 0;
  tail = 0;
  count = 0;
  added_count = 0;
  removed_count = 0;
  free_space = 10;
}

pub fresh-IsValid : IsValid fresh
fresh-IsValid = omega arith

abbrev small : Message
small = record { type = 7; hash = 12; size = 2; bytes = 2 ∷ 3 ∷ replicate 254 0 }

small-IsMessage : IsMessage small
small-IsMessage = record {
  type_byte = omega arith;
  size_byte = omega arith;
  full_length = refl;
  all_bytes = (omega arith, (omega arith, replicate-AllBytes 254));
}

queue_init-fresh : queue_init (some 3) (some fresh) ≡ Init.initialised 3 fresh
unfolding queue_init
queue_init-fresh = refl

calculate_hash-small : calculate_hash small ≡ 12
unfolding calculate_hash
calculate_hash-small = refl

generate_message_lem_example :
    let m = generate_message (λ k. k * 300 + 5) 0 small in IsMessage m × (calculate_hash m ≡ m.hash)
generate_message_lem_example = generate_message_lem (λ k. k * 300 + 5) 0 small small-IsMessage

abbrev script : List (Op Message)
script = put small ∷ get ∷ get ∷ put small ∷ []

run_refines_example : run fresh script ≡ Fifo.run queue_size (contents fresh) script
run_refines_example = run_refines script fresh fresh-IsValid

run-script : run fresh script ≡ some small ∷ none ∷ []
unfolding run enqueue dequeue
run-script = refl

-- Ten messages: the next one is refused.
abbrev full : MessageQueue
full = record {
  buffer = replicate queue_size small;
  head = 4;
  tail = 4;
  count = 10;
  added_count = 14;
  removed_count = 4;
  free_space = 0;
}

full-IsValid : IsValid full
full-IsValid = omega arith

dequeue-enqueue_overwrites_example :
    let (out, q') = dequeue full in read (enqueue q' zero_message) out ≡ some zero_message
dequeue-enqueue_overwrites_example =
    dequeue-enqueue_overwrites full zero_message full-IsValid (omega arith)

-- Three children.
abbrev table : Table
table = record {
  processes = 31 ∷ 32 ∷ 33 ∷ replicate 97 0;
  types = consumer_process ∷ producer_process ∷ consumer_process ∷ replicate 97 consumer_process;
  processes_count = 3;
}

table-IsValid : IsTable table
table-IsValid = record { slots = refl; type_slots = refl; fits = omega arith }

run_command_kill :
    run_command fork_error none (b'k' ∷ b'1' ∷ []) table
    ≡ (let (effects, t') = kill_process (pos 1) table in goes_on effects t')
unfolding run_command
run_command_kill = refl
