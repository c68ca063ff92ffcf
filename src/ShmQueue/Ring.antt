-- ===== src/ShmQueue/Ring.antt =====
-- The message queue of lab4/src/ring_buffer.h and lab4/src/ring_buffer.c.
-- A `message *` into the buffer is the index of its slot.
pub mod Inv
pub mod Refine
use osisp.Prelude.{
  ℕ, ◌+◌, ◌-◌, ◌%◌, List, Option, none, some, ◌==◌, if◌then◌else◌, get_or, set, replicate,
}
use osisp.ShmQueue.Message.{Message, zero_message}

abbrev pub queue_size : ℕ
queue_size = 10

pub record MessageQueue : Type 0 where
  pub buffer : List Message
  pub head : ℕ
  pub tail : ℕ
  pub count : ℕ
  pub added_count : ℕ
  pub removed_count : ℕ
  pub free_space : ℕ

-- `exit(EXIT_FAILURE)` with the failed call, or the queue.
pub data Init : Type 0 where
  shmget_error shmat_error : Init
  initialised : ℕ → MessageQueue → Init

-- The arguments are what `shmget` and `shmat` return (`none` for -1); the segment may hold the
-- queue of an earlier run.
unfoldable pub queue_init : Option ℕ → Option MessageQueue → Init
queue_init none segment = Init.shmget_error
queue_init (some shm_id) none = Init.shmat_error
queue_init (some shm_id) (some q) = Init.initialised shm_id (record {
  buffer = replicate queue_size zero_message;
  head = 0;
  tail = 0;
  count = 0;
  added_count = 0;
  removed_count = 0;
  free_space = queue_size;
})

unfoldable pub enqueue : MessageQueue → Message → MessageQueue
enqueue q msg = if q.free_space == 0 then q else record q {
  buffer = set q.buffer q.tail msg;
  tail = (q.tail + 1) % queue_size;
  count = q.count + 1;
  added_count = q.added_count + 1;
  free_space = q.free_space - 1;
}

-- `none` is NULL. The message is not copied: the caller holds an index into the buffer.
unfoldable pub dequeue : MessageQueue → Option ℕ × MessageQueue
dequeue q = if q.count == 0 then (none, q) else (
  some q.head,
  record q {
    head = (q.head + 1) % queue_size;
    count = q.count - 1;
    removed_count = q.removed_count + 1;
    free_space = q.free_space + 1;
  },
)

-- What a `message *` reads.
abbrev pub read_slot : MessageQueue → ℕ → Message
read_slot q i = get_or q.buffer i zero_message
