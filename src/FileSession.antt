-- ===== src/FileSession.antt =====
-- A session of the client and the server of lab8/src: the client's loop over the commands that it sends,
-- with the server's thread behind the connection. The connection is a parameter: it cuts what the
-- server sends into the pieces that `recv` returns.
pub mod Laws
pub mod Network
mod Tests
use osisp.Prelude.{ℕ, zero, suc, List, [], ◌∷◌, ◌++◌, Option, none, some, ◌==◌, if◌then◌else◌}
use osisp.Prelude.Bytes.{Bytes, newline}
use osisp.FileServer.Listing.{FileSystem, sent_line}
use osisp.FileServer.Client.{Reply, greeting, handle_received}
use osisp.FileClient.{Source, Ending, prompted, exited, lost, broken, handle_server}

-- A line of `fgets` without its newline.
unfoldable pub up_to_newline : Bytes → Bytes
up_to_newline [] = []
up_to_newline (c ∷ l) = if c == newline then [] else c ∷ up_to_newline l

abbrev pub unless_blank : Bytes → List Bytes → List Bytes
unless_blank [] cmds = cmds
unless_blank (c ∷ l) cmds = (c ∷ l) ∷ cmds

-- The lines of a script that are sent.
unfoldable pub script_commands : List Bytes → List Bytes
unfolding up_to_newline
script_commands [] = []
script_commands (l ∷ ls) = unless_blank (up_to_newline l) (script_commands ls)

abbrev pub opened : Option (List Bytes) → List Bytes
opened none = []
opened (some ls) = script_commands ls

-- What a typed line sends: a script's lines behind `@`, or itself.
unfoldable pub line_commands : (Bytes → Option (List Bytes)) → Bytes → List Bytes
unfolding script_commands
line_commands open_file [] = []
line_commands open_file (c ∷ l) = if c == b'@' then opened (open_file l) else (c ∷ l) ∷ []

-- The commands of `main`, in the order in which they are sent.
unfoldable pub typed_commands : (Bytes → Option (List Bytes)) → List Bytes → List Bytes
unfolding line_commands
typed_commands open_file [] = []
typed_commands open_file (l ∷ ls) =
    line_commands open_file (up_to_newline l) ++ typed_commands open_file ls

-- `send_cmd`
unfoldable pub send_cmd : Bytes → Bytes
send_cmd cmd = cmd ++ newline ∷ []

-- What the client prints after a command, and the prompt that it then shows.
pub record Exchange : Type 0 where
  pub printed : List Bytes
  pub prompt : Option Bytes

-- How a session ends: the input ended, the client left at `BYE`, `recv` brought no prompt, or a line was
-- stored outside `out`. What the client does after such an end is left open.
pub data Outcome : Type 0 where
  input_ended left unanswered overrun : Outcome

abbrev pub Transcript : Type 0
Transcript = List Exchange × Outcome

abbrev pub then_rest : Exchange → Option Transcript → Option Transcript
then_rest e none = none
then_rest e (some (es, outcome)) = some (e ∷ es, outcome)

abbrev pub on_reply : (Bytes → Option Transcript) → Option (List Bytes × Ending) → Option Transcript
on_reply next none = none
on_reply next (some (printed, prompted p s)) =
    then_rest (record { printed = printed; prompt = some p }) (next s.pending)
on_reply next (some (printed, exited)) =
    some (record { printed = printed; prompt = none } ∷ [], left)
on_reply next (some (printed, lost)) =
    some (record { printed = printed; prompt = none } ∷ [], unanswered)
on_reply next (some (printed, broken)) =
    some (record { printed = printed; prompt = none } ∷ [], overrun)

module _ (fs : FileSystem) (root : Bytes) (pieces : Bytes → List Bytes) where
  -- The commands, each received whole by the server and answered before the next is sent. `cwd` is
  -- the server's, `pending` what the client has received and not read.
  unfoldable pub run_session : ℕ → Bytes → Bytes → List Bytes → Option Transcript
  unfolding send_cmd
  run_session fuel cwd pending [] = some ([], input_ended)
  run_session fuel cwd pending (cmd ∷ cmds) =
      let reply : Reply = handle_received fs root cwd (send_cmd cmd) in
      on_reply (λ pending'. run_session fuel reply.cwd pending' cmds)
        (handle_server fuel (record { pending = pending; arriving = pieces reply.sent }))

  -- `main` of the client, from the connection on.
  unfoldable pub client_main : ℕ → (Bytes → Option (List Bytes)) → List Bytes → Option Transcript
  unfolding run_session typed_commands
  client_main fuel open_file typed =
      on_reply (λ pending. run_session fuel [] pending (typed_commands open_file typed))
        (handle_server fuel (record { pending = []; arriving = pieces greeting }))
