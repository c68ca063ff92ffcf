-- ===== src/FileSession/Network.antt =====
-- One client of lab8/src with the bytes on their way in both directions. The client sends a command and
-- its newline by two calls of `send`, so the server's `recv` may get them apart.
use osisp.Prelude.{ℕ, ◌<◌, ◌≤◌, ◌≡◌, ◌≢◌, List, [], ◌∷◌, ◌++◌, some, true, length, take, drop}
use osisp.Prelude.Bytes.{Bytes, newline}
use osisp.FileServer.Listing.{FileSystem}
use osisp.FileServer.Client.{handle_received}
use osisp.FileClient.{Source, prompted, handle_server}
use osisp.FileClient.Laws.{stream}

-- Where the client stands: before a command, between its two calls of `send`, and in `handle_server`.
pub data Client : Type 0 where
  typing sending waiting : Client

-- The server's working directory, and the bytes that were sent and not received.
pub record State : Type 0 where
  pub cwd : Bytes
  pub to_server : Bytes
  pub to_client : Bytes
  pub client : Client

-- The most that the server's `recv` takes.
abbrev pub received_limit : ℕ
received_limit = 4095

abbrev state : Bytes → Bytes → Bytes → Client → State
state cwd to_server to_client client = record {
  cwd = cwd;
  to_server = to_server;
  to_client = to_client;
  client = client;
}

module _ (fs : FileSystem) (root : Bytes) (fuel : ℕ) where
  pub data Step (s : State) : State → Type 0 where
    sends :
        (cmd : Bytes)
        → s.client ≡ typing
        → cmd ≢ []
        → Step s (record s { to_server = s.to_server ++ cmd; client = sending })
    sends_newline :
        s.client ≡ sending
        → Step s (record s { to_server = s.to_server ++ newline ∷ []; client = waiting })
    receives :
        (n : ℕ)
        → 0 < n
        → n ≤ received_limit
        → n ≤ length s.to_server
        → (handle_received fs root s.cwd (take n s.to_server)).continues ≡ true
        → Step s (record s {
          cwd = (handle_received fs root s.cwd (take n s.to_server)).cwd;
          to_server = drop n s.to_server;
          to_client = s.to_client ++ (handle_received fs root s.cwd (take n s.to_server)).sent;
        })
    reads :
        {printed : List Bytes} {p : Bytes} {rest : Source}
        → s.client ≡ waiting
        → handle_server fuel (record { pending = s.to_client; arriving = [] })
          ≡ some (printed, prompted p rest)
        → Step s (record s { to_client = stream rest; client = typing })

  pub data Reach (s : State) : State → Type 0 where
    here : Reach s s
    later : {t u : State} → Reach s t → Step t u → Reach s u

  -- No step is left.
  abbrev pub Stuck : State → Type 0
  Stuck s = (t : State) → Step s t → ⊥
