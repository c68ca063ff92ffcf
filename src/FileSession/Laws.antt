-- ===== src/FileSession/Laws.antt =====
-- What a session of the client and the server of lab8/src is to show, and how the code compares with it.
use osisp.Prelude.{
  ℕ, ◌+◌, ◌<◌, ◌≡◌, ◌≢◌, refl, ap, ◌∙◌, arith, List, [], ◌∷◌, ◌++◌, Option, none, some, true,
  length, length-append,
}
use osisp.Prelude.Bytes.{Bytes, newline}
use osisp.FileServer.Listing.{FileSystem, sent_line}
use osisp.FileServer.Listing.Laws.{Resolves}
use osisp.FileServer.Client.{
  Reply, Word, echo, cd, quit, info, list, unknown, hello, bye, greeting, word_of, respond,
  handle_received,
}
use osisp.FileServer.Client.Laws.{
  IsCommand, reply_lines, cwd_after, answer, respond-answer, handle_received-command,
}
use osisp.FileClient.{Source, buf_size, is_prompt, handle_server}
use osisp.FileClient.Laws.{arrived, stream, IsLine, one_line, one_line-IsLine}
use osisp.FileClient.Replies.{ArePlain, IsPrompt, handle_server-Answers, handle_server-exited}
use osisp.FileSession.{
  send_cmd, typed_commands, Exchange, Outcome, input_ended, left, Transcript, on_reply, run_session,
  client_main,
}

-- The connection delivers the bytes in their order.
abbrev pub Delivers : (Bytes → List Bytes) → Type 0
Delivers pieces = (b : Bytes) → arrived (pieces b) ≡ b

is_prompt-at_end : (cwd : Bytes) → is_prompt (cwd ++ b'>' ∷ []) ≡ true
unfolding is_prompt
is_prompt-at_end [] = refl
is_prompt-at_end (c ∷ []) = refl
is_prompt-at_end (c ∷ d ∷ cwd) = is_prompt-at_end (d ∷ cwd)

IsLine-append : (cwd : Bytes) → IsLine cwd → IsLine (cwd ++ b'>' ∷ [])
unfolding IsLine
IsLine-append [] h = (omega arith, tt)
IsLine-append (c ∷ cwd) h = (h.0, IsLine-append cwd h.1)

-- A working directory whose prompt fits the client's buffer.
pub record IsCwd (cwd : Bytes) : Type 0 where
  pub one_line : IsLine cwd
  pub short : length cwd + 1 < buf_size

pub IsCwd-IsPrompt : (cwd : Bytes) → IsCwd cwd → IsPrompt (cwd ++ b'>' ∷ [])
IsCwd-IsPrompt cwd h = record {
  one_line = IsLine-append cwd h.one_line;
  short = omega (arith, length-append cwd (b'>' ∷ []), h.short);
  at_end = is_prompt-at_end cwd;
}

module _ (fs : FileSystem) (root : Bytes) where
  -- What a session is to show.
  abbrev pub shown_after : Bytes → Word → Exchange
  shown_after cwd w = record {
    printed = reply_lines fs root cwd w;
    prompt = some (cwd_after fs root cwd w ++ b'>' ∷ []);
  }

  abbrev pub bye_shown : Exchange
  bye_shown = record { printed = bye ∷ []; prompt = none }

  abbrev after_word : Bytes → Word → (Bytes → Transcript) → Transcript
  after_word cwd quit next = (bye_shown ∷ [], left)
  after_word cwd w next =
      let (es, outcome) = next (cwd_after fs root cwd w) in (shown_after cwd w ∷ es, outcome)

  unfoldable pub promised : Bytes → List Bytes → Transcript
  promised cwd [] = ([], input_ended)
  promised cwd (cmd ∷ cmds) = after_word cwd (word_of cmd) (λ cwd'. promised cwd' cmds)

  -- The reply to a word is one that the client can tell from a prompt, and its prompt fits.
  abbrev pub Fits : ℕ → Bytes → Word → Type 0
  Fits fuel cwd w =
      ArePlain (reply_lines fs root cwd w)
      × IsCwd (cwd_after fs root cwd w)
      × (length (reply_lines fs root cwd w) < fuel)

  -- Every command is one word or more, and its reply fits; up to QUIT.
  abbrev pub InStepWord : ℕ → Bytes → Word → (Bytes → Type 0) → Type 0
  InStepWord fuel cwd quit next = 0 < fuel
  InStepWord fuel cwd w next = Fits fuel cwd w × next (cwd_after fs root cwd w)

  unfoldable pub InStep : ℕ → Bytes → List Bytes → Type 0
  InStep fuel cwd [] = Unit
  InStep fuel cwd (cmd ∷ cmds) =
      IsCommand cmd × InStepWord fuel cwd (word_of cmd) (λ cwd'. InStep fuel cwd' cmds)

nothing_pending : (s : Source) → stream s ≡ [] → s.pending ≡ []
unfolding stream
nothing_pending s e = go s.pending e
  where
    go : (pending : Bytes) → pending ++ arrived s.arriving ≡ [] → pending ≡ []
    go [] e = refl
    go (c ∷ pending) e = absurd (omega (arith, ap length e))

module _ (fs : FileSystem) (root : Bytes) (pieces : Bytes → List Bytes) (resolves : Resolves fs)
    (delivers : Delivers pieces) (fuel : ℕ) where
  -- After a reply with a prompt the client goes on with nothing pending.
  answered :
      (cwd : Bytes) (w : Word) (reply : Reply) (next : Bytes → Bytes → Option Transcript)
      (es : List Exchange) (outcome : Outcome)
      → w ≢ quit
      → reply ≡ respond fs root cwd w
      → Fits fs root fuel cwd w
      → next (cwd_after fs root cwd w) [] ≡ some (es, outcome)
      → on_reply
          (λ pending'. next reply.cwd pending')
          (handle_server fuel (record { pending = []; arriving = pieces reply.sent }))
        ≡ some (shown_after fs root cwd w ∷ es, outcome)
  answered cwd w reply next es outcome no_quit e fits rest =
      let a : Reply = answer fs root cwd w in
      let same : reply ≡ a = e ∙ respond-answer fs root resolves cwd w no_quit in
      let s : Source = record { pending = []; arriving = pieces a.sent } in
      let whole : stream s ≡ a.sent = unfold stream in delivers a.sent in
      let (s', served, left_over) =
        handle_server-Answers fuel (reply_lines fs root cwd w)
          (cwd_after fs root cwd w ++ b'>' ∷ []) [] s fits.2 fits.0
          (IsCwd-IsPrompt (cwd_after fs root cwd w) fits.1) whole in
      rw (same, served, nothing_pending s' left_over, rest) refl

  after_reply :
      (cwd : Bytes) (w : Word) (reply : Reply) (next : Bytes → Bytes → Option Transcript)
      (spec : Bytes → Transcript) (P : Bytes → Type 0)
      → reply ≡ respond fs root cwd w
      → InStepWord fs root fuel cwd w P
      → ((cwd' : Bytes) → P cwd' → next cwd' [] ≡ some (spec cwd'))
      → on_reply
          (λ pending'. next reply.cwd pending')
          (handle_server fuel (record { pending = []; arriving = pieces reply.sent }))
        ≡ some (after_word fs root cwd w spec)
  unfolding respond
  after_reply cwd quit reply next spec P e enough go_on =
      let s : Source = record { pending = []; arriving = pieces (sent_line bye) } in
      let whole : stream s ≡ sent_line bye = unfold stream in delivers (sent_line bye) in
      rw (e, handle_server-exited fuel [] s enough whole) refl
  after_reply cwd (echo text) reply next spec P e (fits, rest) go_on =
      answered cwd (echo text) reply next (spec (cwd_after fs root cwd (echo text))).0
        (spec (cwd_after fs root cwd (echo text))).1 (λ same. cc same) e fits
        (go_on (cwd_after fs root cwd (echo text)) rest)
  after_reply cwd info reply next spec P e (fits, rest) go_on =
      answered cwd info reply next (spec (cwd_after fs root cwd info)).0
        (spec (cwd_after fs root cwd info)).1 (λ same. cc same) e fits
        (go_on (cwd_after fs root cwd info) rest)
  after_reply cwd (cd target) reply next spec P e (fits, rest) go_on =
      answered cwd (cd target) reply next (spec (cwd_after fs root cwd (cd target))).0
        (spec (cwd_after fs root cwd (cd target))).1 (λ same. cc same) e fits
        (go_on (cwd_after fs root cwd (cd target)) rest)
  after_reply cwd list reply next spec P e (fits, rest) go_on =
      answered cwd list reply next (spec (cwd_after fs root cwd list)).0
        (spec (cwd_after fs root cwd list)).1 (λ same. cc same) e fits
        (go_on (cwd_after fs root cwd list) rest)
  after_reply cwd unknown reply next spec P e (fits, rest) go_on =
      answered cwd unknown reply next (spec (cwd_after fs root cwd unknown)).0
        (spec (cwd_after fs root cwd unknown)).1 (λ same. cc same) e fits
        (go_on (cwd_after fs root cwd unknown) rest)

  run_session-promised :
      (cwd : Bytes) (cmds : List Bytes)
      → InStep fs root fuel cwd cmds
      → run_session fs root pieces fuel cwd [] cmds ≡ some (promised fs root cwd cmds)
  unfolding run_session InStep promised send_cmd
  run_session-promised cwd [] h = refl
  run_session-promised cwd (cmd ∷ cmds) h =
      after_reply cwd (word_of cmd) (handle_received fs root cwd (cmd ++ newline ∷ []))
        (λ cwd' pending'. run_session fs root pieces fuel cwd' pending' cmds)
        (λ cwd'. promised fs root cwd' cmds) (λ cwd'. InStep fs root fuel cwd' cmds)
        (handle_received-command fs root cwd cmd [] h.0) h.1
        (λ cwd' h'. run_session-promised cwd' cmds h')

  -- `hello` is a plain line, and the first prompt fits.
  greeting-Fits : 1 < fuel → Fits fs root fuel [] info
  unfolding ArePlain IsLine one_line reply_lines cwd_after is_prompt
  greeting-Fits enough = (
    (
      record {
        one_line = one_line-IsLine hello refl;
        short = omega arith;
        no_prompt = refl;
        no_bye = refl;
      },
      tt,
    ),
    record { one_line = tt; short = omega arith },
    enough,
  )

  -- Over a connection that delivers the bytes in order, cut in any way, and with a `realpath` that
  -- follows every link: when each command up to QUIT is trimmed, not blank and without a newline or NUL,
  -- the server receives each command whole, and every reply fits (prompts and lines of fewer than 4096
  -- bytes, no line that is BYE or ends in >, fewer lines than fuel, which is above 1), the client shows the greeting and then exactly the lines and prompts that
  -- its commands, typed or out of scripts, promise.
  pub client_main-promised :
      (open_file : Bytes → Option (List Bytes)) (typed : List Bytes)
      → 1 < fuel
      → InStep fs root fuel [] (typed_commands open_file typed)
      → client_main fs root pieces fuel open_file typed
        ≡ some (
          shown_after fs root [] info ∷ (promised fs root [] (typed_commands open_file typed)).0,
          (promised fs root [] (typed_commands open_file typed)).1,
        )
  unfolding client_main respond cwd_after promised
  client_main-promised open_file typed enough h =
      let cmds : List Bytes = typed_commands open_file typed in
      answered [] info (record { cwd = []; sent = greeting; continues = true })
        (λ cwd pending. run_session fs root pieces fuel cwd pending cmds)
        (promised fs root [] cmds).0 (promised fs root [] cmds).1 (λ same. cc same) refl
        (greeting-Fits enough) (run_session-promised [] cmds h)
