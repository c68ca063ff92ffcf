-- ===== src/FileClient/Tests.antt =====
-- Tests of lab8/src/client.c.
use osisp.Prelude.{◌≡◌, refl, arith, [], ◌∷◌, ◌++◌, replicate, some}
use osisp.Prelude.Bytes.{Bytes, newline, unlines}
use osisp.FileClient.{
  Source, read_from, read_buffer, is_prompt, overflow, exited, read_line, handle_server, bye_line,
}
use osisp.FileClient.Laws.{stream, Reads, one_line, arrived, one_line-IsLine, read_line-Reads}
use osisp.FileClient.Overflow.{read_line-overflow}
use osisp.FileClient.Replies.{ArePlain, Answers, handle_server-Answers}

-- `ab` and its newline in three pieces, and the start of another line.
abbrev in_pieces : Source
in_pieces = record { pending = b'a' ∷ []; arriving = (b'b' ∷ []) ∷ (newline ∷ b'c' ∷ []) ∷ [] }

read_line-Reads_example : Reads (read_line in_pieces) (b'a' ∷ b'b' ∷ []) (b'c' ∷ [])
unfolding stream one_line arrived
read_line-Reads_example =
    read_line-Reads in_pieces (b'a' ∷ b'b' ∷ []) (b'c' ∷ [])
      (one_line-IsLine (b'a' ∷ b'b' ∷ []) refl) (omega arith) refl

-- `f`, and a prompt, in two pieces.
abbrev listing : Source
listing = record {
  pending = [];
  arriving = (b'f' ∷ newline ∷ b'd' ∷ []) ∷ (b'>' ∷ newline ∷ []) ∷ [];
}

handle_server-Answers_example :
    Answers (handle_server 2 listing) ((b'f' ∷ []) ∷ []) (b'd' ∷ b'>' ∷ []) []
unfolding stream one_line arrived ArePlain is_prompt unlines
handle_server-Answers_example =
    handle_server-Answers 2 ((b'f' ∷ []) ∷ []) (b'd' ∷ b'>' ∷ []) [] listing (omega arith)
      (
        record {
          one_line = one_line-IsLine (b'f' ∷ []) refl;
          short = omega arith;
          no_prompt = refl;
          no_bye = refl;
        },
        tt,
      )
      (record {
        one_line = one_line-IsLine (b'd' ∷ b'>' ∷ []) refl;
        short = omega arith;
        at_end = refl;
      })
      refl

-- 4096 bytes.
abbrev long_line : Bytes
long_line = replicate 4096 b'x'

read_line-overflow_example :
    read_line (record { pending = long_line ++ newline ∷ []; arriving = [] }) ≡ overflow
unfolding stream one_line arrived
read_line-overflow_example =
    read_line-overflow (record { pending = long_line ++ newline ∷ []; arriving = [] }) long_line []
      (one_line-IsLine long_line refl) (omega arith) refl

handle_server_bye :
    handle_server 1 (record { pending = bye_line ++ newline ∷ []; arriving = [] })
    ≡ some (bye_line ∷ [], exited)
unfolding handle_server read_line read_from read_buffer is_prompt
handle_server_bye = refl
