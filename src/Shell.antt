-- ===== src/Shell.antt =====
-- internal/utils/shell/shell.go: what `Run` and `Stream` make of the run of a command, and
-- `tailBuffer`, which keeps the end of what a command writes to stderr.
pub mod Tail
pub mod Lines
use cisco_socks_server.Prelude.{
  ℕ, ◌-◌, Bool, true, false, not, List, [], ◌∷◌, ◌++◌, Option, none, some, Bytes, length, drop, ltb,
  if◌then◌else◌, ◌==◌,
}
use cisco_socks_server.Strings.{split, trim_space}

-- What a command leaves, as `Run` returns it: its output, and whether it failed.
pub record Ran : Type 0 where
  pub output : Bytes
  pub failed : Bool

-- `tailSize`
abbrev pub tail_size : ℕ
tail_size = 1024

-- `tailBuffer.Write`, on the buffer.
unfoldable pub write : Bytes → Bytes → Bytes
write buf p =
    let all = buf ++ p in
    if ltb 0 (length all - tail_size) then drop (length all - tail_size) all else all

-- The buffer after several writes.
unfoldable pub write_all : Bytes → List Bytes → Bytes
write_all buf [] = buf
write_all buf (p ∷ ps) = write_all (write buf p) ps

-- `bufio.MaxScanTokenSize`: a line of this length stops the scanner.
abbrev pub max_line : ℕ
max_line = 65_536

-- A line without the carriage return at its end.
unfoldable pub drop_cr : Bytes → Bytes
drop_cr [] = []
drop_cr (c ∷ []) = if c == 13 then [] else c ∷ []
drop_cr (c ∷ d ∷ s) = c ∷ drop_cr (d ∷ s)

-- The lines that a `bufio.Scanner` yields of the parts between newlines: nothing behind the last
-- newline is no line, and a line that is too long is the end.
unfoldable pub scan_parts : List Bytes → List Bytes
unfolding drop_cr
scan_parts [] = []
scan_parts ([] ∷ []) = []
scan_parts (p ∷ ps) =
    let rest = scan_parts ps in if ltb (length p) max_line then drop_cr p ∷ rest else []

unfoldable pub scan_lines : Bytes → List Bytes
scan_lines output = scan_parts (split output b'\n')

-- How a command runs that `Stream` starts: whether there is a pipe and the start succeeds, what it
-- writes to stdout, its writes to stderr, and whether it fails.
pub record Process : Type 0 where
  pub starts : Bool
  pub stdout : Bytes
  pub stderr : List Bytes
  pub fails : Bool

-- The errors of `Stream`; the second has the text that is attached to it.
pub data StreamError : Type 0 where
  not_started : StreamError
  exited : Bytes → StreamError

-- The calls of `onLine`, on a state that they change.
unfoldable pub each_line {ℓ} : {S : Type ℓ} → (Bytes → S → S) → List Bytes → S → S
each_line on_line [] s = s
each_line on_line (line ∷ lines) s = each_line on_line lines (on_line line s)

-- `Stream`
unfoldable pub stream {ℓ} : {S : Type ℓ} → (Bytes → S → S) → Process → S → S × Option StreamError
stream on_line p s = if not p.starts then (s, some not_started) else (
  each_line on_line (scan_lines p.stdout) s,
  if p.fails then some (exited (trim_space (write_all [] p.stderr))) else none,
)
