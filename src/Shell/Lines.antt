-- ===== src/Shell/Lines.antt =====
-- The lines that `Stream` hands on, and the error that it returns.
use cisco_socks_server.Prelude.{
  ◌<◌, true, List, [], ◌∷◌, ◌++◌, none, some, Bytes, length, if◌then◌else◌, ◌≡◌, refl, ap, ◌∙◌,
  arith, All,
}
use cisco_socks_server.Strings.{split, split-append, split-join, join, trim_space, Lacks}
use cisco_socks_server.Shell.{
  Process, exited, tail_size, max_line, drop_cr, scan_parts, scan_lines, each_line, stream,
}
use cisco_socks_server.Shell.Tail.{joined, last_bytes, write_all-tail}

-- A line as a command prints it: of a length that the scanner takes, with no newline in it and no
-- carriage return at its end.
abbrev pub IsLine : Bytes → Type 0
IsLine line = Lacks b'\n' line × (length line < max_line) × (drop_cr line ≡ line)

-- The lines, each with a newline.
abbrev pub unlines : List Bytes → Bytes
unlines [] = []
unlines (line ∷ lines) = line ++ (b'\n' ∷ unlines lines)

scan_parts-cons :
    (line p : Bytes) (ps : List Bytes)
    → length line < max_line
    → drop_cr line ≡ line
    → scan_parts (line ∷ p ∷ ps) ≡ line ∷ scan_parts (p ∷ ps)
unfolding scan_parts
scan_parts-cons [] p ps h e = ground (arith, e)
scan_parts-cons (c ∷ s) p ps h e = ground (arith, e)

split-line :
    (line s : Bytes) → Lacks b'\n' line → split (line ++ (b'\n' ∷ s)) b'\n' ≡ line ∷ split s b'\n'
unfolding join
split-line line s clean =
    split-append line s b'\n'
    ∙ ap (λ ls. ls ++ split s b'\n') (split-join line [] b'\n' (clean, tt))

-- Lines that are printed one after the other are handed on one after the other.
pub scan_lines-unlines :
    (lines : List Bytes) → All IsLine lines → scan_lines (unlines lines) ≡ lines
unfolding scan_lines
scan_lines-unlines [] h = unfold scan_parts split in refl
scan_lines-unlines (line ∷ lines) ((clean, short, whole), h) =
    rw (split-line line (unlines lines) clean)
      (unfold split in scan_parts-cons line _ _ short whole)
    ∙ ap (λ ls. line ∷ ls) (scan_lines-unlines lines h)

-- A command that prints such lines has each of them handed on, in order; when it fails, the error
-- carries the last 1024 bytes that it wrote to stderr, without the white space at the ends.
pub stream-lines {ℓ} :
    {S : Type ℓ} (on_line : Bytes → S → S) (p : Process) (lines : List Bytes) (s : S)
    → p.starts ≡ true
    → p.stdout ≡ unlines lines
    → All IsLine lines
    → stream on_line p s ≡ (
      each_line on_line lines s,
      if p.fails then some (exited (trim_space (last_bytes tail_size (joined p.stderr)))) else none,
    )
unfolding stream
stream-lines on_line p lines s started printed h =
    rw (started, printed, scan_lines-unlines lines h, write_all-tail p.stderr)
