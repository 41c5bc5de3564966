-- ===== src/Shell/Tail.antt =====
-- The buffer is the end of all that was written.
use cisco_socks_server.Prelude.{
  ℕ, ◌-◌, List, [], ◌∷◌, ◌++◌, append_assoc, append-nil, Bytes, length, drop, ◌≡◌, ap, sym, ◌∙◌,
  arith, length-append, length-drop, drop-drop, drop-append,
}
use cisco_socks_server.Shell.{tail_size, write, write_all}

-- All the writes, one behind the other.
abbrev pub joined : List Bytes → Bytes
joined [] = []
joined (p ∷ ps) = p ++ joined ps

-- The last bytes of a text.
abbrev pub last_bytes : ℕ → Bytes → Bytes
last_bytes n s = drop (length s - n) s

write_lem : (buf p : Bytes) → write buf p ≡ last_bytes tail_size (buf ++ p)
unfolding write
write_lem buf p = ground arith

last_bytes-append :
    (n : ℕ) (s p : Bytes) → last_bytes n (last_bytes n s ++ p) ≡ last_bytes n (s ++ p)
last_bytes-append n s p =
    ap (last_bytes n) (sym (drop-append (length s - n) s p (omega arith)))
    ∙ drop-drop _ (length s - n) (s ++ p)
    ∙ ap (λ k. drop k (s ++ p))
        (omega (arith, length-drop (length s - n) (s ++ p), length-append s p))

writes_lem :
    (ps : List Bytes) (s : Bytes)
    → write_all (last_bytes tail_size s) ps ≡ last_bytes tail_size (s ++ joined ps)
unfolding write_all
writes_lem [] s = rw (append-nil s)
writes_lem (p ∷ ps) s =
    ap (λ b. write_all b ps)
      (write_lem (last_bytes tail_size s) p ∙ last_bytes-append tail_size s p)
    ∙ writes_lem ps (s ++ p)
    ∙ ap (last_bytes tail_size) (append_assoc s p (joined ps))

-- However the output is cut into writes, the buffer holds its last 1024 bytes, or all of it if
-- that is less.
pub write_all-tail : (ps : List Bytes) → write_all [] ps ≡ last_bytes tail_size (joined ps)
write_all-tail ps = writes_lem ps []
