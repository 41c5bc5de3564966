-- ===== src/Cisco/Stream.antt =====
-- What the state of the client is read from.
use cisco_socks_server.Prelude.{
  List, [], ◌∷◌, ◌++◌, none, some, Bytes, bytes, All, All-append, ◌≡◌, refl, ap, ◌∙◌, arith,
}
use cisco_socks_server.Strings.{
  split, trim_space, cut_prefix, IsWord, Lacks, split-append, trim_space-append, cut-word,
  split-Lacks,
}
use cisco_socks_server.Cisco.{first_word, take_state, last_state, classify, parse_state}

-- A line that does not report a state.
abbrev pub IsSilent : Bytes → Type 0
IsSilent line = cut_prefix (trim_space line) (bytes ">> state: ") ≡ none

last_state-append :
    (l : Bytes) (xs ys : List Bytes) → last_state l (xs ++ ys) ≡ last_state (last_state l xs) ys
unfolding last_state
last_state-append l [] ys = refl
last_state-append l (x ∷ xs) ys = last_state-append (take_state l x) xs ys

last_state-silent : (l : Bytes) (xs : List Bytes) → All IsSilent xs → last_state l xs ≡ l
unfolding last_state take_state
last_state-silent l [] h = refl
last_state-silent l (x ∷ xs) h = rw (h.0, take_state) (last_state-silent l xs h.1)

cut_prefix_report : (w : Bytes) → cut_prefix (bytes ">> state: " ++ w) (bytes ">> state: ") ≡ some w
unfolding cut_prefix
cut_prefix_report w = refl

first_word-word : (w : Bytes) → IsWord w → first_word w ≡ w
unfolding first_word
first_word-word w h = rw (cut-word w h.1, first_word)

take_state-report : (l w : Bytes) → IsWord w → take_state l (bytes ">> state: " ++ w) ≡ w
unfolding take_state
take_state-report l w h =
    rw (trim_space-append b'>' (bytes "> state: ") w refl h, cut_prefix_report w, take_state)
      (first_word-word w h)

last_report :
    (l w : Bytes) (lines : List Bytes)
    → IsWord w
    → All IsSilent lines
    → last_state l ((bytes ">> state: " ++ w) ∷ lines) ≡ w
unfolding last_state
last_report l w lines h silent =
    ap (λ x. last_state x lines) (take_state-report l w h) ∙ last_state-silent w lines silent

report_line :
    (w after : Bytes)
    → Lacks b'\n' w
    → split ((bytes ">> state: " ++ w) ++ (b'\n' ∷ after)) b'\n'
      ≡ (bytes ">> state: " ++ w) ∷ split after b'\n'
report_line w after lacks =
    split-append (bytes ">> state: " ++ w) after b'\n'
    ∙ ap (λ ls. ls ++ split after b'\n')
        (split-Lacks (bytes ">> state: " ++ w) b'\n'
          (All-append _ (bytes ">> state: ") w (omega arith) lacks))

-- The state is that of the last line that reports one, whatever stands before it, and as long as
-- the lines after it report none.
pub parse_state-last :
    (before w after : Bytes)
    → IsWord w
    → Lacks b'\n' w
    → All IsSilent (split after b'\n')
    → parse_state (before ++ (b'\n' ∷ ((bytes ">> state: " ++ w) ++ (b'\n' ∷ after)))) ≡ classify w
unfolding parse_state
parse_state-last before w after h lacks silent = ap classify (
    rw (split-append before ((bytes ">> state: " ++ w) ++ (b'\n' ∷ after)) b'\n') (
      last_state-append [] (split before b'\n') _
      ∙ ap (last_state (last_state [] (split before b'\n'))) (report_line w after lacks)
      ∙ last_report (last_state [] (split before b'\n')) w (split after b'\n') h silent))
