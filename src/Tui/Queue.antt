-- ===== src/Tui/Queue.antt =====
-- The queue of log lines, and what becomes of them.
use cisco_socks_server.Prelude.{
  ℕ, zero, suc, ◌≤◌, List, [], ◌∷◌, ◌++◌, Bytes, length, length-append, ltb, arith, append_assoc,
  append-nil, subst, sym, Bool-cases, inl, inr,
}
use mathlib.Core.List.{Perm, perm_middle}
use mathlib.Core.List.Perm
use cisco_socks_server.Tui.{LogView, log_capacity, write, print_log, print_first, pull, draw}

-- A line is written, the reader has its turn, or one of the updates that it has asked for runs.
pub data Event : Type 0 where
  written : Bytes → Event
  read : Event
  drawn : ℕ → Event

abbrev pub after : LogView → Event → LogView
after v (written p) = record v { logs = (write v.logs p).0 }
after v read = print_log v
after v (drawn n) = draw n v

abbrev pub run : LogView → List Event → LogView
run v [] = v
run v (e ∷ es) = run (after v e) es

abbrev pub lines_of : List Event → List Bytes
lines_of [] = []
lines_of (written p ∷ es) = p ∷ lines_of es
lines_of (read ∷ es) = lines_of es
lines_of (drawn n ∷ es) = lines_of es

-- Some of the lines are left out, and the others keep their order.
pub data IsThinned : List Bytes → List Bytes → Type 0 where
  done : IsThinned [] []
  kept : (p : Bytes) {xs ys : List Bytes} → IsThinned xs ys → IsThinned (p ∷ xs) (p ∷ ys)
  dropped : (p : Bytes) {xs ys : List Bytes} → IsThinned xs ys → IsThinned xs (p ∷ ys)

IsThinned-append :
    {xs ys us vs : List Bytes} → IsThinned xs ys → IsThinned us vs → IsThinned (xs ++ us) (ys ++ vs)
IsThinned-append done t = t
IsThinned-append (kept p s) t = kept p (IsThinned-append s t)
IsThinned-append (dropped p s) t = dropped p (IsThinned-append s t)

pull-perm : (n : ℕ) (xs : List Bytes) → Perm xs ((pull n xs).0 ++ (pull n xs).1)
unfolding pull
pull-perm n [] = Perm.nil
pull-perm zero (x ∷ xs) = Perm.refl (x ∷ xs)
pull-perm (suc n) (x ∷ xs) =
    Perm.trans (Perm.cons x (pull-perm n xs)) (Perm.symm (perm_middle (pull n xs).0 (pull n xs).1))

-- The lines that the reader has taken are printed or will be; with those that wait they are lines
-- that were written, in their order, and no more than the capacity waits.
abbrev pub IsBounded : LogView → List Bytes → Type 0
IsBounded v lines =
    (taken : List Bytes) × IsThinned (taken ++ v.logs) lines
    × Perm taken (v.printed ++ v.updates)
    × (length v.logs ≤ log_capacity)

write-IsBounded :
    (v : LogView) (p : Bytes) (lines : List Bytes)
    → IsBounded v lines
    → IsBounded (after v (written p)) (lines ++ (p ∷ []))
unfolding write
write-IsBounded v p lines (taken, thinned, perm, room) =
    elim (Bool-cases (ltb (length v.logs) log_capacity)) [
      | inl free ↦ rw free (
        taken,
        subst (λ l. IsThinned l (lines ++ (p ∷ []))) (append_assoc taken v.logs (p ∷ []))
            (IsThinned-append thinned (kept p done)),
        perm,
        ground (arith, length-append v.logs (p ∷ [])),
      )
      | inr full ↦ rw full (
        taken,
        subst (λ l. IsThinned l (lines ++ (p ∷ []))) (append-nil (taken ++ v.logs))
            (IsThinned-append thinned (dropped p done)),
        perm,
        room,
      )
    ]

print_first-IsBounded :
    (logs updates printed lines : List Bytes)
    → IsBounded (record { logs = logs; updates = updates; printed = printed }) lines
    → IsBounded
        (print_first logs (record { logs = logs; updates = updates; printed = printed }))
        lines
unfolding print_first
print_first-IsBounded [] updates printed lines h = h
print_first-IsBounded (msg ∷ more) updates printed lines (taken, thinned, perm, room) = (
  taken ++ (msg ∷ []),
  subst (λ l. IsThinned l lines) (sym (append_assoc taken (msg ∷ []) more)) thinned,
  subst (Perm (taken ++ (msg ∷ []))) (append_assoc printed updates (msg ∷ []))
      (Perm.append_right (msg ∷ []) perm),
  omega (arith, room),
)

draw-IsBounded :
    (n : ℕ) (v : LogView) (lines : List Bytes) → IsBounded v lines → IsBounded (draw n v) lines
unfolding draw
draw-IsBounded n v lines (taken, thinned, perm, room) = (
  taken,
  thinned,
  Perm.trans perm (
      subst (Perm (v.printed ++ v.updates))
        (sym (append_assoc v.printed (pull n v.updates).0 (pull n v.updates).1))
        (Perm.append_left v.printed (pull-perm n v.updates))),
  room,
)

run-IsBounded :
    (v : LogView) (es : List Event) (lines : List Bytes)
    → IsBounded v lines
    → IsBounded (run v es) (lines ++ lines_of es)
run-IsBounded v [] lines h = subst (IsBounded v) (sym (append-nil lines)) h
run-IsBounded v (written p ∷ es) lines h =
    subst (IsBounded (run (after v (written p)) es)) (append_assoc lines (p ∷ []) (lines_of es))
      (run-IsBounded (after v (written p)) es (lines ++ (p ∷ [])) (write-IsBounded v p lines h))
run-IsBounded v (read ∷ es) lines h =
    run-IsBounded (print_log v) es lines
      (unfold print_log in print_first-IsBounded v.logs v.updates v.printed lines h)
run-IsBounded v (drawn n ∷ es) lines h =
    run-IsBounded (draw n v) es lines (draw-IsBounded n v lines h)

abbrev pub empty_view : LogView
empty_view = record { logs = []; updates = []; printed = [] }

-- However writers, the reader and the updates take turns, at most 256 lines wait in the channel; the
-- lines that have left it and then those that wait are lines that were written, in the order in
-- which they were, though a full channel drops some; and those that have left it are, in some order,
-- the lines that are printed and those that an update is still to print: none is lost there, and
-- none is printed twice.
pub run_bounded :
    (es : List Event)
    → let v = run empty_view es in
      (taken : List Bytes) × IsThinned (taken ++ v.logs) (lines_of es)
      × Perm taken (v.printed ++ v.updates)
      × (length v.logs ≤ log_capacity)
run_bounded es = run-IsBounded empty_view es [] ([], done, Perm.nil, omega arith)
