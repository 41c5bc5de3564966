-- ===== src/Service/Proxy/Accept.antt =====
-- What the accept loop adds, and how it ends.
use cisco_socks_server.Prelude.{Bool, true, false, List, [], ◌∷◌, ◌++◌, some, ◌≡◌, ◌≢◌, refl, All}
use cisco_socks_server.Service.Conns.{Tracker, add}
use cisco_socks_server.Service.Proxy.{
  Accepted, conn, failed, listener_closed, accept_round, accept_conns,
}

-- Where it fails, the context is done.
abbrev pub IsOrderly : Accepted → Type 0
IsOrderly (conn c) = Unit
IsOrderly (failed ctx_done closed stops) = ctx_done ≡ true

-- An error that is the loop's end, but no shutdown's.
abbrev pub Breaks : Accepted → Type 0
Breaks (conn c) = ⊥
Breaks (failed ctx_done closed stops) = (ctx_done ≡ false) × (closed ≡ true)

-- A connection, or an error that passes.
abbrev pub Goes : Accepted → Type 0
Goes (conn c) = Unit
Goes (failed ctx_done closed stops) = (ctx_done ≡ false) × (closed ≡ false) × (stops ≡ false)

-- The tracker with the connections among these, the last one first.
abbrev pub add_conns : Bool → List Accepted → Tracker → Tracker
add_conns lan [] t = t
add_conns lan (conn c ∷ more) t = add_conns lan more (add t c lan)
add_conns lan (failed ctx_done closed stops ∷ more) t = add_conns lan more t

accept_conns-append :
    (lan : Bool) (before after : List Accepted) (t : Tracker)
    → All Goes before
    → accept_conns lan (before ++ after) t ≡ accept_conns lan after (add_conns lan before t)
unfolding accept_conns accept_round
accept_conns-append lan [] after t h = refl
accept_conns-append lan (conn c ∷ before) after t h =
    accept_conns-append lan before after (add t c lan) h.1
accept_conns-append lan (failed true closed stops ∷ before) after t h = cc
accept_conns-append lan (failed false true stops ∷ before) after t h = cc
accept_conns-append lan (failed false false true ∷ before) after t h = cc
accept_conns-append lan (failed false false false ∷ before) after t h =
    accept_conns-append lan before after t h.1

-- Errors that pass stop nothing: every connection behind them is tracked, and the loop ends with
-- an error at once when its listener is closed while the context is alive.
pub accept_conns-Breaks :
    (lan : Bool) (before after : List Accepted) (last : Accepted) (t : Tracker)
    → All Goes before
    → Breaks last
    → accept_conns lan (before ++ (last ∷ after)) t ≡ (add_conns lan before t, some listener_closed)
accept_conns-Breaks lan before after (conn c) t h b = elim b [ ]
accept_conns-Breaks lan before after (failed true closed stops) t h b = cc
accept_conns-Breaks lan before after (failed false false stops) t h b = cc
accept_conns-Breaks lan before after (failed false true stops) t h b =
    rw (accept_conns-append lan before (failed false true stops ∷ after) t h)
      (unfold accept_conns accept_round in refl)

-- A shutdown is never reported as an error: where every failed call of `Accept` comes with a
-- context that is done, the loop goes on or returns without one.
pub accept_conns_orderly :
    (lan : Bool) (more : List Accepted) (t : Tracker)
    → All IsOrderly more
    → (accept_conns lan more t).1 ≢ some listener_closed
unfolding accept_conns accept_round
accept_conns_orderly lan [] t h = λ e. cc
accept_conns_orderly lan (conn c ∷ more) t h = accept_conns_orderly lan more (add t c lan) h.1
accept_conns_orderly lan (failed true closed stops ∷ more) t h = λ e. cc
accept_conns_orderly lan (failed false closed stops ∷ more) t h = cc
