-- ===== src/Service/Daemon/Runs.antt =====
-- Runs of the whole service, one after the other.
use cisco_socks_server.Prelude.{ℕ}
use cisco_socks_server.Net.Addr.{V6Text}
use cisco_socks_server.Service.State.{Options, LanSnapshot}
use cisco_socks_server.Service.Pinner.{PinOps}
use cisco_socks_server.Service.Stages.{Daemon}
use cisco_socks_server.Service.Daemon.{Step, Reach, here, next}

module _ {W : Type 0} (ops : PinOps W) ⦃t : V6Text⦄ (opts : Options)
    (origin : ℕ → LanSnapshot) where
  pub first :
      {d e f : Daemon W}
      → Step ops opts origin d e
      → Reach ops opts origin e f
      → Reach ops opts origin d f
  first step here = next here step
  first step (next r last) = next (first step r) last

  pub then_on :
      {d e f : Daemon W}
      → Reach ops opts origin d e
      → Reach ops opts origin e f
      → Reach ops opts origin d f
  then_on r here = r
  then_on r (next r' last) = next (then_on r r') last

  -- Some turns of the goroutines lead to a daemon of this kind.
  abbrev pub Leads : (Daemon W → Type 0) → Daemon W → Type 0
  Leads P d = (e : Daemon W) × Reach ops opts origin d e × P e

  pub after :
      (P : Daemon W → Type 0) {d e : Daemon W} → Step ops opts origin d e → Leads P e → Leads P d
  after P step (f, r, p) = (f, first step r, p)

  pub andthen :
      (P Q : Daemon W → Type 0) {d : Daemon W}
      → ((e : Daemon W) → P e → Leads Q e)
      → Leads P d
      → Leads Q d
  andthen P Q go (e, r, p) = let (f, r', q) = go e p in (f, then_on r r', q)
