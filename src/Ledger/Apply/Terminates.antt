-- ===== src/Ledger/Apply/Terminates.antt =====
-- The settling ends: its fuel is enough.
use peer_hours.Prelude.{◌≡◌, ◌+◌, List, map, ok, All, count, arith}
use peer_hours.Ledger.Types.{Transfer, LedgerPolicy, Transfer-discrete}
use peer_hours.Ledger.Transfers.{create_transfer}
use peer_hours.Ledger.Settling.{Progress}
use peer_hours.Ledger.Settling.Runs.{refused}
use peer_hours.Ledger.Settling.Moves.{IsStable}
use peer_hours.Ledger.Apply.{settle}
use peer_hours.Ledger.Apply.Settled.{settle_run}

-- Settling created transfers ends with a result under every policy, so the rounds of reversals
-- never run out of fuel, and each transfer is accepted or refused as often as it was given.
pub settle_terminates :
    (policy : LedgerPolicy) (ts : List Transfer)
    → All (λ t. create_transfer t ≡ ok t) ts
    → (after : Progress) × (settle policy ts ≡ ok after)
      × ((t : Transfer)
          → count t after.accepted + count t (map refused after.rejected) ≡ count t ts)
settle_terminates policy ts created =
    let s = settle_run policy IsStable (λ t w. w) ts created in
    (s.after, s.returns, λ t. omega (arith, s.same t))
