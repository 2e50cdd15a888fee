-- ===== src/Ledger/Apply/Explained.antt =====
-- Why `applyTransfers` accepts a reversal, and why it rejects a transfer.
use peer_hours.Prelude.{◌+◌, ◌≡◌, ◌⊎◌, true, String, List, text_equality, ◌-ℤ◌, ◌<ℤ◌, count, All}
use peer_hours.Script.Number.{to_whole}
use peer_hours.Script.Collation.{Collation}
use peer_hours.Ledger.Types.{
  Transfer, Ledger, RejectedTransfer, minimum_balance, unaccepted_reversal, number, text,
  Transfer-discrete,
}
use peer_hours.Ledger.Balances.{is_inherited, read}
use peer_hours.Ledger.Balances.Laws.{IsPlain}
use peer_hours.Ledger.Settling.{Progress}
use peer_hours.Ledger.Apply.Accounts.{standing}
use peer_hours.Ledger.Apply.Credit.{floor}
use peer_hours.Ledger.Apply.Decisions.{Reverses}

-- With some of the accepted transfers alone, the minutes of a transfer would bring its recipient
-- below the floor.
pub record Crosses (accepted : List Transfer) (t : Transfer) : Type 0 where
  pub earlier : List Transfer
  pub others : List Transfer
  pub parts : (u : Transfer) → count u earlier + count u others ≡ count u accepted
  pub below : standing t.recipient_member_id earlier -ℤ to_whole t.minutes <ℤ floor

-- Where a rejection names the minimum balance, the transfer crosses it.
abbrev Told : List Transfer → RejectedTransfer → Type 0
Told accepted r = r.reason ≡ minimum_balance → Crosses accepted r.transfer

record Kept (s : Progress) : Type 0 where
  numbers : (id : String) → IsPlain id → read s.balances id ≡ number (standing id s.accepted)
  texts : (id : String) → is_inherited id ≡ true → read s.balances id ≡ text
  told : All (Told s.accepted) s.rejected

-- Why a rejected transfer was rejected, in terms of the accepted ones.
abbrev pub IsExplained : List Transfer → RejectedTransfer → Type 0
IsExplained accepted r =
    ((r.reason ≡ minimum_balance) × Crosses accepted r.transfer)
    ⊎ ((r.reason ≡ unaccepted_reversal) × ¬ (Reverses accepted r.transfer))
