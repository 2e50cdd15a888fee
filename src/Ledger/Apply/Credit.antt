-- ===== src/Ledger/Apply/Credit.antt =====
-- The credit boundary: fifty hours below zero, for members with an account of their own.
use peer_hours.Prelude.{
  suc, ◌≡◌, ap, ◌∙◌, inl, inr, true, false, String, none, List, arith, ◌==◌, text_equality,
  Bool-cases, eq_of_==, ℤ, pos, negsuc, ◌+ℤ◌, ◌-ℤ◌, ◌≤ℤ◌, int_laws, +ℤ-zero, Occurs, ok,
}
use peer_hours.Script.Number.{to_whole}
use peer_hours.Script.Collation.{Collation}
use peer_hours.Ledger.Types.{Transfer, Ledger, SignatureVerifier, number}
use peer_hours.Ledger.Transfers.Normal.{IsNormal, create_transfer-IsNormal}
use peer_hours.Ledger.Balances.{read, would_cross_minimum_balance}
use peer_hours.Ledger.Balances.Laws.{IsPlain}
use peer_hours.Ledger.Settling.{Progress, names_accepted}
use peer_hours.Ledger.Settling.Moves.{
  accepted_after, accepted_ids, Move, settles, declines, reverses, leaves, Moves-keep,
}
use peer_hours.Ledger.Apply.{default_policy, apply_transfers}
use peer_hours.Ledger.Apply.Settled.{applied, applied_run}
use peer_hours.Ledger.Apply.Accounts.{
  share, standing, standing-append, IsPlainTransfer, plain_of_terms, Good, Accounts, Move-Accounts,
  Accounts-start,
}

abbrev pub floor : ℤ
floor = negsuc 2999

abbrev Ordinary : Transfer → Type 0
Ordinary t = Good t × (t.reverses_transfer_id ≡ none)

room_of_test :
    (t : Transfer) (s : Progress) (z : ℤ)
    → would_cross_minimum_balance t s.balances default_policy ≡ false
    → read s.balances t.recipient_member_id ≡ number z
    → floor ≤ℤ z -ℤ to_whole t.minutes
unfolding would_cross_minimum_balance
room_of_test t s z h e = ground arith

-- What a transfer does to a standing above the boundary, if its recipient has room for it.
share-floor :
    (t : Transfer) (id : String) (z : ℤ)
    → IsNormal t
    → floor ≤ℤ z
    → (t.recipient_member_id ≡ id → floor ≤ℤ z -ℤ to_whole t.minutes)
    → floor ≤ℤ z +ℤ share id t
share-floor t id z normal above room =
    let amount : to_whole t.minutes ≡ pos (suc normal.amount) = ap to_whole normal.minutes in
    elim (Bool-cases (t.provider_member_id == id)) [
      | inl given ↦ rw (given, amount) (omega int_laws)
      | inr other ↦ elim (Bool-cases (t.recipient_member_id == id)) [
        | inl taken ↦
            let fits = room (eq_of_== t.recipient_member_id id taken) in
            rw (other, taken) (omega (int_laws, fits))
        | inr neither ↦ rw (other, neither) (omega int_laws)
      ]
    ]

record WithinCredit (s : Progress) : Type 0 where
  accounts : Accounts s
  above : (id : String) → IsPlain id → floor ≤ℤ standing id s.accepted

WithinCredit-settles :
    (t : Transfer) (s : Progress)
    → Good t
    → would_cross_minimum_balance t s.balances default_policy ≡ false
    → Accounts (accepted_after t s)
    → WithinCredit s
    → WithinCredit (accepted_after t s)
WithinCredit-settles t s (normal, plain) w after h = record {
  accounts = after;
  above = λ id p. rw standing-append (
      rw +ℤ-zero (
        share-floor t id (standing id s.accepted) normal (h.above id p) (λ same.
          room_of_test t s (standing id s.accepted) w (rw same (h.accounts.at_member id p)))));
}

Move-WithinCredit :
    (u v : Progress) → Move default_policy Ordinary u v → WithinCredit u → WithinCredit v
Move-WithinCredit u v (settles t q e w) h =
    WithinCredit-settles t u q.0 w
      (Move-Accounts default_policy u (accepted_after t u) (settles t q.0 e w) h.accounts) h
Move-WithinCredit u v (declines t q w) h = record {
  accounts = Move-Accounts default_policy u v (declines t q.0 w) h.accounts;
  above = h.above;
}
Move-WithinCredit u v (reverses t q n) h = absurd (absurd_named (accepted_ids u) t q.1 n)
  where
    absurd_named :
        (ids : List String) (t : Transfer)
        → t.reverses_transfer_id ≡ none
        → names_accepted ids t ≡ true
        → ⊥
    absurd_named ids t e n = ground arith
Move-WithinCredit u v (leaves pending) h = record {
  accounts = Move-Accounts default_policy u v (leaves pending) h.accounts;
  above = h.above;
}

-- If the input has no reversal and no member's id in it is the name of an inherited property, then
-- in the ledger that `applyTransfers` returns the balance of a member whose id is no such name is a
-- number, and at least minus fifty hours.
pub apply_transfers-floor :
    (c : Collation) (community : String) (ts : List Transfer) (verify : SignatureVerifier)
    (l : Ledger) (id : String)
    → ((t : Transfer) → Occurs t ts → IsPlainTransfer t × (t.reverses_transfer_id ≡ none))
    → apply_transfers c community ts verify ≡ ok l
    → IsPlain id
    → (z : ℤ) × (read l.balances id ≡ number z) × (floor ≤ℤ z)
apply_transfers-floor c community ts verify l id plain h p =
    let a = applied c community ts verify l h in
    let (run, _, _) =
      applied_run c community ts verify Ordinary l
        (λ t u o e.
          let (same, _, normal) = create_transfer-IsNormal t u e in
          let (names, none_reversed) = plain t o in
          (
            (normal, plain_of_terms t u same names),
            ap (λ x. x.reverses_transfer_id) same ∙ none_reversed,
          ))
        (λ t q. q.0.0.again) a in
    let within =
      Moves-keep default_policy Ordinary WithinCredit Move-WithinCredit run
        (record { accounts = Accounts-start; above = λ id p. omega arith }) in
    (
      standing id a.after.accepted,
      ap (λ b. read b id) a.balances ∙ within.accounts.at_member id p,
      within.above id p,
    )
