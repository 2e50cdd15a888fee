-- ===== src/Ledger/Apply/Accounts.antt =====
-- The balances of a ledger against its accepted transfers.
use peer_hours.Prelude.{
  ◌≡◌, ◌≢◌, refl, sym, ap, ◌∙◌, inl, inr, Bool, String, List, [], ◌∷◌, ◌++◌, arith, ◌==◌,
  text_equality, if◌then◌else◌, Bool-cases, eq_of_==, ℤ, pos, ◌+ℤ◌, ◌-ℤ◌, +ℤ_assoc, +ℤ-zero,
  zero-+ℤ, int_laws, Occurs, ok,
}
use mathlib.Core.Path.{subst}
use peer_hours.Script.Number.{to_whole}
use peer_hours.Script.Map.{get}
use peer_hours.Script.Sort.{insert, sort}
use peer_hours.Script.Collation.{Collation}
use peer_hours.Ledger.Types.{
  Transfer, LedgerPolicy, Ledger, LedgerPosting, SignatureVerifier, number,
}
use peer_hours.Ledger.Transfers.Normal.{IsNormal, create_transfer-IsNormal}
use peer_hours.Ledger.Balances.{read}
use peer_hours.Ledger.Balances.Laws.{
  tally, moved, total, HasNumbers, IsPlain, PostsPlain, read-apply_postings, total-apply_postings,
}
use peer_hours.Ledger.Settling.{Progress, start}
use peer_hours.Ledger.Settling.Moves.{
  postings_of, accepted_after, Move, settles, declines, reverses, leaves, Moves-keep,
}
use peer_hours.Ledger.Apply.{by_id_order, default_policy, apply_transfers}
use peer_hours.Ledger.Apply.Settled.{Applied, applied, applied_run}

-- What a transfer brings one member: its minutes to the provider, as much from the recipient.
abbrev pub share : String → Transfer → ℤ
share member t =
    if t.provider_member_id == member
    then to_whole t.minutes
    else if t.recipient_member_id == member
    then pos 0 -ℤ to_whole t.minutes
    else pos 0

abbrev pub standing : String → List Transfer → ℤ
standing member [] = pos 0
standing member (t ∷ ts) = share member t +ℤ standing member ts

pub standing-append :
    (member : String) (xs ys : List Transfer)
    → standing member (xs ++ ys) ≡ standing member xs +ℤ standing member ys
standing-append member [] ys = sym (zero-+ℤ (standing member ys))
standing-append member (t ∷ ts) ys =
    ap (λ z. share member t +ℤ z) (standing-append member ts ys)
    ∙ sym (+ℤ_assoc (share member t) (standing member ts) (standing member ys))

standing-insert :
    (member : String) (lt : Transfer → Transfer → Bool) (t : Transfer) (ts : List Transfer)
    → standing member (insert lt t ts) ≡ share member t +ℤ standing member ts
unfolding insert
standing-insert member lt t [] = refl
standing-insert member lt t (u ∷ us) = elim (Bool-cases (lt u t)) [
  | inl before ↦
      rw before (ap (λ z. share member u +ℤ z) (standing-insert member lt t us) ∙ omega (int_laws))
  | inr other ↦ rw other refl
]

pub standing-sort :
    (member : String) (lt : Transfer → Transfer → Bool) (ts : List Transfer)
    → standing member (sort lt ts) ≡ standing member ts
unfolding sort
standing-sort member lt [] = refl
standing-sort member lt (t ∷ ts) =
    standing-insert member lt t (sort lt ts)
    ∙ ap (λ z. share member t +ℤ z) (standing-sort member lt ts)

-- A member whose name no object inherits a property under.
pub record IsPlainTransfer (t : Transfer) : Type 0 where
  pub provider : IsPlain t.provider_member_id
  pub recipient : IsPlain t.recipient_member_id

abbrev pub Good : Transfer → Type 0
Good t = IsNormal t × IsPlainTransfer t

share_of_postings :
    (member : String) (t : Transfer)
    → t.provider_member_id ≢ t.recipient_member_id
    → tally member (postings_of t) ≡ share member t
share_of_postings member t n = elim (Bool-cases (t.provider_member_id == member)) [
  | inl given ↦ elim (Bool-cases (t.recipient_member_id == member)) [
    | inl taken ↦ absurd (
        n (
          eq_of_== t.provider_member_id member given
          ∙ sym (eq_of_== t.recipient_member_id member taken)))
    | inr other ↦ rw (given, other) (omega int_laws)
  ]
  | inr other ↦ rw other (omega int_laws)
]

-- What holds after every move.
pub record Accounts (s : Progress) : Type 0 where
  pub at_member : (id : String) → IsPlain id → read s.balances id ≡ number (standing id s.accepted)
  pub sum : total s.balances ≡ pos 0
  pub numbers : HasNumbers s.balances
  pub balanced : moved s.postings ≡ pos 0

moved-append : (ps qs : List LedgerPosting) → moved (ps ++ qs) ≡ moved ps +ℤ moved qs
moved-append [] qs = sym (zero-+ℤ (moved qs))
moved-append (p ∷ ps) qs =
    ap (λ z. p.minutes +ℤ z) (moved-append ps qs) ∙ sym (+ℤ_assoc p.minutes (moved ps) (moved qs))

moved-postings_of : (t : Transfer) → moved (postings_of t) ≡ pos 0
moved-postings_of t = omega int_laws

-- The balance of a plain member after an accepted transfer.
pub standing-accepted :
    (t : Transfer) (s : Progress) (id : String)
    → IsNormal t
    → IsPlain id
    → read s.balances id ≡ number (standing id s.accepted)
    → read (accepted_after t s).balances id ≡ number (standing id (accepted_after t s).accepted)
standing-accepted t s id normal p h =
    read-apply_postings (postings_of t) s.balances id p
    ∙ rw h (
        ap number (
          ap (λ z. standing id s.accepted +ℤ z)
            (share_of_postings id t normal.apart ∙ sym (+ℤ-zero (share id t)))
          ∙ sym (standing-append id s.accepted (t ∷ []))))

Accounts-accepted :
    (t : Transfer) (s : Progress) → Good t → Accounts s → Accounts (accepted_after t s)
Accounts-accepted t s (normal, plain) a =
    let posts : PostsPlain (postings_of t) = (plain.provider, (plain.recipient, tt)) in
    let (sum, numbers) = total-apply_postings (postings_of t) s.balances posts a.numbers in
    record {
      at_member = λ id p. standing-accepted t s id normal p (a.at_member id p);
      sum =
          sum
          ∙ ap (λ z. z +ℤ moved (postings_of t)) a.sum
          ∙ zero-+ℤ (moved (postings_of t))
          ∙ moved-postings_of t;
      numbers = numbers;
      balanced =
          moved-append s.postings (postings_of t)
          ∙ ap (λ z. z +ℤ moved (postings_of t)) a.balanced
          ∙ zero-+ℤ (moved (postings_of t))
          ∙ moved-postings_of t;
    }

pub Move-Accounts :
    (policy : LedgerPolicy) (u v : Progress) → Move policy Good u v → Accounts u → Accounts v
Move-Accounts policy u v (settles t q e w) a = Accounts-accepted t u q a
Move-Accounts policy u v (declines t q w) a = record {
  at_member = a.at_member;
  sum = a.sum;
  numbers = a.numbers;
  balanced = a.balanced;
}
Move-Accounts policy u v (reverses t q n) a = Accounts-accepted t u q a
Move-Accounts policy u v (leaves pending) a = record {
  at_member = a.at_member;
  sum = a.sum;
  numbers = a.numbers;
  balanced = a.balanced;
}

pub Accounts-start : Accounts start
Accounts-start = record {
  at_member = λ id p. unfold read get in ground arith;
  sum = refl;
  numbers = tt;
  balanced = refl;
}

pub plain_of_terms : (t u : Transfer) → u.terms ≡ t.terms → IsPlainTransfer t → IsPlainTransfer u
plain_of_terms t u e p = record { provider = rw e p.provider; recipient = rw e p.recipient }

module _ (c : Collation) (community : String) (ts : List Transfer) (verify : SignatureVerifier)
    (l : Ledger) (plain : (t : Transfer) → Occurs t ts → IsPlainTransfer t)
    (h : apply_transfers c community ts verify ≡ ok l) where
  Accounts-of : (a : Applied c community ts verify l) → Accounts a.after
  Accounts-of a =
      let (run, _, _) =
        applied_run c community ts verify Good l
          (λ t u o e.
            let (same, _, normal) = create_transfer-IsNormal t u e in
            (normal, plain_of_terms t u same (plain t o)))
          (λ t q. q.0.again) a in
      Moves-keep default_policy Good Accounts (Move-Accounts default_policy) run Accounts-start

  -- If no member's id in the input is the name of an inherited property, then in the ledger that
  -- `applyTransfers` returns the balance of a member whose id is no such name is the minutes that
  -- it provided less those that it received over the accepted transfers.
  pub apply_transfers-standing :
      (id : String) → IsPlain id → read l.balances id ≡ number (standing id l.transfers)
  apply_transfers-standing id p =
      let a = applied c community ts verify l h in
      ap (λ b. read b id) a.balances
      ∙ (Accounts-of a).at_member id p
      ∙ ap number (
          sym (standing-sort id (by_id_order c) a.after.accepted)
          ∙ ap (standing id) (sym a.transfers))

  -- If no member's id in the input is the name of an inherited property, then every balance in the
  -- ledger that `applyTransfers` returns is a number, and the balances, as the postings, add up to
  -- zero: settling moves time and makes none.
  pub apply_transfers-total :
      HasNumbers l.balances × (total l.balances ≡ pos 0) × (moved l.postings ≡ pos 0)
  apply_transfers-total =
      let a = applied c community ts verify l h in
      let accounts = Accounts-of a in
      (
        subst HasNumbers (sym a.balances) accounts.numbers,
        ap total a.balances ∙ accounts.sum,
        ap moved a.postings ∙ accounts.balanced,
      )
