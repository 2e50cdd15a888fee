-- ===== src/Ledger/Settling/Outcome.antt =====
-- The whole settling: it ends, decides every transfer once, and rejects the reversals that name no
-- accepted transfer.
use peer_hours.Prelude.{
  ℕ, zero, suc, ◌+◌, ◌≤◌, ◌≡◌, refl, sym, ap, ◌⊎◌, inl, inr, true, false, List, [], ◌∷◌, map,
  length, arith, count-append, text_equality, Bool-cases, All, All-append, ok,
}
use mathlib.Core.List.{map-append}
use mathlib.Core.Path.{subst}
use peer_hours.Ledger.Types.{
  Transfer, LedgerPolicy, RejectedTransfer, minimum_balance, unaccepted_reversal, Transfer-discrete,
}
use peer_hours.Ledger.Settling.{
  Progress, names_accepted, settle_round, reject_reversals, settle_reversals,
}
use peer_hours.Ledger.Settling.Moves.{
  IsStable, accepted_ids, leaves, Moves, done, more, Moves-trans,
}
use peer_hours.Ledger.Settling.Runs.{refused, weight, IsUnderLimit, settle-Round_run}

settle_reversals_empty : (fuel : ℕ) (s : Progress) → settle_reversals fuel [] s ≡ ok s
unfolding settle_reversals
settle_reversals_empty zero s = refl
settle_reversals_empty (suc fuel) s = refl

settle_reversals_goes :
    (fuel : ℕ) (x : Transfer) (pending : List Transfer) (s s' : Progress) (next : List Transfer)
    (after : Progress)
    → settle_round (accepted_ids s) (x ∷ pending) s ≡ ok (next, true, s')
    → settle_reversals fuel next s' ≡ ok after
    → settle_reversals (suc fuel) (x ∷ pending) s ≡ ok after
unfolding settle_reversals
settle_reversals_goes fuel x pending s s' next after r e = rw r e

settle_reversals_stops :
    (fuel : ℕ) (x : Transfer) (pending : List Transfer) (s s' : Progress) (next : List Transfer)
    → settle_round (accepted_ids s) (x ∷ pending) s ≡ ok (next, false, s')
    → settle_reversals (suc fuel) (x ∷ pending) s ≡ ok (reject_reversals next s')
unfolding settle_reversals
settle_reversals_stops fuel x pending s s' next r = rw r refl

-- Why a rejected transfer was rejected, at the end.
abbrev pub IsRefused : Progress → RejectedTransfer → Type 0
IsRefused s r =
    (r.reason ≡ minimum_balance)
    ⊎ ((r.reason ≡ unaccepted_reversal) × (names_accepted (accepted_ids s) r.transfer ≡ false))

IsRefused-of_stuck :
    (s : Progress) (ts : List Transfer)
    → All (λ t. names_accepted (accepted_ids s) t ≡ false) ts
    → All (IsRefused s) (map (λ t. record { transfer = t; reason = unaccepted_reversal }) ts)
IsRefused-of_stuck s [] h = tt
IsRefused-of_stuck s (t ∷ ts) (n, h) = (inr (refl, n), IsRefused-of_stuck s ts h)

IsRefused-of_limits :
    (s : Progress) (rs : List RejectedTransfer) → All IsUnderLimit rs → All (IsRefused s) rs
IsRefused-of_limits s [] h = tt
IsRefused-of_limits s (r ∷ rs) (e, h) = (inl e, IsRefused-of_limits s rs h)

map-refused :
    (ts : List Transfer)
    → map refused (map (λ t. record { transfer = t; reason = unaccepted_reversal }) ts) ≡ ts
map-refused [] = refl
map-refused (t ∷ ts) = ap (◌∷◌ t) (map-refused ts)

module _ (policy : LedgerPolicy) (Q : Transfer → Type 0)
    (stable : (t : Transfer) → Q t → IsStable t) where
  pub record Reversed (fuel : ℕ) (pending : List Transfer) (s : Progress) : Type 0 where
    pub after : Progress
    pub returns : settle_reversals fuel pending s ≡ ok after
    pub run : Moves policy Q s after
    pub same : (t : Transfer) → weight t [] after ≡ weight t pending s
    pub reasons : All (IsRefused after) after.rejected

  pub settle_reversals_run :
      (fuel : ℕ) (pending : List Transfer) (s : Progress)
      → All Q pending
      → All IsUnderLimit s.rejected
      → length pending ≤ fuel
      → Reversed fuel pending s
  settle_reversals_run fuel [] s h l enough = record {
    after = s;
    returns = settle_reversals_empty fuel s;
    run = done;
    same = λ t. refl;
    reasons = IsRefused-of_limits s s.rejected l;
  }
  settle_reversals_run zero (x ∷ pending) s h l enough = absurd (omega arith)
  settle_reversals_run (suc fuel) (x ∷ pending) s h l enough =
      let r = settle-Round_run policy Q stable (accepted_ids s) (x ∷ pending) s h (λ k c. c) in
      let untouched : All IsUnderLimit r.after.rejected = rw r.untouched l in
      elim (Bool-cases r.accepted) [
        | inl went ↦
            let o = settle_reversals_run fuel r.next r.after r.kept untouched (
              let less : length r.next + 1 ≤ length (x ∷ pending) = rw went at r.shrinks in
              omega arith) in
            record {
              after = o.after;
              returns =
                  settle_reversals_goes fuel x pending s r.after r.next o.after
                    (rw went at r.returns) o.returns;
              run = Moves-trans policy Q r.run o.run;
              same = λ t. omega (arith, o.same t, r.same t);
              reasons = o.reasons;
            }
        | inr stopped ↦
            let (same, stuck) = r.stuck stopped in
            record {
              after = reject_reversals r.next r.after;
              returns =
                  settle_reversals_stops fuel x pending s r.after r.next (rw stopped at r.returns);
              run = more r.run (leaves r.next);
              same = λ t. rw map-append (
                  rw map-refused (
                    omega (arith, r.same t, count-append t (map refused r.after.rejected) r.next)));
              reasons =
                  All-append _ r.after.rejected _
                    (IsRefused-of_limits (reject_reversals r.next r.after) r.after.rejected
                      untouched)
                    (IsRefused-of_stuck (reject_reversals r.next r.after) r.next (
                      subst (λ z. All (λ t. names_accepted (accepted_ids z) t ≡ false) r.next)
                        (sym same) stuck));
            }
      ]
