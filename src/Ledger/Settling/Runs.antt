-- ===== src/Ledger/Settling/Runs.antt =====
-- Both phases end without an error on transfers in normal form, as runs of moves that lose and
-- invent no transfer.
use peer_hours.Prelude.{
  ℕ, ◌+◌, ◌≤◌, ◌≡◌, refl, inl, inr, Bool, true, false, String, none, some, List, [], ◌∷◌, ◌++◌, map,
  length, arith, contains, contains-append_left, count, hit, count-append, text_equality,
  if◌then◌else◌, Bool-cases, Option-cases, All, All-append, ok,
}
use mathlib.Core.List.{map-append}
use peer_hours.Ledger.Types.{
  Transfer, LedgerPolicy, RejectedTransfer, minimum_balance, Transfer-discrete,
}
use peer_hours.Ledger.Balances.{would_cross_minimum_balance}
use peer_hours.Ledger.Settling.{
  Progress, accept_transfer, reject, settle_one, settle_ordinary, names_accepted, settle_round,
}
use peer_hours.Ledger.Settling.Moves.{
  IsStable, accepted_after, accept_of_IsStable, accepted_ids, settles, declines, reverses, Moves,
  done, more, Moves-trans,
}

abbrev pub refused : RejectedTransfer → Transfer
refused r = r.transfer

-- How often a transfer stands among those that wait and those that are decided.
abbrev pub weight : Transfer → List Transfer → Progress → ℕ
weight t waiting s = count t waiting + count t s.accepted + count t (map refused s.rejected)

abbrev pub IsUnderLimit : RejectedTransfer → Type 0
IsUnderLimit r = r.reason ≡ minimum_balance

settle_one_waits :
    (policy : LedgerPolicy) (x : Transfer) (waiting : List Transfer) (s : Progress) (id : String)
    → x.reverses_transfer_id ≡ some id
    → settle_one policy x waiting s ≡ ok (waiting ++ x ∷ [], s)
unfolding settle_one
settle_one_waits policy x waiting s id e = ground arith

settle_one_declines :
    (policy : LedgerPolicy) (x : Transfer) (waiting : List Transfer) (s : Progress)
    → x.reverses_transfer_id ≡ none
    → would_cross_minimum_balance x s.balances policy ≡ true
    → settle_one policy x waiting s ≡ ok (waiting, reject x s)
unfolding settle_one
settle_one_declines policy x waiting s e over = ground arith

settle_one_settles :
    (policy : LedgerPolicy) (x : Transfer) (waiting : List Transfer) (s s' : Progress)
    → x.reverses_transfer_id ≡ none
    → would_cross_minimum_balance x s.balances policy ≡ false
    → accept_transfer x s ≡ ok s'
    → settle_one policy x waiting s ≡ ok (waiting, s')
unfolding settle_one
settle_one_settles policy x waiting s s' e within a = ground arith

settle_round_accepts :
    (ids : List String) (x : Transfer) (pending : List Transfer) (s s' : Progress)
    (next : List Transfer) (accepted : Bool) (after : Progress)
    → names_accepted ids x ≡ true
    → accept_transfer x s ≡ ok s'
    → settle_round ids pending s' ≡ ok (next, accepted, after)
    → settle_round ids (x ∷ pending) s ≡ ok (next, true, after)
unfolding settle_round
settle_round_accepts ids x pending s s' next accepted after n a r = ground arith

settle_round_keeps :
    (ids : List String) (x : Transfer) (pending : List Transfer) (s : Progress)
    (next : List Transfer) (accepted : Bool) (after : Progress)
    → names_accepted ids x ≡ false
    → settle_round ids pending s ≡ ok (next, accepted, after)
    → settle_round ids (x ∷ pending) s ≡ ok (x ∷ next, accepted, after)
unfolding settle_round
settle_round_keeps ids x pending s next accepted after n r = ground arith

module _ (policy : LedgerPolicy) (Q : Transfer → Type 0)
    (stable : (t : Transfer) → Q t → IsStable t) where
  pub record Ordinary (given waiting : List Transfer) (s : Progress) : Type 0 where
    pub reversals : List Transfer
    pub after : Progress
    pub returns : settle_ordinary policy given waiting s ≡ ok (reversals, after)
    pub run : Moves policy Q s after
    pub kept : All Q reversals
    pub same : (t : Transfer) → weight t reversals after ≡ count t given + weight t waiting s
    pub limits : All IsUnderLimit after.rejected

  Ordinary-cons :
      (x : Transfer) (given waiting waiting' : List Transfer) (s s' : Progress)
      → settle_one policy x waiting s ≡ ok (waiting', s')
      → Moves policy Q s s'
      → ((t : Transfer) → weight t waiting' s' ≡ hit t x + weight t waiting s)
      → Ordinary given waiting' s'
      → Ordinary (x ∷ given) waiting s
  Ordinary-cons x given waiting waiting' s s' e m w o = record {
    reversals = o.reversals;
    after = o.after;
    returns = unfold settle_ordinary in rw e o.returns;
    run = Moves-trans policy Q m o.run;
    kept = o.kept;
    same = λ t. omega (arith, w t, o.same t);
    limits = o.limits;
  }

  pub settle-Ordinary_run :
      (given waiting : List Transfer) (s : Progress)
      → All Q given
      → All Q waiting
      → All IsUnderLimit s.rejected
      → Ordinary given waiting s
  settle-Ordinary_run [] waiting s h k l = record {
    reversals = waiting;
    after = s;
    returns = unfold settle_ordinary in refl;
    run = done;
    kept = k;
    same = λ t. omega arith;
    limits = l;
  }
  settle-Ordinary_run (x ∷ given) waiting s (q, h) k l =
      elim (Option-cases x.reverses_transfer_id) [
        | inr (id, e) ↦
            Ordinary-cons x given waiting (waiting ++ x ∷ []) s s
              (settle_one_waits policy x waiting s id e) done
              (λ t. omega (arith, count-append t waiting (x ∷ [])))
              (settle-Ordinary_run given (waiting ++ x ∷ []) s h
                (All-append Q waiting (x ∷ []) k (q, tt)) l)
        | inl e ↦ elim (Bool-cases (would_cross_minimum_balance x s.balances policy)) [
          | inl over ↦
              Ordinary-cons x given waiting waiting s (reject x s)
                (settle_one_declines policy x waiting s e over) (more done (declines x q over))
                (λ t.
                  rw map-append (omega (arith, count-append t (map refused s.rejected) (x ∷ []))))
                (settle-Ordinary_run given waiting (reject x s) h k
                  (All-append IsUnderLimit s.rejected _ l (refl, tt)))
          | inr within ↦
              Ordinary-cons x given waiting waiting s (accepted_after x s)
                (settle_one_settles policy x waiting s _ e within
                  (accept_of_IsStable x s (stable x q)))
                (more done (settles x q e within))
                (λ t. omega (arith, count-append t s.accepted (x ∷ [])))
                (settle-Ordinary_run given waiting (accepted_after x s) h k l)
        ]
      ]

  still_named :
      (ids : List String) (x : Transfer) (s : Progress)
      → ((k : String) → contains ids k ≡ true → contains (accepted_ids s) k ≡ true)
      → names_accepted ids x ≡ true
      → names_accepted (accepted_ids s) x ≡ true
  still_named ids x s known named = elim (Option-cases x.reverses_transfer_id) [
    | inl e ↦ absurd (ground arith)
    | inr (k, e) ↦ ground (arith, known k)
  ]

  pub record Round (ids : List String) (pending : List Transfer) (s : Progress) : Type 0 where
    pub next : List Transfer
    pub accepted : Bool
    pub after : Progress
    pub returns : settle_round ids pending s ≡ ok (next, accepted, after)
    pub run : Moves policy Q s after
    pub kept : All Q next
    pub same : (t : Transfer) → weight t next after ≡ weight t pending s
    pub untouched : after.rejected ≡ s.rejected
    pub shrinks : length next + (if accepted then 1 else 0) ≤ length pending
    pub stuck : accepted ≡ false → (after ≡ s) × All (λ t. names_accepted ids t ≡ false) next

  pub settle-Round_run :
      (ids : List String) (pending : List Transfer) (s : Progress)
      → All Q pending
      → ((k : String) → contains ids k ≡ true → contains (accepted_ids s) k ≡ true)
      → Round ids pending s
  settle-Round_run ids [] s h known = record {
    next = [];
    accepted = false;
    after = s;
    returns = unfold settle_round in refl;
    run = done;
    kept = tt;
    same = λ t. refl;
    untouched = refl;
    shrinks = omega arith;
    stuck = λ _. (refl, tt);
  }
  settle-Round_run ids (x ∷ pending) s (q, h) known = elim (Bool-cases (names_accepted ids x)) [
    | inl named ↦
        let r = settle-Round_run ids pending (accepted_after x s) h (λ k c.
          rw map-append (contains-append_left (accepted_ids s) (x.id ∷ []) k (known k c))) in
        record {
          next = r.next;
          accepted = true;
          after = r.after;
          returns =
              settle_round_accepts ids x pending s _ r.next r.accepted r.after named
                (accept_of_IsStable x s (stable x q)) r.returns;
          run =
              Moves-trans policy Q (more done (reverses x q (still_named ids x s known named)))
                r.run;
          kept = r.kept;
          same = λ t. omega (arith, r.same t, count-append t s.accepted (x ∷ []));
          untouched = r.untouched;
          shrinks = omega (arith, r.shrinks);
          stuck = λ e. cc;
        }
    | inr other ↦
        let r = settle-Round_run ids pending s h known in
        record {
          next = x ∷ r.next;
          accepted = r.accepted;
          after = r.after;
          returns = settle_round_keeps ids x pending s r.next r.accepted r.after other r.returns;
          run = r.run;
          kept = (q, r.kept);
          same = λ t. omega (arith, r.same t);
          untouched = r.untouched;
          shrinks = omega (arith, r.shrinks);
          stuck = λ e. let (same, rest) = r.stuck e in (same, (other, rest));
        }
  ]
