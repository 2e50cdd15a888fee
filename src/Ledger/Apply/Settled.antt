-- ===== src/Ledger/Apply/Settled.antt =====
-- What `applyTransfers` settles: its result in terms of the run of the settling.
use mathlib.Core.Path.{subst}
use peer_hours.Prelude.{
  ◌≡◌, String, List, [], length, arith, Occurs, count, All, All-of_Occurs, ok, >>=-eq-ok, ledger,
  conflicting_id,
}
use peer_hours.Script.Map.{Map, values}
use peer_hours.Script.Number.{is_finite, is_integer, less}
use peer_hours.Script.Sort.{sort}
use peer_hours.Script.Sort.Laws.{sort-Occurs}
use peer_hours.Script.Collation.{Collation}
use peer_hours.Script.Collect.{Occurs-values_iff}
use peer_hours.Ledger.Types.{Transfer, LedgerPolicy, Ledger, SignatureVerifier, Transfer-discrete}
use peer_hours.Ledger.Transfers.{create_transfer, assert_present}
use peer_hours.Ledger.Settling.{Progress, start, transfer_id}
use peer_hours.Ledger.Settling.Moves.{IsStable, Moves, Moves-trans}
use peer_hours.Ledger.Settling.Runs.{weight, settle-Ordinary_run}
use peer_hours.Ledger.Settling.Outcome.{IsRefused, settle_reversals_run}
use peer_hours.Ledger.Apply.{
  admit, transfers_by_id, by_id_order, default_policy, normalize_ledger_policy, settle,
  assert_unique_settlements, assert_valid_reversals, apply_transfers,
}
use peer_hours.Ledger.Apply.OrderFree.{admit-eq-create}

module _ (policy : LedgerPolicy) (Q : Transfer → Type 0)
    (stable : (t : Transfer) → Q t → IsStable t) where
  pub record Settled (ts : List Transfer) : Type 0 where
    pub after : Progress
    pub returns : settle policy ts ≡ ok after
    pub run : Moves policy Q start after
    pub same : (t : Transfer) → weight t [] after ≡ count t ts
    pub reasons : All (IsRefused after) after.rejected

  pub settle_run : (ts : List Transfer) → All Q ts → Settled ts
  settle_run ts h =
      let o = settle-Ordinary_run policy Q stable ts [] start h tt tt in
      let r =
        settle_reversals_run policy Q stable (length o.reversals) o.reversals o.after o.kept
          o.limits (omega arith) in
      record {
        after = r.after;
        returns = unfold settle in rw o.returns r.returns;
        run = Moves-trans policy Q o.run r.run;
        same = λ t. omega (arith, r.same t, o.same t);
        reasons = r.reasons;
      }

module _ (c : Collation) (community : String) (ts : List Transfer)
    (verify : SignatureVerifier) where
  -- The stages of a successful application.
  pub record Applied (l : Ledger) : Type 0 where
    pub by_id : Map Transfer
    pub after : Progress
    pub collected : transfers_by_id community verify ts ≡ ok by_id
    pub unique : assert_unique_settlements [] (sort (by_id_order c) (values by_id)) ≡ ok tt
    pub reversible : assert_valid_reversals by_id (sort (by_id_order c) (values by_id)) ≡ ok tt
    pub settled : settle default_policy (sort (by_id_order c) (values by_id)) ≡ ok after
    pub transfers : l.transfers ≡ sort (by_id_order c) after.accepted
    pub rejected : l.rejected_transfers ≡ after.rejected
    pub postings : l.postings ≡ after.postings
    pub balances : l.balances ≡ after.balances

  pub applied : (l : Ledger) → apply_transfers c community ts verify ≡ ok l → Applied l
  unfolding apply_transfers normalize_ledger_policy is_finite is_integer less
  applied l h =
      let (_, _, h₁) = >>=-eq-ok (assert_present community "Community id") _ h in
      let (by_id, e, h₂) = >>=-eq-ok (transfers_by_id community verify ts) _ h₁ in
      let sorted = sort (by_id_order c) (values by_id) in
      let (_, u, h₃) = >>=-eq-ok (assert_unique_settlements [] sorted) _ h₂ in
      let (_, r, h₄) = >>=-eq-ok (assert_valid_reversals by_id sorted) _ h₃ in
      let (after, f, h₅) = >>=-eq-ok (settle default_policy sorted) _ h₄ in
      record {
        by_id = by_id;
        after = after;
        collected = e;
        unique = u;
        reversible = r;
        settled = f;
        transfers = ground arith;
        rejected = ground arith;
        postings = ground arith;
        balances = ground arith;
      }

  -- Every sorted transfer was created from one of the given.
  pub sorted_source :
      (by_id : Map Transfer) (u : Transfer)
      → transfers_by_id community verify ts ≡ ok by_id
      → Occurs u (sort (by_id_order c) (values by_id))
      → (t : Transfer) × Occurs t ts × (create_transfer t ≡ ok u)
  unfolding transfers_by_id
  sorted_source by_id u h o =
      let (t, at, e) =
        (Occurs-values_iff (admit community verify) transfer_id (ledger conflicting_id) ts by_id u
            h).0
          (sort-Occurs (by_id_order c) (values by_id) o) in
      (t, at, admit-eq-create community verify t u e)

  -- What holds of every created transfer holds of every sorted one.
  pub sorted-All :
      (Q : Transfer → Type 0) (by_id : Map Transfer)
      → ((t u : Transfer) → Occurs t ts → create_transfer t ≡ ok u → Q u)
      → transfers_by_id community verify ts ≡ ok by_id
      → All Q (sort (by_id_order c) (values by_id))
  sorted-All Q by_id q h =
      All-of_Occurs Q _ λ u o. let (t, at, e) = sorted_source by_id u h o in q t u at e

  -- A successful application is a run of moves over transfers in normal form.
  pub applied_run :
      (Q : Transfer → Type 0) (l : Ledger)
      → ((t u : Transfer) → Occurs t ts → create_transfer t ≡ ok u → Q u)
      → ((t : Transfer) → Q t → IsStable t)
      → (a : Applied l)
      → Moves default_policy Q start a.after
        × All (IsRefused a.after) a.after.rejected
        × ((t : Transfer) → weight t [] a.after ≡ count t (sort (by_id_order c) (values a.by_id)))
  applied_run Q l q stable a =
      let s = settle_run default_policy Q stable _ (sorted-All Q a.by_id q a.collected) in
      let same : s.after ≡ a.after = cc (s.returns, a.settled) in
      subst
        (λ x.
          Moves default_policy Q start x
          × All (IsRefused x) x.rejected
          × ((t : Transfer) → weight t [] x ≡ count t (sort (by_id_order c) (values a.by_id))))
        same (s.run, s.reasons, s.same)
