-- ===== src/Tests/Ledger.antt =====
-- A ledger of two members, and one with a member called "toString".
use peer_hours.Prelude.{
  ◌+ℤ◌, ◌-ℤ◌, ◌≡◌, ◌≢◌, ◌⊎◌, inl, refl, String, Option, none, some, [], ◌∷◌, map, ok, true, pos,
  negsuc, ℤ, ◌+◌, ◌≤ℤ◌, Occurs, here, there, Occurs-nil, SameSet, SameSet-turned, All, count,
  String-discrete, ℤ-discrete, ℕ_discrete, Ordering,
}
use peer_hours.Script.Text.{is_blank}
use peer_hours.Script.Number.{
  whole, is_bad_amount, is_finite, is_integer, less, strictly_equal, Number-discrete,
}
use peer_hours.Script.Map.{get, set}
use peer_hours.Script.Sort.{sort}
use peer_hours.Script.Collation.{before, length_collation}
use peer_hours.Script.Collect.{collect}
use peer_hours.Ledger.Types.{
  TransferAttestation, TransferTerms, Transfer, Ledger, SignatureVerifier, Transfer-discrete,
  number, text, unaccepted_reversal, minimum_balance, RejectedTransfer,
}
use peer_hours.Ledger.Transfers.{
  create_transfer, create_transfer_terms, assert_attestation, normalize_attestations,
  derive_postings,
}
use peer_hours.Ledger.Transfers.Normal.{IsNormal, create_transfer-IsNormal}
use peer_hours.Ledger.Balances.{is_inherited, read, apply_postings, would_cross_minimum_balance}
use peer_hours.Ledger.Balances.Laws.{total, moved, HasNumbers, IsPlain}
use peer_hours.Ledger.Settling.{
  settle_ordinary, settle_reversals, settle_round, accept_transfer, Progress,
}
use peer_hours.Ledger.Settling.Runs.{refused}
use peer_hours.Ledger.Apply.{
  admit, verify_transfer, transfers_by_id, assert_unique_settlements, assert_valid_reversals,
  settle, default_policy, normalize_ledger_policy, apply_transfers,
}
use peer_hours.Ledger.Apply.Terminates.{settle_terminates}
use peer_hours.Ledger.Apply.OrderFree.{apply_transfers_same}
use peer_hours.Ledger.Apply.Accounts.{
  standing, IsPlainTransfer, apply_transfers-standing, apply_transfers-total,
}
use peer_hours.Ledger.Apply.Decisions.{apply_transfers-decides}
use peer_hours.Ledger.Apply.Decisions.{IsDecided}
use peer_hours.Ledger.Apply.Checked.{
  MovesBack, apply_transfers-settles_once, apply_transfers-mirrors,
}
use peer_hours.Ledger.Apply.Credit.{floor, apply_transfers-floor}
use peer_hours.Ledger.Apply.Inherited.{apply_transfers-unlimited}

opened : Unit {0}
unfolding is_blank is_bad_amount is_finite is_integer less strictly_equal get set sort before
    collect create_transfer create_transfer_terms assert_attestation normalize_attestations
    derive_postings is_inherited read apply_postings would_cross_minimum_balance settle_ordinary
    settle_reversals settle_round accept_transfer admit verify_transfer transfers_by_id
    assert_unique_settlements assert_valid_reversals settle normalize_ledger_policy apply_transfers
    String-discrete ℤ-discrete ℕ_discrete Transfer-discrete ◌+ℤ◌ ◌-ℤ◌
opened = tt

abbrev trusting : SignatureVerifier
trusting t a = ok true

abbrev signed : String → TransferAttestation
signed member = record { member_id = member; key_id = "k"; payload_digest = "d"; signature = "s" }

abbrev terms : String → Option String → String → String → ℤ → Option String → TransferTerms
terms id source provider recipient minutes reversed = record {
  id = id;
  community_id = "c";
  source_proposal_id = source;
  provider_member_id = provider;
  recipient_member_id = recipient;
  minutes = whole minutes;
  reverses_transfer_id = reversed;
}

abbrev help : Transfer
help = record {
  terms = terms "t" (some "p") "ann" "bob" (pos 60) none;
  attestations = signed "bob" ∷ signed "ann" ∷ [];
}

abbrev settled_help : Transfer
settled_help = record help { attestations = signed "ann" ∷ signed "bob" ∷ [] }

abbrev undo : Transfer
undo = record {
  terms = terms "undo" none "bob" "ann" (pos 60) (some "t");
  attestations = signed "bob" ∷ signed "ann" ∷ [];
}

create_transfer-IsNormal_example :
    (settled_help.terms ≡ help.terms)
    × SameSet settled_help.attestations help.attestations
    × IsNormal settled_help
unfolding opened
create_transfer-IsNormal_example = create_transfer-IsNormal help settled_help refl

abbrev both : Ledger
both = record {
  community_id = "c";
  transfers = settled_help ∷ undo ∷ [];
  rejected_transfers = [];
  postings =
      record { transfer_id = "t"; member_id = "ann"; minutes = pos 60 }
      ∷ record { transfer_id = "t"; member_id = "bob"; minutes = negsuc 59 }
      ∷ record { transfer_id = "undo"; member_id = "bob"; minutes = pos 60 }
      ∷ record { transfer_id = "undo"; member_id = "ann"; minutes = negsuc 59 }
      ∷ [];
  balances = ("ann", number (pos 0)) ∷ ("bob", number (pos 0)) ∷ [];
}

both_applied : apply_transfers length_collation "c" (undo ∷ help ∷ []) trusting ≡ ok both
unfolding opened
both_applied = refl

-- What holds of both holds of every item of the pair.
pair_items :
    (P : Transfer → Type 0) → P undo → P help → (t : Transfer) → Occurs t (undo ∷ help ∷ []) → P t
pair_items P p q t (here e) = rw e p
pair_items P p q t (there (here e)) = rw e q
pair_items P p q t (there (there o)) = absurd (Occurs-nil o)

pair_apart :
    (s t : Transfer)
    → Occurs s (undo ∷ help ∷ [])
    → Occurs t (undo ∷ help ∷ [])
    → s.id ≢ t.id
    → length_collation.locale_compare s.id t.id ≢ Ordering.eq
pair_apart s t o p =
    pair_items (λ x. x.id ≢ t.id → length_collation.locale_compare x.id t.id ≢ Ordering.eq)
      (pair_items (λ x. undo.id ≢ x.id → length_collation.locale_compare undo.id x.id ≢ Ordering.eq)
        (λ n e. n refl) (λ n e. cc) t p)
      (pair_items (λ x. help.id ≢ x.id → length_collation.locale_compare help.id x.id ≢ Ordering.eq)
        (λ n e. cc) (λ n e. n refl) t p)
      s o

pair_plain : (t : Transfer) → Occurs t (undo ∷ help ∷ []) → IsPlainTransfer t
unfolding opened
pair_plain t o =
    pair_items IsPlainTransfer (record { provider = refl; recipient = refl })
      (record { provider = refl; recipient = refl }) t o

apply_transfers_same_example :
    apply_transfers length_collation "c" (help ∷ undo ∷ help ∷ []) trusting ≡ ok both
apply_transfers_same_example =
    apply_transfers_same length_collation "c" (undo ∷ help ∷ []) (help ∷ undo ∷ help ∷ []) trusting
      both (SameSet-turned undo help) pair_apart both_applied

ann-IsPlain : IsPlain "ann"
unfolding opened
ann-IsPlain = refl

apply_transfers-standing_example : read both.balances "ann" ≡ number (standing "ann" both.transfers)
apply_transfers-standing_example =
    apply_transfers-standing length_collation "c" (undo ∷ help ∷ []) trusting both pair_plain
      both_applied "ann" ann-IsPlain

apply_transfers-total_example :
    HasNumbers both.balances × (total both.balances ≡ pos 0) × (moved both.postings ≡ pos 0)
apply_transfers-total_example =
    apply_transfers-total length_collation "c" (undo ∷ help ∷ []) trusting both pair_plain
      both_applied

help_created : create_transfer help ≡ ok settled_help
unfolding opened
help_created = refl

apply_transfers-decides_example :
    count settled_help both.transfers + count settled_help (map refused both.rejected_transfers) ≡ 1
apply_transfers-decides_example =
    apply_transfers-decides length_collation "c" (undo ∷ help ∷ []) trusting both both_applied help
      settled_help (there (here refl)) help_created

-- Two hours over the boundary: the second transfer is rejected.
abbrev large : Transfer
large = record {
  terms = terms "t" (some "p") "ann" "bob" (pos 2940) none;
  attestations = signed "ann" ∷ signed "bob" ∷ [];
}

abbrev larger : Transfer
larger = record large { terms = terms "later" (some "q") "ann" "bob" (pos 180) none }

abbrev capped : Ledger
capped = record {
  community_id = "c";
  transfers = large ∷ [];
  rejected_transfers = record { transfer = larger; reason = minimum_balance } ∷ [];
  postings =
      record { transfer_id = "t"; member_id = "ann"; minutes = pos 2940 }
      ∷ record { transfer_id = "t"; member_id = "bob"; minutes = negsuc 2939 }
      ∷ [];
  balances = ("ann", number (pos 2940)) ∷ ("bob", number (negsuc 2939)) ∷ [];
}

capped_applied : apply_transfers length_collation "c" (large ∷ larger ∷ []) trusting ≡ ok capped
unfolding opened
capped_applied = refl

capped_plain :
    (t : Transfer)
    → Occurs t (large ∷ larger ∷ [])
    → IsPlainTransfer t × (t.reverses_transfer_id ≡ none)
unfolding opened
capped_plain t (here e) = rw e (record { provider = refl; recipient = refl }, refl)
capped_plain t (there (here e)) = rw e (record { provider = refl; recipient = refl }, refl)
capped_plain t (there (there o)) = absurd (Occurs-nil o)

bob-IsPlain : IsPlain "bob"
unfolding opened
bob-IsPlain = refl

apply_transfers-floor_example : (z : ℤ) × (read capped.balances "bob" ≡ number z) × (floor ≤ℤ z)
apply_transfers-floor_example =
    apply_transfers-floor length_collation "c" (large ∷ larger ∷ []) trusting capped "bob"
      capped_plain capped_applied bob-IsPlain

-- A member called "toString" receives sixty hours.
abbrev boundless : Transfer
boundless = record {
  terms = terms "t" (some "p") "ann" "toString" (pos 3600) none;
  attestations = signed "ann" ∷ signed "toString" ∷ [];
}

abbrev unlimited : Ledger
unlimited = record {
  community_id = "c";
  transfers = boundless ∷ [];
  rejected_transfers = [];
  postings =
      record { transfer_id = "t"; member_id = "ann"; minutes = pos 3600 }
      ∷ record { transfer_id = "t"; member_id = "toString"; minutes = negsuc 3599 }
      ∷ [];
  balances = ("ann", number (pos 3600)) ∷ ("toString", text) ∷ [];
}

unlimited_applied : apply_transfers length_collation "c" (boundless ∷ []) trusting ≡ ok unlimited
unfolding opened
unlimited_applied = refl

to_string_inherits : is_inherited "toString" ≡ true
unfolding opened
to_string_inherits = refl

apply_transfers-unlimited_example :
    (read unlimited.balances "toString" ≡ text)
    × All
        (λ (r : RejectedTransfer).
          (r.reason ≡ unaccepted_reversal) ⊎ (r.transfer.recipient_member_id ≢ "toString"))
        unlimited.rejected_transfers
apply_transfers-unlimited_example =
    apply_transfers-unlimited "toString" to_string_inherits length_collation "c" (boundless ∷ [])
      trusting unlimited unlimited_applied

apply_transfers-settles_once_example : settled_help ≡ settled_help
apply_transfers-settles_once_example =
    apply_transfers-settles_once length_collation "c" (undo ∷ help ∷ []) trusting both both_applied
      settled_help settled_help "p" (inl (here refl)) (inl (here refl)) (refl, refl) (refl, refl)

apply_transfers-mirrors_example :
    (v : Transfer) × IsDecided length_collation "c" (undo ∷ help ∷ []) trusting both both_applied v
    × (v.id ≡ "t")
    × MovesBack undo v
apply_transfers-mirrors_example =
    apply_transfers-mirrors length_collation "c" (undo ∷ help ∷ []) trusting both both_applied undo
      "t" (inl (there (here refl))) refl

settle_terminates_example :
    (after : Progress) × (settle default_policy (undo ∷ settled_help ∷ []) ≡ ok after)
    × ((t : Transfer)
        → count t after.accepted + count t (map refused after.rejected)
          ≡ count t (undo ∷ settled_help ∷ []))
unfolding opened
settle_terminates_example =
    settle_terminates default_policy (undo ∷ settled_help ∷ []) (refl, (refl, tt))
