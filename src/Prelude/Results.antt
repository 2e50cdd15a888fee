-- ===== src/Prelude/Results.antt =====
-- Exceptions as values. Each package has its own class of errors; the message of an error is a
-- constructor, and the label that a message is built from is kept.
use Prim.Native.String.{String}
use mathlib.Core.Path.{◌≡◌, refl}
use mathlib.Core.Logic.{◌⊎◌, inl, inr}
use mathlib.Core.Bool.{Bool, true, false}

pub data DomainRule : Type 0 where
  required : String → DomainRule
  only_drafts only_published bad_description not_owner : DomainRule
  wrong_kinds other_community not_published same_member too_many_minutes bad_minutes : DomainRule
  not_proposed proposal_mismatch not_creator not_other_participant : DomainRule

pub data LedgerRule : Type 0 where
  required : String → LedgerRule
  bad_minutes same_member reverses_itself two_attestations unrelated_signer : LedgerRule
  attests_twice both_attestations foreign_transfer unverifiable unverified : LedgerRule
  conflicting_id unknown_original wrong_reversal no_proposal settled_twice bad_policy : LedgerRule

pub data AcknowledgementRule : Type 0 where
  required : String → AcknowledgementRule
  bad_minutes not_accepted not_participant wrong_id wrong_terms : AcknowledgementRule
  conflicting : AcknowledgementRule

pub data SettlementRule : Type 0 where
  not_accepted is_reversal wrong_proposal wrong_community wrong_participants : SettlementRule
  wrong_minutes not_confirmed not_participant wrong_digest premature : SettlementRule
  conflicting wrong_container wrong_id required_proposal required_ids : SettlementRule

pub data IdentityRule : Type 0 where
  required : String → IdentityRule
  bad_key bad_timestamp bad_action bad_schema wrong_owner bad_signature : IdentityRule
  conflicting_events reassigned_key retired_key not_participant cannot_sign : IdentityRule
  not_canonical unauthorized duplicate_key shared_key bad_feed_key expires_early : IdentityRule

pub data EnvelopeRule : Type 0 where
  required : String → EnvelopeRule
  bad_version bad_timestamp bad_number proto_key not_json conflicting : EnvelopeRule

pub data MappingRule : Type 0 where
  required bad_minutes not_object not_listing_kind not_published not_closing_id :
      String → MappingRule
  not_proposed not_accepted wrong_author wrong_kind wrong_id wrong_community : String → MappingRule
  foreign_record conflicting : String → MappingRule
  wrong_schema same_member not_participant wrong_acceptor bad_transfer bad_envelope : MappingRule

pub data SignedRecordRule : Type 0 where
  required : String → SignedRecordRule

pub data DeclarationRecordRule : Type 0 where
  bad_declaration mismatched conflicting : DeclarationRecordRule

pub data IdentityRecordRule : Type 0 where
  not_event bad_event wrong_kind wrong_id wrong_author : IdentityRecordRule
  wrong_community wrong_timestamp : IdentityRecordRule

pub data LifecycleRecordRule : Type 0 where
  bad_statement mismatched unproven : LifecycleRecordRule

pub data ResolutionRule : Type 0 where
  legacy_event unsigned_record bad_record_signature wrong_record_author : ResolutionRule
  unknown_listing unknown_proposal changed_terms bad_attestation rethrown : ResolutionRule

pub data FeedRule : Type 0 where
  bad_feed_key shared_feed_key undeclared_feed not_envelope : FeedRule

pub data ReceiptRule : Type 0 where
  required bad_digest bad_url : String → ReceiptRule
  bad_number not_json bad_key bad_time unsupported mismatched bad_signature : ReceiptRule

-- The runtime and its parsers throw plain errors; the label is the field that the message names.
pub data RuntimeRule : Type 0 where
  bad_field duplicate : String → RuntimeRule
  not_object incompatible no_member_feed foreign_feed expired : RuntimeRule

pub data Error : Type 0 where
  domain : DomainRule → Error
  ledger : LedgerRule → Error
  acknowledgement : AcknowledgementRule → Error
  settlement : SettlementRule → Error
  identity : IdentityRule → Error
  envelope : EnvelopeRule → Error
  mapping : MappingRule → Error
  signed_record : SignedRecordRule → Error
  declaration_record : DeclarationRecordRule → Error
  identity_record : IdentityRecordRule → Error
  lifecycle_record : LifecycleRecordRule → Error
  resolution : ResolutionRule → Error
  feed : FeedRule → Error
  receipt : ReceiptRule → Error
  runtime : RuntimeRule → Error
  -- No error of the program: a loop of the model ran out of its fuel.
  out_of_fuel : Error

pub data Result {ℓ} (A : Type ℓ) : Type ℓ where
  ok : A → Result A
  err : Error → Result A

-- `if (test) throw error;`
abbrev pub throw_if : Bool → Error → Result (Unit {0})
throw_if true error = err error
throw_if false error = ok tt

-- What follows runs where nothing was thrown.
infixl 5 ◌>>=◌ ◌>>◌
abbrev pub ◌>>=◌ {ℓ κ} : {S : Type ℓ} {T : Type κ} → Result S → (S → Result T) → Result T
err error >>= next = err error
ok value >>= next = next value

abbrev pub ◌>>◌ {ℓ} : {T : Type ℓ} → Result (Unit {0}) → Result T → Result T
first >> next = first >>= λ _. next

pub >>=-eq-ok {ℓ κ} :
    {S : Type ℓ} {T : Type κ} (r : Result S) (next : S → Result T) {t : T}
    → (r >>= next) ≡ ok t
    → (s : S) × (r ≡ ok s) × (next s ≡ ok t)
>>=-eq-ok (err error) next h = cc
>>=-eq-ok (ok value) next h = (value, refl, h)

pub Result-cases {ℓ} :
    {A : Type ℓ} (r : Result A) → ((a : A) × (r ≡ ok a)) ⊎ ((e : Error) × (r ≡ err e))
Result-cases (ok a) = inl (a, refl)
Result-cases (err e) = inr (e, refl)

pub eq_of_ok {ℓ} : {A : Type ℓ} (a b : A) → ok a ≡ ok b → a ≡ b
eq_of_ok a b h = cc

-- A guard that does not throw.
pub throw_if-ok {ℓ} :
    {T : Type ℓ} (test : Bool) (error : Error) (next : Result T) {t : T}
    → (throw_if test error >> next) ≡ ok t
    → (test ≡ false) × (next ≡ ok t)
throw_if-ok true error next h = cc
throw_if-ok false error next h = (refl, h)
