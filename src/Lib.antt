-- ===== src/Lib.antt =====
-- A model of Peer Hours, a local-first timebank, and of the rules that its packages enforce.
--
-- Parts. Members publish listings and agree on exchanges (packages/timebank-domain). A completed
-- exchange becomes a transfer, and every peer derives the same ledger from the transfers that
-- reached it (packages/timebank-ledger). Between the two stands packages/timebank-settlement:
-- both participants acknowledge the exchange, each attests the terms that the proposal
-- determines, and the transfer is composed of these.
--
-- Each of these facts travels between peers as a record, an envelope around a JSON payload
-- (packages/timebank-records). An encoder writes a domain value into an envelope, a decoder
-- checks an envelope that was received and reads the value back, and a reduction turns the
-- records of a community, in whatever order and however often they arrive, into one list of
-- values.
--
-- A member owns its identity: the member id comes from a root key, which signs where the
-- member's feed is and which keys the member signs with (packages/timebank-identity). Members
-- sign their records with these keys.
--
-- A whole history of records resolves to one state of a community: its authorizations, listings,
-- proposals and settlements, and the ledger. It applies every reduction, and admits a domain
-- record only where its author signed it with an authorized key. Where records come with the
-- feeds that they were read from, a member's records count only in the feeds that the member
-- declared.
--
-- A runtime (packages/peer-runtime) takes the community that it joins from the manifest of a
-- bootstrap endpoint, caches and relays the announcements of feeds, and verifies the receipts
-- that community nodes sign for the transfers that they retain.
--
-- Not modelled: of packages/peer-runtime, the record store and the community genesis, which come
-- next, and the connections, the status and the input and output of a runtime, which go through
-- packages outside the repository; and apps, which are user interfaces and processes around
-- these packages.
--
-- Files.
--   Prelude: shared names, Boolean tests, results with the errors of all packages, lists,
--     integers.
--   Script: what the TypeScript code takes from its language. Script/Text has `trim().length`
--     and the length in UTF-16 code units; Script/Number the numbers; Script/Map a `Map` in
--     insertion order; Script/Sort `Array.prototype.sort`, which is stable; Script/Order the
--     order of `sort` without a comparator; Script/Collation `localeCompare` as a parameter with
--     the laws ECMA-402 asks of it; Script/Collect the loop that checks each input, refuses a
--     second one of different content under one key, and fills a `Map`; Script/Hex hexadecimal
--     keys and `toLowerCase`.
--   Domain: packages/timebank-domain/src/index.ts. Domain/Types has the records; Domain/Listings
--     createMemberProfile, createOffer, createRequest, publishListing and closeListing;
--     Domain/Proposals proposeExchange and acceptExchangeProposal.
--   Ledger: packages/timebank-ledger/src/index.ts. Ledger/Types has the records;
--     Ledger/Transfers createTransferTerms, createTransfer and derivePostings; Ledger/Balances
--     applyPostings and wouldCrossMinimumBalance; Ledger/Settling the two phases of
--     applyTransfers; Ledger/Apply its checks and the whole of it.
--   Identity: of packages/timebank-identity/src/index.ts, Identity/Payload has
--     transferPayloadDigest and Identity/Events createMemberSigningKeyAuthorization,
--     createMemberSigningKeyAuthorizationEvent and reduceMemberSigningKeyAuthorizationEvents
--     (create_authorization, create_event, reduce_events), and Identity/Verifier
--     createEd25519MemberSignatureVerifier, createEd25519SignatureVerifier and
--     assertAuthorizedTransferAttestations (verify_member_signature, verify_attestation,
--     assert_authorized_attestations); Identity/Owned has createSelfOwnedMemberIdentity,
--     createMemberFeedDeclaration, createMemberFeedAnnouncement and
--     createRootSignedMemberSigningKeyLifecycle (create_declaration, create_announcement,
--     create_lifecycle), Identity/Lifecycles reduceRootSignedMemberSigningKeyLifecycles
--     (reduce_lifecycles), and Identity/Attesting createParticipantTransferAttestation.
--   Settlement: Settlement/Acknowledgements is packages/timebank-settlement/src/
--     settlement-acknowledgement.ts; of packages/timebank-settlement/src/index.ts,
--     Settlement/Transfers has createDualConfirmedSettlementTransfer, its terms and its
--     validation (create_confirmed_transfer, create_settlement_terms,
--     validate_confirmed_transfer) and Settlement/Attestations
--     createSettlementTransferAttestation, validateSettlementTransferAttestation and
--     resolveSettlementTransferAttestations (create_attestation, validate_attestation,
--     resolve_attestations); Settlement/Transfers/Authorized has
--     validateAuthorizedDualConfirmedSettlementTransfer.
--   Records: packages/timebank-records/src. Records/Json has the JSON values and normalizeJson
--     of envelope.ts, Records/Envelope its createRecordEnvelope and reduceRecordEnvelopes
--     (create_record_envelope, reduce_record_envelopes). Records/Timebank is
--     timebank-records.ts: what its encoders (to_record), decoders (decode_record) and
--     reductions (reduce_records) share stands in that file, with a form for each kind of
--     record; Records/Timebank/Listings, Proposals, Transfers and Settlements have the forms,
--     with the encoder, the decoder and the reduction of each kind. Records/Signed is
--     member-signed-record.ts, Records/Declarations self-owned-identity-records.ts,
--     Records/KeyEvents identity-records.ts and Records/KeyLifecycles
--     root-signed-key-lifecycle-records.ts. Records/Resolve, with Admission for the checks of
--     signed records, attestations and settlements, Settled and Admitted for what they
--     establish, and State for resolveTimebankRecords (resolve_timebank_records), is resolve.ts;
--     its parameters are the fields of Runtime. Records/Feeds is feed-resolution.ts
--     (resolve_timebank_member_feeds).
--   Peers: packages/peer-runtime/src. Peers/Receipts is replication-receipt.ts
--     (verify_replication_receipt, create_replication_receipt); its parameters are the fields of
--     Platform. Of index.ts, Peers/Manifest has parseCommunityManifest, Peers/Roster
--     parseCommunityPeerRoster, Peers/State the fields of PeerRuntime that its modelled methods
--     read and write, Peers/Bootstrap normalizeBootstrapUrls, fetchBootstrapKey and
--     refreshCommunityPeers, whose endpoints are functions from their URLs to answers, and
--     Peers/Announcements publishMemberFeedAnnouncement, receiveMemberFeedAnnouncement,
--     broadcastMemberFeedAnnouncements and knownMemberFeeds.
--   Tests: the theorems at concrete inputs.
-- A function `fooBar` of the source is `foo_bar` here. A function that throws returns a
-- `Result`, whose errors name the rule in place of the message. Inputs have the types that the
-- source declares, so its tests for values of other types are left out, except in Records: what
-- is read there is any JSON value, as it is in Peers/Receipts and Peers/Manifest. Freezing has
-- no counterpart, since values do not change.
--
-- Numbers. A JavaScript number is a whole number, a fraction between two whole numbers, an
-- infinity or NaN; minus zero is zero. Sums are exact, as they are in the program while no
-- balance passes 2 ^ 53 minutes.
--
-- Texts are sequences of Unicode scalar values, so lone surrogates are not modelled. Two values
-- whose `JSON.stringify` texts are compared are compared as values. This takes the keys of an
-- object to stand in the one order of its interface; objects that list the same fields in
-- another order have another text. The keys of an index join ids with NUL characters; nothing in
-- the program keeps such a character out of an id, so what is said of an id found by its key
-- asks that the ids of the authorizations hold none (Script/Text/Separated).
--
-- `balances` in the ledger is a plain object. It is modelled with the members that it inherits
-- from Object.prototype, whose names are therefore not safe as member ids.
--
-- Fuel. The loop over pending reversals ends after a round that accepts none, so their number is
-- fuel enough.
--
-- Parameters. The signature verifier is any function that may throw. The collation is any total
-- preorder on texts. The digest of the settlement terms is any function of them to texts. The
-- parser of public keys is any function from texts to fingerprints that may fail, the tests of
-- dates and of signature texts any tests of texts, and the Ed25519 verification any function of
-- what is signed, of key and signature that may throw: the bytes that are signed are a function
-- of the fields, so a record of the fields stands for them. The hash in a member id is any
-- function of the parsed key, `Date.parse` any function to whole numbers, and the key custodian
-- any function that may throw.
pub mod Prelude
pub mod Script
pub mod Domain
pub mod Ledger
pub mod Identity
pub mod Settlement
pub mod Records
pub mod Peers
pub mod Tests
