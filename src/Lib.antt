-- ===== src/Lib.antt =====
-- A model of the TypeScript packages of cardano-on-evm, which let a Cardano wallet own an account
-- on an EVM chain. A wallet proves that it holds a Cardano key by signing a challenge (CIP-8
-- message signature, CIP-30 `signData`); the enrollment service checks the signature and derives
-- the identity of the account from the key.
--
-- The parts, and the file that models each:
--
--   packages/wallet/src/bytes.ts      Wallet/Bytes.antt. fromHex, toHex, equalBytes, concatBytes are
--                                     from_hex, to_hex, equal_bytes, concat_bytes.
--   TextEncoder, TextDecoder          Wallet/Utf8.antt, after the Encoding standard, with the byte
--                                     order mark that the decoder drops.
--   packages/wallet/src/cbor.ts       Wallet/Cbor.antt. decodeCbor and encodeCbor are decode_cbor and
--                                     encode_cbor. The cursor of the closure is the list of bytes
--                                     left, passed from reader to reader. Numbers are integers.
--   packages/wallet/src/address.ts    Wallet/Address.antt. parse_cardano_address, assert_address_key.
--   packages/wallet/src/cip8.ts       Wallet/Cip8.antt. verifyCip8Signature is verify_cip8_signature,
--                                     in the stages read_message, check_content, read_key and
--                                     check_signature, in the order of the code.
--   packages/wallet/src/connector.ts  Wallet/Connector/Session.antt has the connection: its flag
--   and lace.ts                       `invalid`, the calls to the wallet, and the errors; the wallet
--                                     is any machine whose state changes with every call.
--                                     Wallet/Connector.antt has connectWallet and its operations
--                                     check_network, addresses and sign_data. connectLace and
--                                     connectEternl are connect_wallet at an identifier.
--   packages/enrollment/src/store.ts  Enrollment/Store.antt has the contract of a challenge store as a
--                                     record of operations and laws; Enrollment/Store/Memory.antt is
--                                     the Map.
--   packages/enrollment/src/sqlite.ts Enrollment/Store/Sqlite.antt. Each statement is a function on
--                                     the rows of the table.
--   packages/enrollment/src/service.ts
--                                     Enrollment/Payload.antt is `payload`, the JSON text that is
--                                     signed; Enrollment/Service.antt is createEnrollmentService with
--                                     issue and enroll. Enrolling is begin_enroll, which only reads
--                                     the store, then finish_enroll, which consumes the challenge:
--                                     requests that overlap are sequences of these steps
--                                     (Enrollment/Service/Schedule.antt). Enrollment/Handler.antt is
--                                     createEnrollmentHandler; a body is the chunks of its reader.
--   packages/enrollment/src/identity.ts
--                                     Enrollment/Identity.antt. deriveBackendTableIdentity with its
--                                     ABI words and recoverX are derive_backend_table_identity and
--                                     recover_x; the types are those of
--                                     packages/protocol/src/identity.ts. An index is not negative.
--                                     Enrollment/Identity/Profiles.antt is
--                                     deriveBackendProfileIdentity.
--   packages/enrollment/src/table-service.ts
--                                     Enrollment/TableService.antt. The two services with the scope
--                                     and the derivation of their configuration.
--   packages/protocol/src/index.ts    Protocol/Operation.antt. operationToJson, operationFromJson and
--                                     operationHash are operation_to_json, operation_from_json and
--                                     operation_hash. An operation is the list of its entries.
--                                     Protocol/Calls.antt is encodeCalls, decodeCalls and the wrapper
--                                     of a restricted execution. Protocol/Payload.antt has the payload
--                                     that a wallet signs for an operation, and validatorSignature.
--   packages/protocol/src/identity.ts Protocol/Identity.antt. deriveTableIdentity is
--                                     derive_table_identity, over the calls of viem.
--   packages/protocol/src/profiles.ts Protocol/Profiles.antt. profileConfigHash,
--                                     deriveProfileIdentity and the two policy encodings are
--                                     profile_config_hash, derive_profile_identity, target_allowlist
--                                     and selector_allowlist.
--   packages/sdk/src/index.ts         Sdk/Account.antt has the account of a verified key and
--                                     constructOperation; Sdk/Signing.antt has signOperation and
--                                     Sdk/Enrollment.antt has enrollCardanoAccount, over a wallet and
--                                     a transport that are machines.
--   packages/submission/src/index.ts  Submission/Inclusion.antt is inclusionFromReceipt;
--                                     Submission/Adapters.antt is submit and status of the bundler
--                                     adapters, bundler_submit and bundler_status, and of the direct
--                                     one, direct_submit and direct_status. An RPC is any machine
--                                     whose state changes with every request. Submission/Http.antt is
--                                     httpRpc, and httpEnrollmentTransport of the package sdk: what
--                                     they check of an endpoint and how they read a response.
--   infra/bundler/src/admission.mjs   Bundler/Admission.antt. admitOperation and decodeExecution are
--                                     admit_operation and decode_execution; Bundler/Verdict.antt has
--                                     the errors. Bundler/Policy.antt is validatePolicy.
--   infra/bundler/src/gateway.mjs     Bundler/Gateway.antt. A request changes the gateway when it
--                                     begins, begin_request, and when it ends, end_request;
--                                     check_body is what the handler checks between the two, and
--                                     read_upstream how the answer of the upstream counts.
--   infra/bundler/src/config.mjs      Bundler/Configuration.antt. validateConfig and credentials, on
--                                     JSON.
--   scripts/release/publish.mjs       Release/Publish.antt. checkReleaseState and publishCandidate are
--                                     check_release_state and publish_candidate; the remote is any
--                                     machine with the operations of githubPublisher.
--   scripts/release/candidate.mjs     Release/Candidate.antt has resolveNew and the checks of
--   and github.mjs                    github.mjs; Release/Candidate/Handoff.antt has readCandidate and
--                                     priorCandidate, where a directory is what is read of it.
--   scripts/lib/canonical-receipt.ts  Live/Receipt.antt. canonical_receipt; the client is any machine.
--   scripts/lib/live-context.ts       Live/Journal.antt is transact with the journal that it keeps in
--                                     memory and in its file. Live/Prepared.antt is matchesRuntime,
--                                     assertLiveConfig and verifyPreparedProfile, and
--                                     Live/Prepared/Context.antt the checks of liveContext.
--   scripts/lib/live-request.ts       Live/Request.antt. checkLiveRequest is check_live_request.
--   scripts/lib/wallet-metadata.ts    Live/Metadata.antt.
--   scripts/lib/live-evidence.ts      Live/Evidence.antt. list and capture over the files of requests
--                                     and signatures, which are lists.
--   scripts/lib/address-artifacts.ts  Live/Artifacts.antt. The identity of the compiled contracts and
--                                     the binding of a configuration to it.
--
-- A call that may throw returns a Result: `err` has the message of the Error. A Uint8Array is the
-- list of its bytes; a string is the list of its code points, and its length their number, which is
-- also the length in UTF-16 units of every text that is accepted as hexadecimal. Clock readings and
-- random bytes are arguments. The service takes any store that keeps the contract, the derivation
-- of the identity, and the scope as arguments.
--
-- Parameters that stand for code outside the repository: bech32 of @scure/base (Bech32), BLAKE2b
-- and Ed25519 of @noble (Crypto), Keccak-256, which returns bytes, and the affine coordinate of a
-- key, the URL parser, JSON.parse of a request, and JSON.stringify and JSON.parse on challenge
-- records, of which the SQLite store uses that a record read back is the record written. What the
-- later packages use of viem is the record Chain for submissions, Abi for admission, Codec for calls,
-- Viem for identities, and getAddress for operations; Sdk gathers them for the package sdk. The clients
-- of the chain, the remote and the wallets are records of calls that change a state; the answers of
-- GitHub and of Git are the records GitHub and Checkout, and SHA-256 is a parameter where it is used.
-- Values of JSON.parse are the data type Json, whose numbers are integers. Messages that name a
-- field, a contract or a status are without that name.
--
-- Bounds: `read` of CBOR counts the levels left, 9 at first, which is the code's depth limit of 8,
-- and reports the same error when none is left. The UTF-8 decoder runs on as much fuel as there are
-- bytes, and takes a byte at least in each step. `decimal` runs on one more than the number, which
-- has fewer digits than it is large.
--
-- The powers of recoverX have exponents below 2 ^ 255, and their loop runs on 256 bits.
--
-- canonical_receipt runs on as many rounds as the timeout has milliseconds, and one at least; a pause
-- takes a millisecond or more.
--
-- Not modelled: method calls that overlap on one connection to a wallet, the applications with their
-- servers, the processes of the bundler, and the scripts that run the commands. The contracts are
-- Solidity, and build scripts and tests carry no logic of the program.
pub mod Prelude
pub mod Wallet
pub mod Enrollment
pub mod Protocol
pub mod Submission
pub mod Bundler
pub mod Sdk
pub mod Release
pub mod Live
pub mod Tests
