-- ===== src/Lib.antt =====
-- PopperPad records claims, the recipes that could falsify them and the evidence that they did. Its
-- market pays bounties for falsifications. This library models that market with what it stands on, and
-- the pure cores beside it: the status of claims, the delivery of effects, commits, imports, recipes,
-- checks, and the adapter protocol.
--
-- Parts and files:
--   * Values, Codec and Verifier model src/popperpad/core/values.py (`Amount`, JSON values, and their
--     `==` in Values/Equality), codec.py (canonical JSON bytes, domain framing, hashes) and verifier.py
--     (references of Ed25519 keys). `canonical_json_bytes`, `domain_frame`, `domain_sha256` and
--     `canonical_hash` return `none` where the source raises: at a lone surrogate, at an integer of more
--     than 4300 digits, or at a domain that is empty, has a NUL or is longer than 65535 bytes.
--     `json_bytes`, `frame_bytes` and `json_hash` are their values where they raise nothing (`encodes`,
--     `domain_ok`). SHA-256 and the check of a signature are the record `Crypto`, a parameter of
--     everything that hashes.
--   * Result models the rejections of src/popperpad/core/result.py that the other cores return, and
--     Sorting the sorted lists and the dictionaries made from lists that they use.
--   * Outbox models src/popperpad/core/outbox.py: `pending_outbox`, `plan_acknowledgement` and
--     `verify_ack_chain`; a dictionary is the list of its values. Outbox/Tables has the lemmas on these
--     lists, Outbox/Held, Outbox/Pending, Outbox/Chain and Outbox/Delivery the theorems, Outbox/Examples the runs.
--   * Graph/Types, Graph/Status and Graph/Transfer model src/popperpad/core/graph.py: its records,
--     `derive_status` and `find_transfer_paths`; Graph/Status/Laws, Graph/Transfer/Hops and
--     Graph/Transfer/Search have the theorems, Graph/Examples the runs.
--   * Commit/Types, Commit/Derive, Commit/Parse, Commit/Validate, Commit/Plan and Commit/Logical model
--     src/popperpad/core/commit.py: the planners with `_plan_commit` as `plan_request`,
--     `_derive_commit_record`, `validate_commit_record`, `validate_commit_bundle` and the log rows of a
--     commit. Commit/Rows, Commit/Records, Commit/Writes and Commit/Collected lead to Commit/RoundTrip
--     and Commit/Binding.
--   * Receipts models src/popperpad/core/verifier_receipts.py up to the parsing of receipts;
--     Imports/Policy and Imports/Admission model src/popperpad/core/imports.py; Imports/Authority
--     follows an admitted bundle into its commit.
--   * Checking models src/popperpad/core/check.py and Checking/Evidence src/popperpad/core/evidence.py,
--     with their theorems in Checking/Laws; Mechanism models src/popperpad/core/mechanism.py; Codec/Frame
--     has the theorem on the frames of domains.
--   * Adapter/Types, Adapter/Response and Adapter/Profile model
--     src/popperpad/core/adapter_protocol.py: requests, responses and what their constructors check
--     (`response_built`), and the bindings. `build_response` is `none` where an encoding or the
--     constructor raises; Adapter/Encoding says which values encode, Adapter/Laws has the theorems.
--   * Recipe, Recipe/Paths, Recipe/Plan and Recipe/Judge model src/popperpad/core/recipe.py: its values,
--     `normalize_relative_path`, `plan_recipe` and `evaluate_observation`. Python's module `re` is the
--     record `Regex`, a parameter. Recipe/Laws and Recipe/Judge/Laws have the theorems.
--   * Market/Types, Market/Commands and Market/Json model the data of src/popperpad/core/market.py and
--     its JSON forms; Market/Lookup its lookups and receipts (`_submission`, `_receipt`); Market/Evidence
--     and Market/Admit the checks of verifier receipts (`_validate_market_evidence`,
--     `_validate_command_evidence_binding`, `_admit_submission_receipt`); Market/Handlers the
--     handlers (`_open_bounty` to `_cancel_bounty`), one definition for each; Market/Apply
--     `apply_market_command` with its checks in their order.
--   * Market/Invariants models src/popperpad/core/market_invariants.py.
--   * Market/Commits and Market/Guards have the rules by which the theorems read off what a handler has
--     checked when it commits; Market/Validity, Market/Conservation, Market/Authority,
--     Market/Settlement, Market/Eligible, Market/Lifecycle, Market/Solvency, Market/Progress and
--     Market/Calm have the theorems; Market/Samples a bounty from its opening to its settlement and a
--     challenge under a policy that asks for no deposit; Market/Examples the theorems at these.
--
-- A decision is an acceptance, a rejection, a committed failure or an exception; what it commits is the
-- next state, the effects and the receipt. An amount is a natural number, a time an integer without
-- bound, as in Python. A frozen set is a list that `contains` and `set_add` read as a set. All loops
-- are structural recursion over the lists of a state or a command, so that no fuel is needed, except the
-- search of `find_transfer_paths`: its fuel is the number of nodes of the tree of all walks of the
-- allowed length, and the theorem on it shows that this is enough.
--
-- What a constructor checks beyond the Python types of its fields is a test named after the type
-- (`trust_policy_built`, `response_built`); a function whose value needs it takes the value as built, or
-- returns `none` where the constructor raises.
--
-- The other parts hash under constant domains, which Codec/Examples finds to pass the checks of
-- `domain_frame`, and with `json_hash`: outside Codec and `build_response`, the values that are hashed
-- are taken to encode, also where a theorem says that a function accepts.
--
-- Not modelled: errors of the encoding outside Codec and `build_response`; the tests of Python types,
-- since values are typed here; `FrozenDict` and the check of deep immutability;
-- `parse_verifier_receipt_object`; input and output, storage, processes, clocks, the external adapters
-- and the interfaces around the pure cores; the test-time exploration under src/popperpad/refinement.
-- The hash functions are abstract: no theorem assumes that they have no collisions, and where their
-- results must be well-formed refs that is a hypothesis.
pub mod Prelude
pub mod Values
pub mod Codec
pub mod Verifier
pub mod Sorting
pub mod Result
pub mod Outbox
pub mod Graph
pub mod Commit
pub mod Receipts
pub mod Imports
pub mod Checking
pub mod Mechanism
pub mod Adapter
pub mod Recipe
pub mod Market
