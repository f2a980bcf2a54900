-- ===== src/Lib.antt =====
-- A model of xgeny-cli, a local agent that plans capability calls, gets them authorized, runs them
-- and keeps every fact about a Run in a hash-chained journal.
--
-- The parts and how they interact. The journal is a list of `EventRecord`s, each with the digest of
-- the one before it. The reducer (crates/xgeny-workgraph/src/lib.rs) folds the records into a
-- `RunState`: the Steps of the Run with their status, the use of authorization grants, and the
-- counters of the agent loop. The frontier is derived from a `RunState` by a traversal of the
-- dependency graph and says which Steps may be admitted, continued or verified. A permission
-- request is resolved to concrete resources and put to the policy layers (crates/xgeny-policy). The
-- catalog keeps capability definitions and instances, and the router places a capability on an
-- instance under the broker's outcome (crates/xgeny-runtime). The local store appends an event at
-- the head that the caller expects, and keeps the records, their projection and an index of the
-- journal (crates/xgeny-local-store). A tool output and a completion's summary are kept beside the
-- journal in records that are bound by digests to the effect or the decision in it. The runtime's
-- driver calls all of these, and the adapters, the provider and the command line do I/O; those are
-- not modelled.
--
-- Files, and the code of crates/xgeny-workgraph/src/lib.rs that they model:
--   WorkGraph/Status.antt      the enums of status, reason and class
--   WorkGraph/Errors.antt      TransitionError, RecordError, FrontierError, PlanningContractError
--   WorkGraph/Event.antt       RunEventBody and what it carries
--   WorkGraph/State.antt       RunState, StepState, AgentLoopState
--   WorkGraph/Digest.antt      record_digest, authorization_digest and the other digests
--   WorkGraph/Planning.antt    the validators of budgets, turns, reservations and bindings
--   WorkGraph/Steps.antt       step_mut, matching_step_mut, require_status, release of dependencies
--   WorkGraph/ModelCalls.antt  configure_agent_loop, reserve_model_call, settle_model_call, ...
--   WorkGraph/Effects.antt     apply_effect_lifecycle and the function of each of its events
--   WorkGraph/Bindings.antt    the loops over named fields in the two verify_for
--   WorkGraph/Completion.antt  CompletionOutputRecord: bind, new, verify_for, decision
--   WorkGraph/Output.antt      validate_tool_output and what it calls
--   WorkGraph/Output/Record.antt  ToolOutputRecord: new and verify_for
--   WorkGraph/Frontier.antt    FrontierAssembly and WorkFrontier
--   WorkGraph/Kahn.antt        validate_frontier_graph and derive_frontier
--   WorkGraph/Plan.antt        plan_step, accept_plan, record_completion_candidate
--   WorkGraph/Intent.antt      commit_effect_intent and the validators of its authorization
--   WorkGraph/Reducer.antt     EventRecord::next, apply_body, apply_record, replay
-- Files for the other crates:
--   Domain.antt                crates/xgeny-domain/src/common.rs and policy.rs
--   Domain/Capability.antt     crates/xgeny-domain/src/capability.rs
--   Policy/Request.antt        ConcreteResource and ResolvedPermissionRequest
--   Policy/Broker.antt         crates/xgeny-policy/src/broker.rs
--   Policy/Resolution.antt     crates/xgeny-policy/src/resolution.rs
--   Routing/Registry.antt      crates/xgeny-runtime/src/registry.rs
--   Routing/Request.antt       RouteRequest and validate_request of crates/xgeny-runtime/src/router.rs
--   Routing/Float.antt         the f64 operations that the router uses, on the bits of IEEE 754
--   Routing/Candidate.antt     evaluate_candidate
--   Routing/Ranking.antt       compare_candidates and rank_candidates
--   Routing/Router.antt        route with its pin and policy gates
--   Store/Errors.antt          ExpectedHead and StoreError of crates/xgeny-local-store/src/lib.rs
--   Store/Index.antt           VerifiedRunIndex: from_snapshot and apply_committed
--   Store/Bundles.antt         what an append without sidecars refuses
--   Store/Journal.antt         prepare_commit, verified_snapshot, and append of memory.rs
-- The other children of these modules hold the proofs, named for what they prove. Prelude and its children
-- stand for what the code takes from Rust's standard library. Tests holds a sample journal, a sample
-- capability and the theorems at them.
--
-- State and operations. A function over `&mut` returns the new state or an error, since the caller
-- drops the state of a call that fails. `Result` has a third case for a panic and for fuel that ran
-- out. A `BTreeMap` with text keys is an association list in key order. `checked_add` keeps its
-- bound, and an unchecked `+ 1` on u32 its wrap-around.
--
-- Fuel. The loop of `derive_frontier` takes the sum of the open dependency counts and the number of
-- ready Steps: a round takes one ready Step away, and makes one ready only where a count falls, so
-- that sum falls in every round. The loop of `validate_tool_output` takes one more than the limit on
-- nodes: every round counts a node, and the count is refused past the limit.
--
-- Not modelled. RFC 8785 encoding and SHA-256 are third-party functions: the parameter
-- `Primitives`. The sidecar records for material, the texts of error messages, serialization, the
-- metrics that only tests count, the runtime's driver, the loading of a store with its index, the
-- store's appends with sidecars and its SQLite half, the protocol, the providers, the adapters and
-- the command line. The answers of a host's resolver and the operations on JSON values are the
-- interfaces `ResourceResolver` and `JsonValue`, and the shape and canonical bytes of a tool output
-- are `JsonShape`.
pub mod Prelude
pub mod Domain
pub mod Policy
pub mod Routing
pub mod Store
pub mod WorkGraph
pub mod Tests
