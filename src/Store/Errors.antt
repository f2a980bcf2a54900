-- ===== src/Store/Errors.antt =====
-- `StoreError` and `ExpectedHead` of crates/xgeny-local-store/src/lib.rs.
use xgeny_cli.Prelude.{ℕ, String, Bool, true, false, ◌&&◌, ◌==◌, str_eq}
use xgeny_cli.WorkGraph.Errors.{RecordError, TransitionError, ReplayError}

-- `ExpectedHead`
pub data ExpectedHead : Type 0 where
  empty : ExpectedHead
  exact : ℕ → String → ExpectedHead

-- `==` on `ExpectedHead`
abbrev pub head_eq : ExpectedHead → ExpectedHead → Bool
head_eq ExpectedHead.empty ExpectedHead.empty = true
head_eq ExpectedHead.empty (ExpectedHead.exact _ _) = false
head_eq (ExpectedHead.exact _ _) ExpectedHead.empty = false
head_eq (ExpectedHead.exact m d) (ExpectedHead.exact n e) = (m == n) && str_eq d e

-- The variants of `StoreError` that a journal without sidecars can meet.
pub data StoreError : Type 0 where
  head_conflict : ExpectedHead → ExpectedHead → StoreError
  in_record : RecordError → StoreError
  in_transition : TransitionError → StoreError
  in_replay : ReplayError → StoreError
  duplicate_event_id corrupt : String → StoreError
  invocation_material_required planned_invocation_inputs_required : StoreError
  execution_receipt_required unexpected_execution_receipt : StoreError
  unsupported_receipt_profile receipt_provenance_required : StoreError
  legacy_verification_append_rejected : StoreError
  tool_output_required unexpected_tool_output tool_output_profile_required : StoreError
  completion_output_required unexpected_completion_output : StoreError
