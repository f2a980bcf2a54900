-- ===== src/WorkGraph/Digest.antt =====
-- The digests of crates/xgeny-workgraph/src/lib.rs. RFC 8785 encoding (`serde_jcs::to_vec`) and
-- `Sha256::digest` are not in the repository: they are the parameter `Primitives`. What the code
-- hands the encoder is one of the structs of `DigestInput`.
use Prim.Native.String.{◌++◌}
use xgeny_cli.Prelude.{
  ℕ, ◌/◌, ◌%◌, String, Option, none, some, List, [], ◌∷◌, Result, ok, ◌>>=◌, map_err, strip_prefix,
  ltb, if◌then◌else◌, all_chars, text_len, ◌==◌, ◌&&◌, is_lower_hex, Bool, false,
}
use xgeny_cli.WorkGraph.Errors.{RecordError, AuthorizationDigestError, PlanningContractError}
use xgeny_cli.WorkGraph.Event.{
  RunEvent, AuthorizationBinding, ReceiptProvenance, PlannedInvocationSpec, InvocationBinding,
}

-- The `Serialize` structs that are encoded for a digest, the domain first where there is one.
pub data DigestInput : Type 0 where
  record_input : ℕ → Option String → RunEvent → DigestInput
  authorization_input : String → AuthorizationBinding → ℕ → DigestInput
  once_authorization_id_input : String → String → String → DigestInput
  receipt_provenance_input : ReceiptProvenance → DigestInput
  planned_invocation_spec_input : String → PlannedInvocationSpec → DigestInput
  model_call_id_input :
      String → ℕ → String → ℕ → String → ℕ → ℕ → ℕ → String → String → String → DigestInput
  completion_summary_input : String → String → DigestInput
  completion_proposal_input : String → String → String → DigestInput
  completion_candidate_id_input : String → String → String → String → DigestInput
  completion_output_record_input :
      String → ℕ → String → String → ℕ → String → String → String → ℕ → String → DigestInput
  tool_output_id_input : String → String → String → String → ℕ → String → DigestInput
  tool_output_record_input :
      String
      → ℕ
      → String
      → String
      → String
      → String
      → String
      → InvocationBinding
      → String
      → ℕ
      → String
      → ℕ
      → String
      → DigestInput

-- The third-party functions: canonical bytes of a value or an error text, and the hash of bytes.
pub record Primitives : Type 0 where
  pub to_vec : DigestInput → Result String (List ℕ)
  pub sha256 : List ℕ → List ℕ

abbrev pub model_call_format_version : ℕ
model_call_format_version = 1

abbrev hex_digit : ℕ → String
hex_digit n =
    if ltb n 8
    then (if ltb n 4
        then (if ltb n 2 then (if ltb n 1 then "0" else "1") else (if ltb n 3 then "2" else "3"))
        else (if ltb n 6 then (if ltb n 5 then "4" else "5") else (if ltb n 7 then "6" else "7")))
    else (if ltb n 12
        then (if ltb n 10 then (if ltb n 9 then "8" else "9") else (if ltb n 11 then "a" else "b"))
        else (if ltb n 14
            then (if ltb n 13 then "c" else "d")
            else (if ltb n 15 then "e" else "f")))

-- `write!(&mut encoded, "{byte:02x}")` for each byte.
unfoldable pub hex_encode : List ℕ → String
hex_encode [] = ""
hex_encode (b ∷ bs) = hex_digit (b / 16) ++ (hex_digit (b % 16) ++ hex_encode bs)

-- `is_sha256_digest` and `is_canonical_sha256`, which have the same body.
unfoldable pub is_sha256_digest : String → Bool
is_sha256_digest value = elim (strip_prefix "sha256:" value) [
  | none ↦ false
  | some encoded ↦ (text_len encoded == 64) && all_chars is_lower_hex encoded
]

-- `digest.strip_prefix("sha256:").unwrap_or(&digest)`
abbrev pub strip_or_self : String → String
strip_or_self digest = elim (strip_prefix "sha256:" digest) [
  | none ↦ digest
  | some encoded ↦ encoded
]

module _ (prims : Primitives) where
  unfoldable pub sha256_digest : List ℕ → String
  sha256_digest value = "sha256:" ++ hex_encode (prims.sha256 value)

  unfoldable pub record_digest : ℕ → Option String → RunEvent → Result RecordError String
  record_digest sequence previous_digest event = do
    canonical ←
        map_err RecordError.canonicalization
          (prims.to_vec (DigestInput.record_input sequence previous_digest event))
    ok (sha256_digest canonical)

  unfoldable pub receipt_provenance_digest :
      ReceiptProvenance → Result AuthorizationDigestError String
  receipt_provenance_digest provenance = do
    canonical ←
        map_err AuthorizationDigestError.canonicalization
          (prims.to_vec (DigestInput.receipt_provenance_input provenance))
    ok (sha256_digest canonical)

  unfoldable pub once_authorization_id : String → String → Result AuthorizationDigestError String
  once_authorization_id run_id action_digest = do
    canonical ← map_err AuthorizationDigestError.canonicalization (
        prims.to_vec (
          DigestInput.once_authorization_id_input "xgeny.authorization-budget.once/v1" run_id
            action_digest))
    ok ("authorization-" ++ strip_or_self (sha256_digest canonical))

  unfoldable pub authorization_digest :
      AuthorizationBinding → ℕ → Result AuthorizationDigestError String
  authorization_digest binding max_uses = do
    canonical ← map_err AuthorizationDigestError.canonicalization (
        prims.to_vec
          (DigestInput.authorization_input "xgeny.authorization.once/v2" binding max_uses))
    ok (sha256_digest canonical)

  unfoldable pub planned_invocation_spec_digest :
      PlannedInvocationSpec → Result PlanningContractError String
  planned_invocation_spec_digest spec = do
    canonical ← map_err PlanningContractError.canonicalization (
        prims.to_vec
          (DigestInput.planned_invocation_spec_input "xgeny.planned-invocation.spec/v1" spec))
    ok (sha256_digest canonical)

  unfoldable pub model_call_id :
      String
      → ℕ
      → String
      → ℕ
      → ℕ
      → ℕ
      → String
      → String
      → String
      → Result PlanningContractError String
  model_call_id run_id authority_epoch planner_id call_index turn_index base_sequence
        base_head_digest context_digest request_digest =
      do
        canonical ← map_err PlanningContractError.canonicalization (
            prims.to_vec (
              DigestInput.model_call_id_input "xgeny.model-call.id/v1" model_call_format_version
                run_id authority_epoch planner_id call_index turn_index base_sequence
                base_head_digest context_digest request_digest))
        ok ("model-call-" ++ strip_or_self (sha256_digest canonical))
