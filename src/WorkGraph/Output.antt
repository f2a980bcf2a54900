-- ===== src/WorkGraph/Output.antt =====
-- The bounds on a tool's output: `validate_tool_output` of crates/xgeny-workgraph/src/lib.rs. JSON
-- values and their canonical encoding are not in the repository: the interface `JsonShape` has what
-- the code asks of them.
pub mod Walk
pub mod Bounds
pub mod Record
pub mod Exclusive
use xgeny_cli.Prelude.{
  ℕ, zero, suc, ◌+◌, ◌≤◌, String, Option, none, some, List, [], ◌∷◌, ◌++◌, map, Bool, true, false,
  ◌&&◌, ◌||◌, leb, ltb, Result, ok, err, fault, Fault, ◌>>=◌, ◌>>◌, reject_if, ok_or, length,
  checked_add_u64, if◌then◌else◌,
}
use xgeny_cli.WorkGraph.Digest.{Primitives, sha256_digest}

-- `MAX_TOOL_OUTPUT_CANONICAL_BYTES`, `MAX_TOOL_OUTPUT_DEPTH`, `MAX_TOOL_OUTPUT_NODES` and
-- `MAX_TOOL_OUTPUT_TEXT_BYTES`
abbrev pub max_canonical_bytes : ℕ
max_canonical_bytes = 1048576

abbrev pub max_depth : ℕ
max_depth = 64

abbrev pub max_nodes : ℕ
max_nodes = 32768

abbrev max_text_bytes : ℕ
max_text_bytes = max_canonical_bytes

-- What `match value` sees: null, a Boolean or a number; the bytes of a text; the values of an array;
-- the entries of an object, each with the bytes of its key.
pub data Shape (Value : Type 0) : Type 0 where
  scalar : Shape Value
  text : ℕ → Shape Value
  array : List Value → Shape Value
  object : List (ℕ × Value) → Shape Value

-- `serde_json::Value` and `serde_jcs::to_vec` on it.
pub record JsonShape (Value : Type 0) : Type 0 where
  pub shape : Value → Shape Value
  pub canonical : Value → Option (List ℕ)

-- `ToolOutputError`
pub data ToolOutputError : Type 0 where
  unsupported_format_version : ℕ → ToolOutputError
  unsupported_profile unsupported_effect_class : ToolOutputError
  invalid_identity : String → ToolOutputError
  invalid_execution_attempt invalid_evidence_digest : ToolOutputError
  depth_exceeded node_count_exceeded text_bytes_exceeded : ToolOutputError
  canonical_size_exceeded canonicalization : ToolOutputError
  binding_mismatch : String → ToolOutputError
  canonical_size_mismatch output_digest_mismatch : ToolOutputError
  output_id_mismatch record_digest_mismatch : ToolOutputError

-- `.filter(|n| n <= limit).ok_or(error)` of a sum that may overflow.
abbrev pub bounded : Option ℕ → ℕ → ToolOutputError → Result ToolOutputError ℕ
bounded none limit error = err error
bounded (some n) limit error = reject_if (ltb limit n) error >> ok n

-- `ensure_tool_output_pending_bound`
unfoldable pub ensure_pending_bound : ℕ → ℕ → ℕ → Result ToolOutputError (Unit {0})
ensure_pending_bound visited pending children = do
  scheduled ← ok_or (checked_add_u64 visited pending) ToolOutputError.node_count_exceeded
  total ← bounded (checked_add_u64 scheduled children) max_nodes ToolOutputError.node_count_exceeded
  ok tt

-- `bounded_tool_output_text_add`
unfoldable pub bounded_text_add : ℕ → ℕ → Result ToolOutputError ℕ
bounded_text_add current added =
    bounded (checked_add_u64 current added) max_text_bytes ToolOutputError.text_bytes_exceeded

-- The loop's variables; the first pending value is the one that `pop` takes.
pub record Pass (Value : Type 0) : Type 0 where
  pub pending : List (Value × ℕ)
  pub nodes : ℕ
  pub text_bytes : ℕ

module _ {Value : Type 0} where
  -- `for value in values.iter().rev()`: the last value is pushed first.
  abbrev pub push_values : ℕ → List Value → List (Value × ℕ) → List (Value × ℕ)
  push_values depth values pending = map (λ value. (value, depth)) values ++ pending

  -- `for (key, value) in values.iter().rev()`
  unfoldable pub push_entries :
      ℕ → List (ℕ × Value) → ℕ → List (Value × ℕ) → Result ToolOutputError (ℕ × List (Value × ℕ))
  push_entries depth [] text_bytes pending = ok (text_bytes, pending)
  push_entries depth ((key, value) ∷ entries) text_bytes pending = do
    (text_bytes', pending') ← push_entries depth entries text_bytes pending
    total ← bounded_text_add text_bytes' key
    ok (total, (value, depth) ∷ pending')

module _ (prims : Primitives) {Value : Type 0} (json : JsonShape Value) where
  -- `match value`, with the number of nodes counted.
  unfoldable pub visit_shape :
      ℕ → List (Value × ℕ) → ℕ → ℕ → Shape Value → Result ToolOutputError (Pass Value)
  visit_shape depth pending nodes text_bytes Shape.scalar =
      ok (record { pending = pending; nodes = nodes; text_bytes = text_bytes })
  visit_shape depth pending nodes text_bytes (Shape.text size) = do
    total ← bounded_text_add text_bytes size
    ok (record { pending = pending; nodes = nodes; text_bytes = total })
  visit_shape depth pending nodes text_bytes (Shape.array values) = do
    ensure_pending_bound nodes (length pending) (length values)
    child_depth ← ok_or (checked_add_u64 depth 1) ToolOutputError.depth_exceeded
    ok (record {
      pending = push_values child_depth values pending;
      nodes = nodes;
      text_bytes = text_bytes;
    })
  visit_shape depth pending nodes text_bytes (Shape.object entries) = do
    ensure_pending_bound nodes (length pending) (length entries)
    child_depth ← ok_or (checked_add_u64 depth 1) ToolOutputError.depth_exceeded
    (total, pending') ← push_entries child_depth entries text_bytes pending
    ok (record { pending = pending'; nodes = nodes; text_bytes = total })

  -- The body of the loop on the value that is popped.
  unfoldable pub visit_value :
      Value → ℕ → List (Value × ℕ) → ℕ → ℕ → Result ToolOutputError (Pass Value)
  visit_value value depth pending nodes text_bytes = do
    reject_if (ltb max_depth depth) ToolOutputError.depth_exceeded
    count ← bounded (checked_add_u64 nodes 1) max_nodes ToolOutputError.node_count_exceeded
    visit_shape depth pending count text_bytes (json.shape value)

  -- The loop.
  unfoldable pub walk : ℕ → List (Value × ℕ) → ℕ → ℕ → Result ToolOutputError (Unit {0})
  walk fuel [] nodes text_bytes = ok tt
  walk zero (_ ∷ _) nodes text_bytes = fault Fault.out_of_fuel
  walk (suc fuel) ((value, depth) ∷ pending) nodes text_bytes =
      visit_value value depth pending nodes text_bytes >>= λ pass.
      walk fuel pass.pending pass.nodes pass.text_bytes

  -- `ValidatedToolOutput`: the size of the canonical bytes and their digest.
  unfoldable pub validate_tool_output : Value → Result ToolOutputError (ℕ × String)
  validate_tool_output output = do
    walk (max_nodes + 1) ((output, 0) ∷ []) 0 0
    canonical ← ok_or (json.canonical output) ToolOutputError.canonicalization
    reject_if (ltb max_canonical_bytes (length canonical)) ToolOutputError.canonical_size_exceeded
    ok (length canonical, sha256_digest prims canonical)
