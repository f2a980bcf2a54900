-- ===== src/WorkGraph/Output/Bounds.antt =====
-- `validate_tool_output` of crates/xgeny-workgraph/src/lib.rs: its loop ends, and a value that it
-- accepts is within the limits.
use xgeny_cli.Prelude.{
  ℕ, zero, suc, ◌+◌, ◌≤◌, ◌<◌, String, some, List, [], ◌∷◌, map, ok_or, reject_if, ltb, false,
  length, All, All-member, Ensures, bind-Ensures, reject_if-Ensures, ok_or-Ensures, weaken-Ensures,
  ◌≡◌, refl, subst, arith,
}
use xgeny_cli.WorkGraph.Digest.{Primitives, sha256_digest}
use xgeny_cli.WorkGraph.Output.{
  max_canonical_bytes, max_depth, max_nodes, JsonShape, ToolOutputError, Pass, push_values,
  visit_value, walk, validate_tool_output,
}
use xgeny_cli.WorkGraph.Output.Walk.{children, Below, Sized, Forest, Visited, visit_value-Ensures}

module _ {Value : Type 0} (json : JsonShape Value) where
  -- Everything below the value is within the limit on levels.
  abbrev Shallow : Value → ℕ → Type 0
  Shallow value depth =
      (deep : Value) (levels : ℕ) → Below json value deep levels → depth + levels ≤ max_depth

  abbrev AllShallow : List (Value × ℕ) → Type 0
  AllShallow pending = All (λ p. Shallow p.0 p.1) pending

  abbrev HasSize : List (Value × ℕ) → ℕ → Type 0
  HasSize pending nodes = (n : ℕ) × Forest json (map (λ p. p.0) pending) n × (nodes + n ≤ max_nodes)

  abbrev IsWithin : List (Value × ℕ) → ℕ → Type 0
  IsWithin pending nodes = AllShallow pending × HasSize pending nodes

  push_values-Shallow :
      (depth : ℕ) (values : List Value) (pending : List (Value × ℕ))
      → AllShallow (push_values depth values pending)
      → All (λ v. Shallow v depth) values × AllShallow pending
  push_values-Shallow depth [] pending h = (tt, h)
  push_values-Shallow depth (value ∷ values) pending h =
      let (those, rest) = push_values-Shallow depth values pending (h.1) in ((h.0, those), rest)

  push_values-Forest :
      (depth : ℕ) (values : List Value) (pending : List (Value × ℕ)) (n : ℕ)
      → Forest json (map (λ p. p.0) (push_values depth values pending)) n
      → (a : ℕ) × (b : ℕ) × Forest json values a
        × Forest json (map (λ p. p.0) pending) b
        × (n ≡ a + b)
  push_values-Forest depth [] pending n f = (0, n, Forest.bare, f, omega arith)
  push_values-Forest depth (value ∷ values) pending _ (Forest.grove {m = m} {n = n} s f) =
      let (a, b, fa, fb, e) = push_values-Forest depth values pending n f in
      (m + a, b, Forest.grove s fa, fb, omega (arith, e))

  Shallow-children :
      (value : Value) (depth : ℕ)
      → depth ≤ max_depth
      → All (λ v. Shallow v (suc depth)) (children (json.shape value))
      → Shallow value depth
  Shallow-children value depth low h _ _ Below.here = omega (arith, low)
  Shallow-children value depth low h deep _
        (Below.inside {child = child} {levels = levels} m below) =
      let k =
        All-member (λ v. Shallow v (suc depth)) (children (json.shape value)) child h m deep levels
          below in
      omega (arith, k)

  -- What is within the limits after a visit was so before it.
  IsWithin-Visited :
      (value : Value) (depth : ℕ) (pending : List (Value × ℕ)) (nodes : ℕ) (pass : Pass Value)
      → Visited json value depth pending nodes pass
      → IsWithin pass.pending pass.nodes
      → IsWithin ((value, depth) ∷ pending) nodes
  IsWithin-Visited value depth pending nodes pass v (shallow, sized) =
      let values = children (json.shape value) in
      let (those, rest) =
        push_values-Shallow (suc depth) values pending
          (subst (λ p. AllShallow p) (v.pushed) shallow) in
      let (n, forest, few) = subst (λ p. HasSize p pass.nodes) (v.pushed) sized in
      let (a, b, fa, fb, e) = push_values-Forest (suc depth) values pending n forest in
      (
        (Shallow-children value depth (v.shallow) those, rest),
        (suc a + b, Forest.grove (Sized.tree fa) fb, omega (arith, e, few, v.counted)),
      )

  IsWithin-size :
      (value : Value)
      → IsWithin ((value, 0) ∷ []) 0
      → (n : ℕ) × Sized json value n × (n ≤ max_nodes)
  IsWithin-size value (shallow, (_, Forest.grove {m = m} sized Forest.bare, few)) =
      (m, sized, omega (arith, few))

module _ (prims : Primitives) {Value : Type 0} (json : JsonShape Value) where
  walk-Ensures :
      (fuel : ℕ) (pending : List (Value × ℕ)) (nodes text_bytes : ℕ)
      → max_nodes < fuel + nodes
      → nodes ≤ max_nodes
      → Ensures (λ u. IsWithin json pending nodes) (walk prims json fuel pending nodes text_bytes)
  unfolding walk
  walk-Ensures fuel [] nodes text_bytes enough few = (tt, (0, Forest.bare, omega (arith, few)))
  walk-Ensures zero (_ ∷ _) nodes text_bytes enough few = absurd (omega (arith, enough, few))
  walk-Ensures (suc fuel) ((value, depth) ∷ pending) nodes text_bytes enough few =
      bind-Ensures (Visited json value depth pending nodes)
        (λ u. IsWithin json ((value, depth) ∷ pending) nodes)
        (visit_value prims json value depth pending nodes text_bytes)
        (λ pass. walk prims json fuel pass.pending pass.nodes pass.text_bytes)
        (visit_value-Ensures prims json value depth pending nodes text_bytes)
        (λ pass v.
          weaken-Ensures (λ u. IsWithin json (pass.pending) (pass.nodes))
            (λ u. IsWithin json ((value, depth) ∷ pending) nodes)
            (walk prims json fuel (pass.pending) (pass.nodes) (pass.text_bytes))
            (λ u w. IsWithin-Visited json value depth pending nodes pass v w)
            (walk-Ensures fuel (pass.pending) (pass.nodes) (pass.text_bytes)
              (omega (arith, enough, v.counted)) (omega (arith, v.counted, v.few))))

  -- The limits on an output that is accepted, and what its record says of it.
  pub record IsBounded (value : Value) (validated : ℕ × String) : Type 0 where
    pub depth : (deep : Value) (levels : ℕ) → Below json value deep levels → levels ≤ max_depth
    pub size : (n : ℕ) × Sized json value n × (n ≤ max_nodes)
    pub encoded :
        (canonical : List ℕ) × (json.canonical value ≡ some canonical)
        × (length canonical ≤ max_canonical_bytes)
        × (validated ≡ (length canonical, sha256_digest prims canonical))

  -- The validation of an output of any shape ends without a panic, and the fuel, one more than the
  -- limit on nodes, is enough. When it accepts, nothing in the output is more than 64 levels deep, the
  -- output has at most 32768 values, its canonical bytes are at most 1048576, and the size and the
  -- digest returned are those of these bytes.
  pub validate_tool_output-IsBounded :
      (output : Value) → Ensures (IsBounded output) (validate_tool_output prims json output)
  unfolding validate_tool_output
  validate_tool_output-IsBounded output =
      bind-Ensures (λ u. IsWithin json ((output, 0) ∷ []) 0) (IsBounded output)
        (walk prims json (max_nodes + 1) ((output, 0) ∷ []) 0 0) _
        (walk-Ensures (max_nodes + 1) ((output, 0) ∷ []) 0 0 (omega arith) (omega arith))
        (λ u within.
          bind-Ensures (λ canonical. json.canonical output ≡ some canonical) (IsBounded output)
            (ok_or (json.canonical output) ToolOutputError.canonicalization) _
            (ok_or-Ensures (json.canonical output) ToolOutputError.canonicalization)
            (λ canonical e.
              bind-Ensures (λ u. ltb max_canonical_bytes (length canonical) ≡ false)
                (IsBounded output)
                (reject_if (ltb max_canonical_bytes (length canonical))
                  ToolOutputError.canonical_size_exceeded)
                _
                (reject_if-Ensures (ltb max_canonical_bytes (length canonical))
                  ToolOutputError.canonical_size_exceeded)
                (λ u fits. record {
                  depth = λ deep levels below. omega (arith, within.0.0 deep levels below);
                  size = IsWithin-size json output within;
                  encoded = (canonical, e, ground (arith, fits), refl);
                })))
