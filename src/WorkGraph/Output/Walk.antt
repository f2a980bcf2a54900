-- ===== src/WorkGraph/Output/Walk.antt =====
-- The traversal of `validate_tool_output` of crates/xgeny-workgraph/src/lib.rs against the tree of
-- the value.
use xgeny_cli.Prelude.{
  ℕ, suc, ◌+◌, ◌≤◌, Option, none, some, List, [], ◌∷◌, map, false, ltb, ok, reject_if, ok_or,
  length, checked_add_u64, checked_add_u64-eq-some, Memᴰ, Ensures, bind-Ensures, reject_if-Ensures,
  ok_or-Ensures, weaken-Ensures, ◌≡◌, refl, ap, ◌∙◌, arith,
}
use xgeny_cli.WorkGraph.Digest.{Primitives}
use xgeny_cli.WorkGraph.Output.{
  max_depth, max_nodes, Shape, JsonShape, ToolOutputError, bounded, ensure_pending_bound,
  bounded_text_add, Pass, push_values, push_entries, visit_shape, visit_value,
}

abbrev pub children : {Value : Type 0} → Shape Value → List Value
children Shape.scalar = []
children (Shape.text size) = []
children (Shape.array values) = values
children (Shape.object entries) = map (λ entry. entry.1) entries

module _ {Value : Type 0} (json : JsonShape Value) where
  -- A value some levels below another.
  pub data Below : Value → Value → ℕ → Type 0 where
    here : {value : Value} → Below value value 0
    inside :
        {value child deep : Value} {levels : ℕ}
        → Memᴰ child (children (json.shape value))
        → Below child deep levels
        → Below value deep (suc levels)

  -- The number of values in the tree of a value, and in a forest.
  mutual
    pub data Sized : Value → ℕ → Type 0 where
      tree : {value : Value} {n : ℕ} → Forest (children (json.shape value)) n → Sized value (suc n)

    pub data Forest : List Value → ℕ → Type 0 where
      bare : Forest [] 0
      grove :
          {value : Value} {values : List Value} {m n : ℕ}
          → Sized value m
          → Forest values n
          → Forest (value ∷ values) (m + n)

bounded-Ensures :
    (o : Option ℕ) (limit : ℕ) (error : ToolOutputError)
    → Ensures (λ n. (o ≡ some n) × (n ≤ limit)) (bounded o limit error)
bounded-Ensures none limit error = tt
bounded-Ensures (some n) limit error =
    bind-Ensures (λ u. ltb limit n ≡ false) (λ m. (some n ≡ some m) × (m ≤ limit))
      (reject_if (ltb limit n) error) (λ u. ok n) (reject_if-Ensures (ltb limit n) error)
      (λ u h. (refl, ground (arith, h)))

ensure_pending_bound-Ensures :
    (visited pending count : ℕ)
    → Ensures (λ u. Unit {0}) (ensure_pending_bound visited pending count)
unfolding ensure_pending_bound
ensure_pending_bound-Ensures visited pending count =
    bind-Ensures (λ n. checked_add_u64 visited pending ≡ some n) (λ u. Unit {0})
      (ok_or (checked_add_u64 visited pending) ToolOutputError.node_count_exceeded) _
      (ok_or-Ensures (checked_add_u64 visited pending) ToolOutputError.node_count_exceeded)
      (λ scheduled h.
        bind-Ensures (λ n. (checked_add_u64 scheduled count ≡ some n) × (n ≤ max_nodes))
          (λ u. Unit {0})
          (bounded (checked_add_u64 scheduled count) max_nodes ToolOutputError.node_count_exceeded)
          (λ total. ok (tt {0}))
          (bounded-Ensures (checked_add_u64 scheduled count) max_nodes
            ToolOutputError.node_count_exceeded)
          (λ total k. tt))

module _ {Value : Type 0} where
  push_entries-Ensures :
      (depth : ℕ) (entries : List (ℕ × Value)) (text_bytes : ℕ) (pending : List (Value × ℕ))
      → Ensures
          (λ s. s.1 ≡ (push_values depth (map (λ entry. entry.1) entries) pending))
          (push_entries depth entries text_bytes pending)
  unfolding push_entries bounded_text_add
  push_entries-Ensures depth [] text_bytes pending = refl
  push_entries-Ensures depth ((key, value) ∷ entries) text_bytes pending =
      bind-Ensures _ _ (push_entries depth entries text_bytes pending) _
        (push_entries-Ensures depth entries text_bytes pending)
        (λ s h.
          bind-Ensures _ _ (bounded_text_add s.0 key) _
            (bounded-Ensures (checked_add_u64 s.0 key) _ ToolOutputError.text_bytes_exceeded)
            (λ total k. ap (λ p. (value, depth) ∷ p) h))

-- What a visit that succeeds leaves.
pub record Visits {Value : Type 0} (values : List Value) (depth : ℕ) (pending : List (Value × ℕ))
    (nodes : ℕ) (pass : Pass Value) : Type 0 where
  pub counted : pass.nodes ≡ nodes
  pub pushed : pass.pending ≡ push_values (suc depth) values pending

module _ (prims : Primitives) {Value : Type 0} (json : JsonShape Value) where
  child_depth-Ensures :
      (depth : ℕ)
      → Ensures
          (λ n. n ≡ suc depth)
          (ok_or (checked_add_u64 depth 1) ToolOutputError.depth_exceeded)
  child_depth-Ensures depth =
      weaken-Ensures (λ n. checked_add_u64 depth 1 ≡ some n) (λ n. n ≡ suc depth)
        (ok_or (checked_add_u64 depth 1) ToolOutputError.depth_exceeded)
        (λ n h. let (sum, _) = checked_add_u64-eq-some depth 1 h in omega (arith, sum))
        (ok_or-Ensures (checked_add_u64 depth 1) ToolOutputError.depth_exceeded)

  visit_shape-Ensures :
      (depth : ℕ) (pending : List (Value × ℕ)) (nodes text_bytes : ℕ) (shape : Shape Value)
      → Ensures
          (Visits (children shape) depth pending nodes)
          (visit_shape prims json depth pending nodes text_bytes shape)
  unfolding visit_shape bounded_text_add
  visit_shape-Ensures depth pending nodes text_bytes Shape.scalar = record {
    counted = refl;
    pushed = refl;
  }
  visit_shape-Ensures depth pending nodes text_bytes (Shape.text size) =
      bind-Ensures _ (Visits [] depth pending nodes) (bounded_text_add text_bytes size) _
        (bounded-Ensures (checked_add_u64 text_bytes size) _ ToolOutputError.text_bytes_exceeded)
        (λ total h. record { counted = refl; pushed = refl })
  visit_shape-Ensures depth pending nodes text_bytes (Shape.array values) =
      bind-Ensures (λ u. Unit {0}) (Visits values depth pending nodes) _ _
        (ensure_pending_bound-Ensures nodes (length pending) (length values))
        (λ u t.
          bind-Ensures (λ n. n ≡ suc depth) (Visits values depth pending nodes) _ _
            (child_depth-Ensures depth)
            (λ n e. record { counted = refl; pushed = ap (λ d. push_values d values pending) e }))
  visit_shape-Ensures depth pending nodes text_bytes (Shape.object entries) =
      bind-Ensures (λ u. Unit {0}) (Visits (map (λ e. e.1) entries) depth pending nodes) _ _
        (ensure_pending_bound-Ensures nodes (length pending) (length entries))
        (λ u t.
          bind-Ensures (λ n. n ≡ suc depth) (Visits (map (λ e. e.1) entries) depth pending nodes) _
            _ (child_depth-Ensures depth)
            (λ n e.
              bind-Ensures _ (Visits (map (λ e. e.1) entries) depth pending nodes)
                (push_entries n entries text_bytes pending) _
                (push_entries-Ensures n entries text_bytes pending)
                (λ s h. record {
                  counted = refl;
                  pushed = h ∙ ap (λ d. push_values d (map (λ x. x.1) entries) pending) e;
                })))

-- The visit of one value: neither its level nor the number of values seen is past its limit.
pub record Visited {Value : Type 0} (json : JsonShape Value) (value : Value) (depth : ℕ)
    (pending : List (Value × ℕ)) (nodes : ℕ) (pass : Pass Value) : Type 0 where
  pub shallow : depth ≤ max_depth
  pub counted : pass.nodes ≡ suc nodes
  pub few : suc nodes ≤ max_nodes
  pub pushed : pass.pending ≡ push_values (suc depth) (children (json.shape value)) pending

module _ (prims : Primitives) {Value : Type 0} (json : JsonShape Value) where
  pub visit_value-Ensures :
      (value : Value) (depth : ℕ) (pending : List (Value × ℕ)) (nodes text_bytes : ℕ)
      → Ensures
          (Visited json value depth pending nodes)
          (visit_value prims json value depth pending nodes text_bytes)
  unfolding visit_value
  visit_value-Ensures value depth pending nodes text_bytes =
      bind-Ensures (λ u. ltb max_depth depth ≡ false) (Visited json value depth pending nodes)
        (reject_if (ltb max_depth depth) ToolOutputError.depth_exceeded) _
        (reject_if-Ensures (ltb max_depth depth) ToolOutputError.depth_exceeded)
        (λ u shallow.
          bind-Ensures (λ n. (checked_add_u64 nodes 1 ≡ some n) × (n ≤ max_nodes))
            (Visited json value depth pending nodes)
            (bounded (checked_add_u64 nodes 1) max_nodes ToolOutputError.node_count_exceeded) _
            (bounded-Ensures (checked_add_u64 nodes 1) max_nodes
              ToolOutputError.node_count_exceeded)
            (λ n few.
              weaken-Ensures (Visits (children (json.shape value)) depth pending n)
                (Visited json value depth pending nodes)
                (visit_shape prims json depth pending n text_bytes (json.shape value))
                (λ pass v.
                  let (sum, _) = checked_add_u64-eq-some nodes 1 (few.0) in
                  record {
                    shallow = ground (arith, shallow);
                    counted = omega (arith, v.counted, sum);
                    few = omega (arith, few.1, sum);
                    pushed = v.pushed;
                  })
                (visit_shape-Ensures prims json depth pending n text_bytes (json.shape value))))
