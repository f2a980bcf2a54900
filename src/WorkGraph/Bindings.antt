-- ===== src/WorkGraph/Bindings.antt =====
-- The loops over the named fields of a sidecar record, as `verify_for` of crates/xgeny-workgraph/src/lib.rs
-- has them for a tool output and for a completion.
use xgeny_cli.Prelude.{
  not-false, String, List, [], ◌∷◌, Bool, true, not, Result, ok, ◌>>◌, reject_if, All,
  reject_if-eq-ok, ◌≡◌,
}

-- `for (field, matches) in [...] { if !matches { return Err(...) } }`
unfoldable pub check_bindings :
    {E : Type 0} → (String → E) → List (String × Bool) → Result E (Unit {0})
check_bindings mismatch [] = ok tt
check_bindings mismatch ((field, matches) ∷ bindings) = do
  reject_if (not matches) (mismatch field)
  check_bindings mismatch bindings

-- A loop that passes has seen only fields that match.
pub check_bindings-All :
    {E : Type 0} (mismatch : String → E) (bindings : List (String × Bool))
    → check_bindings mismatch bindings ≡ ok tt
    → All (λ b. b.1 ≡ true) bindings
unfolding check_bindings
check_bindings-All mismatch [] h = tt
check_bindings-All mismatch ((field, matches) ∷ bindings) h =
    let (same, rest) = reject_if-eq-ok (not matches) (mismatch field) _ h in
    (not-false matches same, check_bindings-All mismatch bindings rest)
