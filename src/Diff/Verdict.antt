-- ===== src/Diff/Verdict.antt =====
-- The verdicts and `VerdictOf` of internal/diff/diff.go.
use mocking_box.Prelude.{List, [], ◌∷◌, GoString, str}

-- The constants `Match` … `Error`.
pub data Verdict : Type 0 where
  match response_diff writeset_diff both_diff noise error : Verdict

pub text : Verdict → GoString
text match = str "MATCH"
text response_diff = str "RESPONSE_DIFF"
text writeset_diff = str "WRITESET_DIFF"
text both_diff = str "BOTH_DIFF"
text noise = str "NOISE"
text error = str "ERROR"

-- `VerdictOf`
unfoldable pub verdict_of {ℓ} : {D : Type ℓ} → List D → List D → Verdict
verdict_of [] [] = match
verdict_of (r ∷ rs) (w ∷ ws) = both_diff
verdict_of (r ∷ rs) [] = response_diff
verdict_of [] (w ∷ ws) = writeset_diff
