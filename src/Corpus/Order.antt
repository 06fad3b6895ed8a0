-- ===== src/Corpus/Order.antt =====
-- The specs and the errors of `loadJSONL`.
use mathlib.Core.List.{append-nil, append_assoc}
use mocking_box.Prelude.{
  ℕ, suc, ◌+◌, ◌≡◌, false, true, sym, ap, List, [], ◌∷◌, ◌++◌, All, ◌∙◌, Option, none,
  if◌then◌else◌, GoString, Result, ok, fail, trim_space, arith, Bool-cases, inl, inr, length,
  length-append,
}
use mocking_box.Diff.Value.{Numerics}
use mocking_box.Corpus.{
  RequestSpec, load_line, load_lines, load_jsonl, is_comment, fill, line_error,
}

add_zero : (n : ℕ) → n + 0 ≡ n
add_zero n = omega arith

zero_add : (n : ℕ) → 0 + n ≡ n
zero_add n = omega arith

shift : (n m : ℕ) → n + suc m ≡ suc n + m
shift n m = omega arith

-- The lines that hold a spec.
unfoldable pub entry_lines : List GoString → List GoString
unfolding is_comment
entry_lines [] = []
entry_lines (l ∷ ls) =
    let rest = entry_lines ls in if is_comment (trim_space l) then rest else trim_space l ∷ rest

module _ {N : Numerics} where
  module _ (unmarshal : GoString → Result (RequestSpec N)) (path : GoString) where
    -- Every line that holds a spec parses.
    abbrev Parses : GoString → Type 0
    Parses l = (spec : RequestSpec N) × (unmarshal l ≡ ok spec)

    -- The lines that parse give a spec each, and the loop goes on.
    load_lines-append :
        (n : ℕ) (pre post : List GoString) (scan_error : Option GoString)
        (specs : List (RequestSpec N))
        → All Parses (entry_lines pre)
        → (out : List (RequestSpec N)) × ((load_lines unmarshal path n
                (pre ++ post)
                scan_error
                specs
              ≡ load_lines unmarshal path (n + length pre) post scan_error out)
            × (length out ≡ length specs + length (entry_lines pre)))
    unfolding load_lines load_line entry_lines
    load_lines-append n [] post scan_error specs h = (specs, (rw (add_zero n), omega arith))
    load_lines-append n (l ∷ pre) post scan_error specs h =
        elim (Bool-cases (is_comment (trim_space l))) [
          | inl c ↦
              let k = rw c at h in
              let (out, (e, m)) = load_lines-append (suc n) pre post scan_error specs k in
              (out, (rw c (rw (shift n (length pre)) e), rw c m))
          | inr c ↦
              let ((spec, p), k) = rw c at h in
              let (out, (e, m)) =
                load_lines-append (suc n) pre post scan_error (specs ++ fill (suc n) spec ∷ []) k in
              (
                out,
                (
                  rw (c, p) (rw (shift n (length pre)) e),
                  rw c (omega (arith, m, length-append specs (fill (suc n) spec ∷ []))),
                ),
              )
        ]

    -- The specs of the lines after `n` others: for each line that is neither blank nor a comment, in
    -- their order, what it parses to, filled in with the number of its line.
    pub data Parsed : ℕ → List GoString → List (RequestSpec N) → Type 0 where
      nothing : {n : ℕ} → Parsed n [] []
      passed :
          {n : ℕ} {l : GoString} {ls : List GoString} {out : List (RequestSpec N)}
          → is_comment (trim_space l) ≡ true
          → Parsed (suc n) ls out
          → Parsed n (l ∷ ls) out
      held :
          {n : ℕ} {l : GoString} {ls : List GoString} {out : List (RequestSpec N)}
          (spec : RequestSpec N)
          → is_comment (trim_space l) ≡ false
          → unmarshal (trim_space l) ≡ ok spec
          → Parsed (suc n) ls out
          → Parsed n (l ∷ ls) (fill (suc n) spec ∷ out)

    load_lines-Parsed :
        (n : ℕ) (lines : List GoString) (specs : List (RequestSpec N))
        → All Parses (entry_lines lines)
        → (out : List (RequestSpec N)) × ((load_lines unmarshal path n lines none specs
              ≡ ok (specs ++ out))
            × Parsed n lines out)
    unfolding load_lines load_line entry_lines
    load_lines-Parsed n [] specs h = ([], (ap ok (sym (append-nil specs)), nothing))
    load_lines-Parsed n (l ∷ ls) specs h = elim (Bool-cases (is_comment (trim_space l))) [
      | inl c ↦
          let (out, (e, p)) = load_lines-Parsed (suc n) ls specs (rw c at h) in
          (out, (rw c e, passed c p))
      | inr c ↦
          let ((spec, q), k) = rw c at h in
          let (out, (e, p)) = load_lines-Parsed (suc n) ls (specs ++ fill (suc n) spec ∷ []) k in
          (
            fill (suc n) spec ∷ out,
            (
              rw (c, q) (e ∙ ap ok (append_assoc specs (fill (suc n) spec ∷ []) out)),
              held spec c q p,
            ),
          )
    ]

    -- If the scanner reports no error and every line that is neither blank nor a comment parses, the
    -- loader succeeds, and its specs are, in the order of the file, what each of these lines parses to,
    -- filled in with the number of its line.
    pub load_jsonl-ok :
        (lines : List GoString) (scan_error : Option GoString)
        → scan_error ≡ none
        → All Parses (entry_lines lines)
        → (out : List (RequestSpec N)) × ((load_jsonl unmarshal path lines scan_error ≡ ok out)
            × Parsed 0 lines out)
    unfolding load_jsonl
    load_jsonl-ok lines scan_error e h = rw e (load_lines-Parsed 0 lines [] h)

    -- The first line that is no comment and does not parse makes the load fail, with the number of
    -- that line, whatever comes after it.
    pub load_jsonl-fail :
        (pre post : List GoString) (l : GoString) (e : GoString) (scan_error : Option GoString)
        → All Parses (entry_lines pre)
        → is_comment (trim_space l) ≡ false
        → unmarshal (trim_space l) ≡ fail e
        → load_jsonl unmarshal path (pre ++ l ∷ post) scan_error
          ≡ fail (line_error path (suc (length pre)) e)
    unfolding load_jsonl load_lines load_line
    load_jsonl-fail pre post l e scan_error h c f =
        let (out, (k, m)) = load_lines-append 0 pre (l ∷ post) scan_error [] h in
        k ∙ rw (c, f, zero_add (length pre))
