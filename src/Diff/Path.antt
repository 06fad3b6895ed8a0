-- ===== src/Diff/Path.antt =====
-- Noise path patterns: `PathMatches` and `match` of internal/diff/diff.go.
use mocking_box.Prelude.{
  ◌≡◌, refl, ◌↔◌, inl, inr, ◌≢◌, Bool, true, false, ◌||◌, List, [], ◌∷◌, arith, if◌then◌else◌,
  Bool-cases, GoString, str, ◌∙◌, sym, eqs, eqs_iff, eqs_refl, eqs→eq, split,
}

-- `for i := 0; i <= len(path); i++ { if f(path[i:]) { return true } }; return false`
any_suffix : (List GoString → Bool) → List GoString → Bool
any_suffix f [] = f []
any_suffix f (p ∷ path) = f (p ∷ path) || any_suffix f path

abbrev pub any_number : GoString
any_number = str "**"

abbrev pub any_one : GoString
any_one = str "*"

pub match : List GoString → List GoString → Bool
unfolding any_suffix
match [] [] = true
match [] (p ∷ path) = false
match (head ∷ rest) [] =
    let deep = any_suffix (match rest) [] in if eqs head any_number then deep else false
match (head ∷ rest) (p ∷ path) =
    let deep = any_suffix (match rest) (p ∷ path) in
    let next = match rest path in
    if eqs head any_number then deep else if eqs head any_one || eqs head p then next else false

-- `PathMatches`
unfoldable pub path_matches : GoString → List GoString → Bool
unfolding match split eqs
path_matches pattern path = match (split b'.' pattern) path

-- What a pattern means: `**` stands for any number of segments, `*` for exactly one.
pub data Matches : List GoString → List GoString → Type 0 where
  done : Matches [] []
  stop :
      {h : GoString} {rest path : List GoString}
      → h ≡ any_number
      → Matches rest path
      → Matches (h ∷ rest) path
  more :
      {h p : GoString} {rest path : List GoString}
      → h ≡ any_number
      → Matches (h ∷ rest) path
      → Matches (h ∷ rest) (p ∷ path)
  wild :
      {h p : GoString} {rest path : List GoString}
      → h ≡ any_one
      → Matches rest path
      → Matches (h ∷ rest) (p ∷ path)
  same :
      {h p : GoString} {rest path : List GoString}
      → h ≢ any_number
      → h ≡ p
      → Matches rest path
      → Matches (h ∷ rest) (p ∷ path)

module _ {h : GoString} {rest : List GoString} (deep : h ≡ any_number) where
  any_suffix_sound :
      ((q : List GoString) → match rest q ≡ true → Matches rest q)
      → (path : List GoString) → any_suffix (match rest) path ≡ true
      → Matches (h ∷ rest) path
  unfolding any_suffix
  any_suffix_sound ih [] e = stop deep (ih [] e)
  any_suffix_sound ih (p ∷ path) e = elim (Bool-cases (match rest (p ∷ path))) [
    | inl now ↦ stop deep (ih (p ∷ path) now)
    | inr later ↦ more deep (any_suffix_sound ih path (rw later at e))
  ]

one_sound :
    (h p : GoString) (rest path : List GoString)
    → eqs h any_number ≡ false
    → (match rest path ≡ true → Matches rest path)
    → (if eqs h any_one || eqs h p then match rest path else false) ≡ true
    → Matches (h ∷ rest) (p ∷ path)
one_sound h p rest path d ih e = elim (Bool-cases (eqs h any_one)) [
  | inl w ↦ wild (eqs→eq h any_one w) (ih (rw w at e))
  | inr w ↦ elim (Bool-cases (eqs h p)) [
    | inl s ↦ same (λ q. cc (d, (eqs_iff h any_number).1 q)) (eqs→eq h p s) (ih (rw (w, s) at e))
    | inr s ↦ cc (rw (w, s) at e)
  ]
]

match_wild :
    (h p : GoString) (rest path : List GoString)
    → h ≡ any_one
    → match rest path ≡ true
    → match (h ∷ rest) (p ∷ path) ≡ true
unfolding match eqs
match_wild h p rest path e m = rw e m

match_same :
    (h p : GoString) (rest path : List GoString)
    → h ≢ any_number
    → h ≡ p
    → match rest path ≡ true
    → match (h ∷ rest) (p ∷ path) ≡ true
unfolding match
match_same h p rest path n e m =
    ground (arith, eqs_iff h any_number, eqs_iff h p, eqs_iff h any_one)

match_sound : (pat path : List GoString) → match pat path ≡ true → Matches pat path
unfolding match
match_sound [] [] e = done
match_sound [] (p ∷ path) e = cc
match_sound (h ∷ rest) [] e = elim (Bool-cases (eqs h any_number)) [
  | inl d ↦ any_suffix_sound (eqs→eq h any_number d) (match_sound rest) [] (rw d at e)
  | inr d ↦ cc (rw d at e)
]
match_sound (h ∷ rest) (p ∷ path) e = elim (Bool-cases (eqs h any_number)) [
  | inl d ↦ any_suffix_sound (eqs→eq h any_number d) (match_sound rest) (p ∷ path) (rw d at e)
  | inr d ↦ one_sound h p rest path d (match_sound rest path) (rw d at e)
]

any_suffix_stop :
    (f : List GoString → Bool) (path : List GoString) → f path ≡ true → any_suffix f path ≡ true
unfolding any_suffix
any_suffix_stop f [] e = e
any_suffix_stop f (p ∷ path) e = rw e

any_suffix_more :
    (f : List GoString → Bool) (p : GoString) (path : List GoString)
    → any_suffix f path ≡ true
    → any_suffix f (p ∷ path) ≡ true
unfolding any_suffix
any_suffix_more f p path e = ground arith

match_deep :
    (h : GoString) (rest path : List GoString)
    → h ≡ any_number
    → match (h ∷ rest) path ≡ any_suffix (match rest) path
unfolding match
match_deep h rest [] e = rw e (rw (eqs_refl any_number))
match_deep h rest (p ∷ path) e = rw e (rw (eqs_refl any_number))

match_complete : {pat path : List GoString} → Matches pat path → match pat path ≡ true
match_complete done = unfold match in refl
match_complete (stop {h} {rest} {path} e m) =
    match_deep h rest path e ∙ any_suffix_stop (match rest) path (match_complete m)
match_complete (more {h} {p} {rest} {path} e m) =
    match_deep h rest (p ∷ path) e
    ∙ any_suffix_more (match rest) p path (sym (match_deep h rest path e) ∙ match_complete m)
match_complete (wild {h} {p} {rest} {path} e m) = match_wild h p rest path e (match_complete m)
match_complete (same {h} {p} {rest} {path} n e m) = match_same h p rest path n e (match_complete m)

-- The matcher decides what the pattern means.
pub match_iff : (pat path : List GoString) → (match pat path ≡ true) ↔ Matches pat path
match_iff pat path = (match_sound pat path, match_complete)

-- `PathMatches(pattern, path)` holds exactly when the dot-separated pattern matches the path.
pub path_matches_iff :
    (pattern : GoString) (path : List GoString)
    → (path_matches pattern path ≡ true) ↔ Matches (split b'.' pattern) path
unfolding path_matches
path_matches_iff pattern path = match_iff (split b'.' pattern) path
