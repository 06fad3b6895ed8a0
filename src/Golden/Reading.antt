-- ===== src/Golden/Reading.antt =====
-- What the reader of internal/golden/golden.go makes of the writer's lines.
use mathlib.Core.List.{append_assoc, append-nil}
use mocking_box.Prelude.{
  refl, ◌<◌, ◌≤◌, fail, true, arith, ltb, length, none, ◌≡◌, sym, ap, ◌∙◌, ℕ, suc, false, List, [],
  ◌∷◌, ◌++◌, All, GoString, str, eqs, trim_space, sort_by, Result, ok, and_then,
}
use mocking_box.Diff.Value.{Numerics}
use mocking_box.Golden.{
  Meta, Entry, Format, no_meta, first_meta, new_writer, append, read, read_line, read_lines,
  read_typed, at_line, append_line, sorted, max_line, too_long,
}

module _ {N : Numerics} (F : Format N) where
  -- A line that the reader takes as it is: neither empty, nor with spaces around it, nor too long.
  abbrev IsLine : GoString → Type 0
  IsLine line = (trim_space line ≡ line) × ((eqs line [] ≡ false) × (length line < max_line))

  -- json.Marshal writes the entry on a line of type `entry`, which json.Unmarshal reads back.
  abbrev pub Restores : Entry N → Type 0
  Restores e =
      (line : GoString) × ((F.entry_line e ≡ ok line)
        × (IsLine line × ((F.line_type line ≡ ok (str "entry")) × (F.read_entry line ≡ ok e))))

  -- The same of a meta record.
  abbrev pub RestoresMeta : Meta → Type 0
  RestoresMeta m =
      (line : GoString) × ((F.meta_line m ≡ ok line)
        × (IsLine line
            × ((F.line_type line ≡ ok (str "meta")) × (F.read_meta line no_meta ≡ ok m))))

  -- The entries appended one by one.
  unfoldable pub append_all : List (Entry N) → List GoString → Result (List GoString)
  unfolding append
  append_all [] file = ok file
  append_all (e ∷ es) file = and_then (append F file e) (append_all es)

  -- A new file with its entries.
  unfoldable pub recorded : GoString → Meta → List (Entry N) → Result (List GoString)
  unfolding new_writer append_all
  recorded now meta es = and_then (new_writer F now meta []) (append_all es)

  lines_of : (es : List (Entry N)) → All Restores es → List GoString
  lines_of [] h = []
  lines_of (e ∷ es) ((line, _), hs) = line ∷ lines_of es hs

  append_all-lines_of :
      (es : List (Entry N)) (h : All Restores es) (file : List GoString)
      → append_all es file ≡ ok (file ++ lines_of es h)
  unfolding append_all append append_line lines_of
  append_all-lines_of [] h file = ap ok (sym (append-nil file))
  append_all-lines_of (e ∷ es) ((line, (w, _)), hs) file = rw w (
      append_all-lines_of es hs (file ++ line ∷ [])
      ∙ ap ok (append_assoc file (line ∷ []) (lines_of es hs)))

  -- json.Marshal writes the entry.
  abbrev pub Written : Entry N → Type 0
  Written e = (line : GoString) × (F.entry_line e ≡ ok line)

  append_all-Written :
      (es : List (Entry N)) (file : List GoString)
      → All Written es
      → (ls : List GoString) × (append_all es file ≡ ok (file ++ ls))
  unfolding append_all append append_line
  append_all-Written [] file h = ([], ap ok (sym (append-nil file)))
  append_all-Written (e ∷ es) file ((line, w), h) =
      let (ls, p) = append_all-Written es (file ++ line ∷ []) h in
      (line ∷ ls, rw w (p ∙ ap ok (append_assoc file (line ∷ []) ls)))

  append_all-long :
      (e : Entry N) (es : List (Entry N)) (line : GoString) (file : List GoString)
      → F.entry_line e ≡ ok line
      → All Written es
      → (ls : List GoString) × (append_all (e ∷ es) file ≡ ok (file ++ line ∷ ls))
  unfolding append_all append append_line
  append_all-long e es line file w h =
      let (ls, p) = append_all-Written es (file ++ line ∷ []) h in
      (ls, rw w (p ∙ ap ok (append_assoc file (line ∷ []) ls)))

  append_all-append :
      (pre es : List (Entry N)) (h : All Restores pre) (file : List GoString)
      → append_all (pre ++ es) file ≡ append_all es (file ++ lines_of pre h)
  unfolding append_all append append_line lines_of
  append_all-append [] es h file = ap (append_all es) (sym (append-nil file))
  append_all-append (e ∷ pre) es ((line, (w, _)), hs) file = rw w (
      append_all-append pre es hs (file ++ line ∷ [])
      ∙ ap (append_all es) (append_assoc file (line ∷ []) (lines_of pre hs)))

  ltb-max_line : (line : GoString) → length line < max_line → ltb (length line) max_line ≡ true
  ltb-max_line line h = ground (arith, h)

  ltb-long : (line : GoString) → max_line ≤ length line → ltb (length line) max_line ≡ false
  ltb-long line h = ground (arith, h)

  module _ (path : GoString) where
    read_entry_line :
        (n : ℕ) (line : GoString) (e : Entry N) (meta : Meta) (entries : List (Entry N))
        → trim_space line ≡ line
        → eqs line [] ≡ false
        → F.line_type line ≡ ok (str "entry")
        → F.read_entry line ≡ ok e
        → read_line F path n line (meta, entries) ≡ ok (meta, entries ++ e ∷ [])
    unfolding read_line at_line read_typed eqs
    read_entry_line n line e meta entries t b k r = rw (t, b, k, r)

    read_meta_line :
        (n : ℕ) (line : GoString) (m : Meta)
        → trim_space line ≡ line
        → eqs line [] ≡ false
        → F.line_type line ≡ ok (str "meta")
        → F.read_meta line no_meta ≡ ok m
        → read_line F path n line (no_meta, []) ≡ ok (m, [])
    unfolding read_line at_line read_typed eqs
    read_meta_line n line m t b k r = rw (t, b, k, r)

    read_lines-lines_of :
        (es : List (Entry N)) (h : All Restores es) (n : ℕ) (meta : Meta) (entries : List (Entry N))
        → read_lines F path n (lines_of es h) none (meta, entries) ≡ ok (meta, entries ++ es)
    unfolding read_lines lines_of
    read_lines-lines_of [] h n meta entries = ap (λ es. ok (meta, es)) (sym (append-nil entries))
    read_lines-lines_of (e ∷ es) ((line, (_, ((t, (b, w)), (k, r)))), hs) n meta entries =
        rw (ltb-max_line line w, read_entry_line (suc n) line e meta entries t b k r)
          (read_lines-lines_of es hs (suc n) meta (entries ++ e ∷ [])
            ∙ ap (λ xs. ok (meta, xs)) (append_assoc entries (e ∷ []) es))

    read_lines-long :
        (es : List (Entry N)) (h : All Restores es) (n : ℕ) (meta : Meta) (entries : List (Entry N))
        (line : GoString) (ls : List GoString)
        → max_line ≤ length line
        → read_lines F path n (lines_of es h ++ line ∷ ls) none (meta, entries) ≡ fail too_long
    unfolding read_lines lines_of
    read_lines-long [] h n meta entries line ls b = rw (ltb-long line b) refl
    read_lines-long (e ∷ es) ((line', (_, ((t, (b, w)), (k, r)))), hs) n meta entries line ls c =
        rw (ltb-max_line line' w, read_entry_line (suc n) line' e meta entries t b k r)
          (read_lines-long es hs (suc n) meta (entries ++ e ∷ []) line ls c)

    -- A golden that is written and read again without an error of the file gives its meta record with
    -- the writer's defaults and its entries, sorted stably by the byte order of their ts texts, if each
    -- record has a line shorter than 4 MiB, not empty and without spaces around it, of its own type,
    -- which json.Unmarshal reads as that record.
    pub read-recorded :
        (now : GoString) (meta : Meta) (es : List (Entry N))
        → RestoresMeta (first_meta now meta)
        → All Restores es
        → and_then (recorded now meta es) (λ file. read F path file none)
          ≡ ok (first_meta now meta, sort_by (λ e. e.ts) es)
    unfolding recorded new_writer append_line read read_lines sorted
    read-recorded now meta es (line, (w, ((t, (b, f)), (k, r)))) h = rw (
      w,
      append_all-lines_of es h (line ∷ []),
      ltb-max_line line f,
      read_meta_line 1 line (first_meta now meta) t b k r,
      read_lines-lines_of es h 1 (first_meta now meta) [],
    )

    -- The writer takes an entry whose line is 4 MiB or longer, and then the reader rejects the whole file,
    -- whatever entries follow, if it restores the meta record and the entries before.
    pub read-recorded_long :
        (now : GoString) (meta : Meta) (pre post : List (Entry N)) (e : Entry N) (line : GoString)
        → RestoresMeta (first_meta now meta)
        → All Restores pre
        → All Written post
        → F.entry_line e ≡ ok line
        → max_line ≤ length line
        → (file : List GoString) × ((recorded now meta (pre ++ e ∷ post) ≡ ok file)
            × (read F path file none ≡ fail too_long))
    unfolding recorded new_writer append_line read read_lines
    read-recorded_long now meta pre post e line (first, (w, ((t, (b, f)), (k, r)))) h p q long =
        let (ls, a) = append_all-long e post line (first ∷ lines_of pre h) q p in
        (
          first ∷ (lines_of pre h ++ line ∷ ls),
          (
            rw (w, append_all-append pre (e ∷ post) h (first ∷ [])) a,
            rw
                (
                  ltb-max_line first f,
                  read_meta_line 1 first (first_meta now meta) t b k r,
                  read_lines-long pre h 1 (first_meta now meta) [] line ls long,
                )
                refl,
          ),
        )
