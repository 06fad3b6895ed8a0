-- ===== src/Pg/Capture.antt =====
-- The write-set source of internal/pg/capture.go: the messages of logical decoding and what they leave.
-- `pglogrepl.ParseV2` and the codecs of pgtype are inputs; times are in nanoseconds.
use mocking_box.Prelude.{
  ℕ, ◌+◌, ◌*◌, ◌==◌, ltb, Bool, true, false, List, [], ◌∷◌, ◌++◌, Option, none, some, if◌then◌else◌,
  GoString, str,
}
use mocking_box.Diff.Value.{Numerics, Value, null, string, Fields, end}
use mocking_box.Diff.Writeset.{RowChange, insert_op, update_op, delete_op}
use mocking_box.Binlog.{put_field}

-- The runes '-' and ' ' become '_' in the names of the slot and the publication.
unfoldable pub safe_name : GoString → GoString
safe_name [] = []
safe_name (c ∷ name) =
    let rest = safe_name name in
    if c == b'-' then b'_' ∷ rest else if c == b' ' then b'_' ∷ rest else c ∷ rest

unfoldable pub slot_name : GoString → GoString
unfolding safe_name
slot_name name = str "mb_slot_" ++ safe_name name

unfoldable pub publication_name : GoString → GoString
unfolding safe_name
publication_name name = str "mb_pub_" ++ safe_name name

-- A `RelationMessageV2`: a column has its name and the oid of its type.
pub record Relation : Type 0 where
  pub namespace : GoString
  pub relation_name : GoString
  pub columns : List (GoString × ℕ)

-- A column of a tuple by its `DataType`: 'n', 't', or 'u' and the others.
pub data Cell : Type 0 where
  null_cell unchanged : Cell
  text_cell : GoString → Cell

-- A parsed message; the relation's ID first. A message that does not parse is `ignored`.
pub data Message : Type 0 where
  relation : ℕ → Relation → Message
  inserted : ℕ → List Cell → Message
  updated : ℕ → Option (List Cell) → List Cell → Message
  deleted : ℕ → Option (List Cell) → Message
  committed : ℕ → Message
  ignored : Message

-- `Capture`, without its connections and names
pub record Capture (N : Numerics) : Type 0 where
  pub relations : List (ℕ × Relation)
  pub changes : List (RowChange N)
  pub last_event : Option ℕ
  pub last_commit : ℕ
  pub window_start : ℕ
  pub err : Option GoString

-- `c.relations[id]`
unfoldable pub relation_at : ℕ → List (ℕ × Relation) → Option Relation
relation_at id [] = none
relation_at id ((k, r) ∷ rels) = let rest = relation_at id rels in if k == id then some r else rest

-- A codec's value of a text for an oid: none where the type is unknown or its text is refused.
abbrev pub Codec : Numerics → Type 0
Codec N = ℕ → GoString → Option (Value N)

-- What `ReceiveMessage` gives to a turn of `pump`. A copy message is not empty.
pub data Received : Type 0 where
  timed_out other : Received
  broken : GoString → Received
  -- A keepalive, with whether a reply is asked for; false where it does not parse
  keepalive : Bool → Received
  -- The start of the data, its length, and its message; none where the header does not parse
  xlog : Option (ℕ × ℕ × Message) → Received

-- The locals of `pump`: the deadline of the next status and the position it reports.
pub record Pump : Type 0 where
  pub next_deadline : ℕ
  pub position : ℕ
  pub sent : List ℕ
  pub running : Bool

abbrev pub ten_seconds : ℕ
ten_seconds = 10 * 1000000000

-- The status update at the start of a turn
unfoldable pub report_status : ℕ → Pump → Pump
report_status now p =
    if ltb (p.next_deadline) now
    then record p { next_deadline = now + ten_seconds; sent = p.sent ++ p.position ∷ [] }
    else p

module _ {N : Numerics} where
  -- The change of `record`, once its relation is known
  unfoldable pub recorded : ℕ → List (RowChange N) → Capture N → Capture N
  recorded now [] c = c
  recorded now (ch ∷ chs) c = record c { changes = c.changes ++ ch ∷ chs; last_event = some now }

  -- `setErr`
  unfoldable pub set_err : GoString → Capture N → Capture N
  set_err e c = record c { err = some e }

module _ {N : Numerics} (codec : Codec N) where
  -- `decodeText`
  unfoldable pub decode_text : ℕ → GoString → Value N
  decode_text oid data_text = go (codec oid data_text)
    where
      go : Option (Value N) → Value N
      go none = string data_text
      go (some v) = v

  -- The loop of `decodeTuple` over the columns of the tuple and of the relation
  unfoldable pub decode_cells : List (GoString × ℕ) → List Cell → Fields N → Fields N
  unfolding decode_text put_field
  decode_cells cols [] out = out
  decode_cells [] (cell ∷ cells) out = out
  decode_cells ((name, oid) ∷ cols) (null_cell ∷ cells) out =
      decode_cells cols cells (put_field name null out)
  decode_cells ((name, oid) ∷ cols) (text_cell t ∷ cells) out =
      decode_cells cols cells (put_field name (decode_text oid t) out)
  decode_cells (col ∷ cols) (unchanged ∷ cells) out = decode_cells cols cells out

  -- `decodeTuple`, of a tuple that is not nil
  unfoldable pub decode_tuple : Relation → Option (List Cell) → Option (Fields N)
  unfolding decode_cells
  decode_tuple rel none = none
  decode_tuple rel (some cells) = some (decode_cells (rel.columns) cells end)

  -- The change of `record`: none where the relation is not known
  unfoldable pub row_change :
      Option Relation → GoString → Option (List Cell) → Option (List Cell) → List (RowChange N)
  unfolding decode_tuple
  row_change none op old new = []
  row_change (some rel) op old new =
      (record {
        table = rel.namespace ++ (str "." ++ rel.relation_name);
        op = op;
        before = decode_tuple rel old;
        after = decode_tuple rel new;
        query = [];
      })
      ∷ []

  -- `handleWAL`
  unfoldable pub handle_wal : ℕ → Message → Capture N → Capture N
  unfolding relation_at row_change recorded
  handle_wal now (relation id rel) c = record c { relations = (id, rel) ∷ c.relations }
  handle_wal now (inserted id new) c =
      recorded now (row_change (relation_at id (c.relations)) insert_op none (some new)) c
  handle_wal now (updated id old new) c =
      recorded now (row_change (relation_at id (c.relations)) update_op old (some new)) c
  handle_wal now (deleted id old) c =
      recorded now (row_change (relation_at id (c.relations)) delete_op old none) c
  handle_wal now (committed lsn) c = record c { last_commit = lsn; last_event = some now }
  handle_wal now ignored c = c

  -- The rest of the turn
  unfoldable pub received : ℕ → Received → Pump × Capture N → Pump × Capture N
  unfolding handle_wal set_err
  received now timed_out (p, c) = (p, c)
  received now other (p, c) = (p, c)
  received now (broken e) (p, c) = (record p { running = false }, set_err e c)
  received now (keepalive false) (p, c) = (p, c)
  received now (keepalive true) (p, c) = (record p { next_deadline = now }, c)
  received now (xlog none) (p, c) = (p, c)
  received now (xlog (some (start, len, m))) (p, c) =
      (record p { position = start + len }, handle_wal now m c)

  -- A turn of `pump` whose context is not cancelled
  unfoldable pub pump : ℕ → Received → Pump × Capture N → Pump × Capture N
  unfolding report_status received
  pump now r (p, c) = received now r (report_status now p, c)

-- `BeginWindow`
unfoldable pub begin_window : {N : Numerics} → Capture N → Capture N
begin_window c = record c { changes = []; window_start = c.last_commit; last_event = none }

-- The end of `TakeWindow`
unfoldable pub close_window : {N : Numerics} → Capture N → List (RowChange N) × Capture N
close_window c = (c.changes, record c { changes = [] })
