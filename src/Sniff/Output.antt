-- ===== src/Sniff/Output.antt =====
-- The output file of the passive capture, internal/sniff/sniff.go: sampling, names and counters.
-- `Float` is float64 with its order and constants; a draw of `o.rand` and the outcome of each write
-- are inputs.
pub mod Counters
use mocking_box.Prelude.{
  ℕ, suc, ◌+◌, Bool, true, false, not, ◌&&◌, ◌||◌, List, [], ◌∷◌, ◌++◌, if◌then◌else◌, GoString,
  str, eqs, itoa,
}
use mocking_box.Diff.Value.{Numerics}
use mocking_box.Sniff.Pairing.{Exchange}

-- float64 as far as sampling reads it.
pub record Floats : Type 1 where
  pub Float : Type 0
  pub le : Float → Float → Bool
  pub zero_float : Float
  pub one_float : Float

-- A record of the file: the name and the exchange it holds.
pub record Written (N : Numerics) : Type 0 where
  pub name : GoString
  pub exchange : Exchange N

pub record Output (N : Numerics) (F : Floats) : Type 0 where
  pub seq : ℕ
  pub count : ℕ
  pub skipped : ℕ
  pub sample_rate : F.Float
  pub sample_all_writes : Bool
  pub file : List (Written N)

-- An exchange for the sink, with the draw and the success of the write that it meets.
pub record Arrival (N : Numerics) (F : Floats) : Type 0 where
  pub exchange : Exchange N
  pub draw : F.Float
  pub writes : Bool

-- `method == "GET" || method == "HEAD"`
unfoldable pub is_read : GoString → Bool
unfolding eqs
is_read method = eqs method (str "GET") || eqs method (str "HEAD")

-- `fmt.Sprintf("sniff-%d-%s-%s", o.seq, ex.Method, ex.Path)`
unfoldable pub record_name : {N : Numerics} → ℕ → Exchange N → GoString
unfolding itoa
record_name seq ex = str "sniff-" ++ (itoa seq ++ (str "-" ++ (ex.method ++ (str "-" ++ ex.path))))

module _ {N : Numerics} {F : Floats} where
  -- `sampledOut`
  unfoldable pub sampled_out : Output N F → GoString → F.Float → Bool
  unfolding is_read
  sampled_out o method draw =
      if F.le (o.sample_rate) (F.zero_float) || F.le (F.one_float) (o.sample_rate)
      then false
      else if not (is_read method) && o.sample_all_writes
      then false
      else F.le (o.sample_rate) draw

  abbrev skip : Output N F → Output N F
  skip o = record {
    seq = o.seq;
    count = o.count;
    skipped = suc (o.skipped);
    sample_rate = o.sample_rate;
    sample_all_writes = o.sample_all_writes;
    file = o.file;
  }

  abbrev fail : Output N F → Output N F
  fail o = record {
    seq = suc (o.seq);
    count = o.count;
    skipped = o.skipped;
    sample_rate = o.sample_rate;
    sample_all_writes = o.sample_all_writes;
    file = o.file;
  }

  abbrev append : Output N F → Exchange N → Output N F
  append o ex = record {
    seq = suc (o.seq);
    count = suc (o.count);
    skipped = o.skipped;
    sample_rate = o.sample_rate;
    sample_all_writes = o.sample_all_writes;
    file = o.file ++ record { name = record_name (suc (o.seq)) ex; exchange = ex } ∷ [];
  }

  -- `Sink`
  unfoldable pub sink : Output N F → Arrival N F → Output N F
  unfolding sampled_out record_name
  sink o a =
      if sampled_out o (a.exchange.method) (a.draw)
      then skip o
      else if a.writes
      then append o (a.exchange)
      else fail o

  -- The exchanges of a capture, in their order.
  unfoldable pub sink_all : Output N F → List (Arrival N F) → Output N F
  unfolding sink
  sink_all o [] = o
  sink_all o (a ∷ rest) = sink_all (sink o a) rest

  -- `Stats`
  unfoldable pub stats : Output N F → ℕ × ℕ
  stats o = (o.count, o.skipped)
