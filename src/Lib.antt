-- ===== src/Lib.antt =====
-- mocking-box: differential testing of a backend rewrite (Go, cmd/ and internal/).
--
-- The program sends the same HTTP requests to an old and a new stack, or to a new stack alone against
-- a recorded golden, and compares the responses and the rows that each request wrote. Recordings come
-- from a passive capture, a HAR file or a proxy; a collector on the old host is driven by a dashboard.
--
-- The parts and their files:
--   * Prelude: Go strings as lists of bytes, maps as association lists, results with an error,
--     integers, stable sorting, and the lemmas that the parts share.
--   * Diff: internal/diff/diff.go and internal/writeset/writeset.go. Value is NormValue over all
--     dynamic types, Json is json.Marshal on them, Canonical is canonical and equal, Path is
--     PathMatches, Strip is StripNoise, SortArrays is SortArrays, Response is diffJSON and
--     DiffResponses, Writeset is NormalizeWriteset and DiffWritesets, Verdict is VerdictOf. Blind
--     is about binary values and missing columns.
--   * Sniff: internal/sniff. Pairing is pairer of sniff.go, a step of which is addRequest or
--     addResponse on the queues of a connection; Output is Output.Sink with its sampling and counters;
--     Sources is sources.go, the loops over packets and the choice of an interface.
--   * Config: internal/config/config.go, Load after yaml.Unmarshal; Choice has the lookups and For of
--     internal/wscapture/factory.go.
--   * Corpus: internal/corpus/corpus.go; load_jsonl and load for JSONL, Har for HAR files.
--   * Golden: internal/golden/golden.go, the writer and Read on the lines of a file,
--     with the bound of its scanner.
--   * Replay: internal/replay. Fire is fireStack, Run is Runner.Run and runOne, Verify is Verifier.Run
--     and verifyOne; Unchanged is about a stack that answers as recorded. They use Config, Corpus,
--     Golden and Diff.
--   * Binlog: internal/binlog/capture.go, the pump, normalize, BeginWindow and TakeWindow; Logged is
--     about the changes of a row event.
--   * Recorder: internal/capture/capture.go, the handler of the recording proxy, its records and
--     counters, with the windows of a write-set source in golden mode.
--   * Seed: internal/seed/seed.go. Tables is Run with copySchema, copyTable and writeMarker over a
--     source and a target; Batches is about copyTable's inserts; Pairs is RunPairs, Sums its totals, Discovery is
--     Discover and ReadMarker.
--   * Pg: internal/pg. Connection is pg.go, Copy is copy.go; of capture.go, Capture is the pump and the
--     messages, Windows is BeginWindow and TakeWindow as steps of the pump and of the window's own
--     loop, Start is Start and Stop.
--   * Mcp: internal/mcp. Tools and Calls are tools.go over the dashboard, with the list of the calls as
--     state; Serve is mcp.go, Run, dispatch and reply.
--   * Cli: cmd/mockingbox/main.go. The file itself is main and cmdCollect; Verify is cmdVerify and
--     cmdRun over Replay and Config, Seeding is cmdSeed, Collect the collectors; Exit is about the
--     exit status.
--   * Agent: internal/agent. Daemon is daemon.go, the captures of the collector as a step relation on
--     its state, Running the rest of it; Reporter is agent.go.
--   * Ui: internal/ui. Registry is agents.go: registration, heartbeats, commands and saved recordings;
--     Replaying is the replay and the checks of captureStart in ui.go; Settings is configToJSON with
--     its reading by the tags of internal/config/config.go; Listing has the lists of runs and
--     recordings and putConfig; Seeding is seed_api.go, testconn.go and healthCheck.
--   * Tests: runs at concrete inputs, and every theorem below at one.
--
-- What the code calls and the repository does not hold is a parameter: floating point and decimals
-- (Numerics), float64 in sampling (Floats) and timeouts (Seconds), json.Unmarshal, the JSON of golden
-- records (Format), url.Parse, net/http and the window that a replay takes (Services), the proxy
-- (Upstream), the outcome of writing a file, the clock, what a poll of the database finds (Poll), the
-- databases of a copy (Source, Target, Copies), pglogrepl and the codecs of pgtype (Codec), the
-- PostgreSQL server (Server), pgconn's reader of quoted values (QuotedReader), yaml (Yaml), libpcap and
-- the pipeline (Capturing), the flags' values, and what a dashboard answers (Dashboard).
-- The package internal/report is not in the repository; its results are inputs of Ui.Replaying and of
-- Cli.Verify (Packages).
--
-- Fuel: the loop of TakeWindow runs on a number of turns; a turn sleeps 50 ms, so that the turns
-- that pass the deadline at that pace are enough. itoa has fuel for one digit more than its number.
-- TakeWindow of the PostgreSQL source runs over the steps of an interleaving, of which a turn after
-- its deadline and its lock are enough. pollSeed and pollReplay have the turns that the code allows.
-- All other loops are structural.
--
-- Not modelled: TCP reassembly and HTTP parsing, which are tcpassembly and net/http with goroutines;
-- the positions and column lookups of the binary log, the queries of the catalogues and the health
-- checks of databases, which are SQL; static files and routes; the usage texts and log lines.
-- Strings compare and fold case by ASCII bytes, and texts in Korean are told by others.

pub mod Prelude
pub mod Diff
pub mod Sniff
pub mod Config
pub mod Corpus
pub mod Golden
pub mod Replay
pub mod Binlog
pub mod Recorder
pub mod Seed
pub mod Pg
pub mod Mcp
pub mod Cli
pub mod Agent
pub mod Ui
mod Tests
