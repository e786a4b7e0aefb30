-- ===== src/Lib.antt =====
-- agentic-stats, a peer-to-peer archive of AI coding transcripts: its core logic, modelled and
-- verified.
--
-- The program tails the transcripts of coding assistants on every machine, archives their lines
-- in a local store under numbers of its own, and exchanges what it has with its peers until all
-- hold the same. The parts, in the order in which a line passes through them:
--
-- Source (internal/source/source.go, tail.go): Read of a FileStream, with truncated and replaced
--   files and complete lines only. Source.Lines is about the lines of one window of bytes,
--   Source.Start and Source.Resume about a read from a cursor. A file is what Stat and the reads
--   gave, which may differ when it changes meanwhile.
-- Cursor (internal/cursor): the record codec and Load, Save and Delete of the embedded database,
--   which is a list of keys and values.
-- Collector (internal/collector, internal/cursor/memory.go, NewRecord of internal/wire/wire.go):
--   CollectOnce with drainStream, flush and commit, as functions on the pass's state that return
--   the state and perhaps an error; Collector.Stores compares the two cursor stores. Streams,
--   server and cursor store answer as arguments say.
-- Derive.Identity (internal/derive/identity.go): what is read of one line.
-- Derive.Project (internal/derive/project.go): which project a working directory belongs to, with
--   the sort as insertion by length and name, which puts distinct directories in one order.
-- Ingest (internal/ingest/ingest.go): a batch of collected lines into the replica, which is what
--   the collector uploads to.
-- Ingest.Reprocess (internal/ingest/reprocess.go): Pass, which extracts archived records again, with
--   Store.Extraction (internal/store/extraction.go) for its marks and updates. Its parts are what a
--   batch does to a row, what moved marks say of the archive, the loop over one origin, the walk over
--   the origins, and the whole pass.
-- Store (internal/store/records.go, inTx of internal/store/store.go, the tables of
--   internal/store/migrations/0001_init.sql): Store.Record is a record and its row, Store.Table the
--   table with its keys and unique indexes, Store.Append AppendLocal and AppendRemote,
--   Store.Order and Store.Query what Since and Vector read, Store.Peers what is kept of peers. An
--   SQL statement is modelled by its documented meaning over lists of rows.
-- Sync (internal/mesh/sync/sync.go): Sync.Wire is the wire form, Sync.Digest the comparison of
--   digests and resendFrom, Sync.Message what the nodes tell each other, Sync.Send and Sync.Receive
--   the two sides of an exchange, with the frames that writeFrame refuses, Sync.Clash and
--   Sync.Convergence what they come to together where none is refused.
-- Sync.Frame (internal/mesh/sync/frame.go): the frames that carry the messages of an exchange.
-- Bridge (internal/bridge/bridge.go): Bridge.Key is the naming of bundles, Bridge.Folder Publish,
--   Fetch and Sync over a folder that both sides reach; the rest of Bridge is about what these
--   leave in the folder and in the replica.
-- Mesh (internal/mesh/mesh.go, health.go): Mesh.Dial is the dial loop with its backoff and what
--   wakes it, Mesh.Known which peers are reported, Mesh.Outcome what is recorded of an exchange, and
--   Mesh.Health what is reported of a peer.
-- Hostnames (internal/hostnames/hostnames.go, Hostnames and SaveHostname of
--   internal/store/records.go): which addresses of peers a sweep looks up, and what it keeps.
-- Mesh.Beacon (internal/mesh/beacon/beacon.go): what an announcement on the network holds and which
--   are taken, over lists of bytes.
-- Supervise (internal/supervise/supervise.go): the restarts of a subsystem, over rounds whose
--   endings, durations and random draws are data.
-- Resume (internal/resume/resume.go): which ticks of the clock tell of a suspend.
-- Version (internal/version/version.go): release identities and their order.
-- Release (internal/release/release.go): the signed manifest of a release, over lists of bytes.
-- Update (internal/update/update.go): Target, and Pass with the manifest, the downloads, their
--   checks and the installer; temporary files are a list of paths and contents.
-- Update.Replace (internal/update/install_windows.go, stageBeside of internal/update/install.go):
--   replacing a binary, call by call of the system, each of which may fail.
-- Prelude holds the names and lemmas that these share, Tests runs of the models on concrete inputs.
--
-- Numbers are natural numbers: offsets, sequence numbers and counts are never negative in the
-- code, and its guard `seq <= 0` is `seq == 0`. Maps are lists, iterated in the order of the list.
-- Decimal digits are made on fuel of the number itself, and Publish goes round at most as often as
-- there are numbers to publish; both are enough. A re-extraction goes round at most once
-- for every number up to the origin's highest, which is its fuel. Fuel bounds three loops that the
-- code leaves open: the batches for one origin, for which one more than the records to send is
-- enough; the reading of frames, for which one more than the frames is enough; and the loop over one
-- stream of a pass, whose theorem holds for all fuel. The lines of one window are cut on fuel of one more
-- than its bytes, which is enough.
--
-- Not modelled: failures of the database engine, among them its refusal of a record whose sealed
-- body is NULL; failures of a connection; a temporary file that the update pass cannot remove;
-- cancellation of contexts but in Supervise and Ingest.Reprocess, the interleaving of an exchange's
-- two directions, JSON, TLS, sockets and DNS, the computation of digests and hashes (SHA-256 and
-- FNV-1a are arguments or given texts), logging, the web interface, the command line, and the
-- derived statistics.
pub mod Prelude
pub mod Update
pub mod Version
pub mod Source
pub mod Bridge
pub mod Collector
pub mod Cursor
pub mod Derive
pub mod Hostnames
pub mod Ingest
pub mod Mesh
pub mod Release
pub mod Resume
pub mod Store
pub mod Supervise
pub mod Sync
pub mod Tests
