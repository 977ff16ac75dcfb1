-- ===== src/Lib.antt =====
-- Mistr: a model of the decisions of the radar client.
--
-- The client shows radar observations of one Site (NEXRAD) or of the National mosaic (MRMS). What it shows is
-- acquired by the native backend, sent over as packed buffers, parsed here, painted by a renderer, and only then
-- called current. The parts modelled are the ones that decide: which source is current, which frames are resident,
-- which request is served, and which bytes are accepted.
--
-- The parts, with the files that model them:
-- - src/radar-session/RadarSessionCoordinator.ts: Session. `Source` has the source keys and the assertions;
--   `Coordinator` the class, a record with one function per method; `Calls` sequences of method calls. `Supersede`,
--   `Invariant`, `Paint` and `Notify` hold the proofs.
-- - src/radar-session/SiteLevel2Session.ts and NationalMrmsSession.ts: Session/Adapters. They run a transition of the
--   coordinator around one acquisition; the calls that reach the coordinator while it is awaited are a list. The text
--   of a number in a message is an argument; `Ends` lists the ways in which a session ends.
-- - src/radar-session/autoSourcePolicy.ts: Session/AutoSource, which source a camera calls for.
-- - src/data/radarSites.ts: Sites. The JSON catalog is an argument.
-- - src/live/liveHistory.ts, liveDisplayState.ts, siteRequestTracker.ts and backfillRetry.ts: Live/Frame and
--   Live/History, Live/Display, Live/Requests.
-- - src/playback/playheadCarry.ts: Playback/Playhead.
-- - src/playback/ResidentPlaybackController.ts: Playback/Resident has the methods up to their first `await`, and
--   `Update` the update of the history, with what reaches the controller at each `await` as an argument.
-- - src/national-radar/LatestOnlyAsyncQueue.ts: National/Queue. Its promises are tickets; an event is a call, the
--   settlement of `execute`, or the callback behind the drain.
-- - src/national-radar/NationalFinalizeLoop.ts, NationalRollbackLoop.ts, NationalBackfillLoop.ts and
--   NationalPollingLoop.ts: National/Loops, with `Settle` for the first two. A loop asks its callbacks at times that
--   grow, so their answers may depend on all that has happened, and returns its end with the calls that it made.
--   National/Rollback has the test of a snapshot that proves a rollback.
-- - src/national-radar/coverage.ts: National/Coverage, which chunks of a manifest a view needs.
-- - src/national-radar/NationalHistoryWorkingSetController.ts: National/Staging has the calls that an operation is
--   made of, National/WorkingSet the operation: it fetches a manifest, computes its coverage, sends the chunks
--   through Transfer/Pipeline, matches each with PackedGrid/Match, and commits or rolls back. That the client answers a
--   request with the chunks that it names is a hypothesis: a batch is checked for it by PackedGrid/Batch, a single chunk
--   is not.
-- - src/packed-grid/transferPipeline.ts: Transfer/Pipeline. The calls made are listed in order.
-- - src/packed-sweep/transferClient.ts: Transfer/Lanes has the session and the generations of its two lanes, with each
--   method up to its `await` and from there on, Transfer/Acks the release acknowledgements, with what other calls do to
--   them at each `await` as an argument, and Transfer/Acquire
--   `acquireAllOrRelease`.
-- - src/ui/recentSites.ts: Ui/RecentSites, over what the text in the storage parses to.
-- - src/packed-grid/packedGrid.ts: PackedGrid. `Bytes` reads big-endian buffers, `Descriptor` the geometry of a
--   chunk, `Header` what both records share, `Manifest` and `Chunk` the parsers, `ObjectKey` the time in a key,
--   `Match` the match of a chunk with its manifest. `Batch` models src/packed-grid/chunkBatch.ts, chunks sent
--   behind one another.
-- - src/packed-sweep/packedSweep.ts: PackedSweep. `Wire` reads little-endian buffers, `Sections` the four sections,
--   `Gates` the gates and radials, `Parse` the parser.
-- Prelude has what they share: Boolean tests on the native numbers, results, lists and integers. A module Tests
-- beside the proofs runs the code on concrete values.
--
-- How the code is read. A JavaScript number that the code uses as a count, a time or a generation is a natural
-- number; `increment` stops at 2^53, where a double does, and theorems that need a fresh counter say below which
-- bound it stays. A function that throws returns a `Result`, with one error constructor for each kind of throw.
-- Buffers are lists of bytes. Doubles, SHA-256, UTF-8 decoding, the calendar of `Date`, text case, and the range
-- between two points are parameters. Callbacks that only report are taken to return; the answers of the others are
-- arguments. The bisection of the playhead runs on fuel, the length of the history, and is shown to end within it.
-- The National loops run for as long as the session lets them: they are given rounds, and the theorems say what has
-- happened if these are spent. Every other loop is structural.
--
-- Not modelled: the React user interface (src/App.tsx, and src/ui but for the recent sites), the WebGL layers and
-- their geometry (src/radar-renderer, src/national-radar/NationalGridLayer.ts), the rest of the client of the backend
-- (src/packed-sweep/transferClient.ts) and of the playback controllers, the working set of one National observation,
-- and the Rust backend (src-tauri), which do input and output or belong to later parts of this library.
pub mod Prelude
pub mod Sites
pub mod Session
pub mod Live
pub mod Playback
pub mod National
pub mod PackedGrid
pub mod PackedSweep
pub mod Transfer
pub mod Ui
