-- ===== src/Lib.antt =====
-- alac-bot: a Telegram bot that finds music, rips it through one worker at a time, packs and
-- uploads it, and streams what it has cached. This library models the parts that decide in
-- which order work is done, what is written under which name, and which bytes are sent.
--
-- The parts and how they meet:
-- - The queue (crates/engine/src/queue.rs, RipQueue.antt) runs submitted rips one after the
--   other. Its lock makes every section between two awaits atomic, so that `submit`,
--   `abort_pending`, `abort_active`, `clear`, `take_next` and `release` are functions on the
--   record Queue, and a schedule is a list of Events that `step` carries out on a System, which
--   has the queue, its workers at their program points, the watchers of abort signals and the
--   results sent. An await of a task, of a signal or of the lock is a point where any other
--   event may come. A task, its callbacks and its payload are numbers. A result is a value,
--   a failure, a panic with its message, or the abort. The callbacks are taken to return, since
--   one that panics ends the worker that calls it.
-- - Names (crates/engine/src/filename.rs, Filename.antt) are made safe for a file system
--   before the archives and tracks are written. A text is a list of code points
--   (Prelude/Text.antt), with the byte length of UTF-8 written out, since the limits count bytes.
-- - Archives (crates/engine/src/zip.rs, ZipPlan.antt) are planned into parts under a size
--   limit, with names from the module of names. The hash of the tracks and the writing of
--   archives are not modelled.
-- - Streaming (crates/stream/src, Stream.antt) answers a range request. Stream/Range.antt is
--   `ByteRange`, Stream/Pipe.antt the task of `create_stream_pipe`, Stream/Breaker.antt the
--   circuit breaker and Stream/Pool.antt the worker pool, which asks the breaker which of its
--   workers may be used; what a pass of `fetch_chunk` meets is a Turn. For the task of the pipe
--   the cache, the pool, the refresher and the receiver are the environment of each chunk
--   (ChunkEnv): what they would answer, for every chunk, offset and round of the retry loop. What
--   the task does is a list of PipeEffects.
-- - The callback protocol (crates/bot/src/interaction.rs, Interaction.antt) is what buttons of
--   messages carry: `decode` reads a payload and `encode` writes one. Interaction/Grammar.antt has
--   the tests of the fields, Settings, Report and Discovery their features' parts. A `match` on
--   literals is a list of words with their results, in the source's order.
-- - Playback synchronisation (crates/server/src/playback_sync.rs, PlaybackSync.antt) keeps a
--   room of a user's devices. `handle_message` and `disconnect` are what `handle_socket` does
--   to the room under its lock, and `step` carries out the openings, messages and closings of
--   sockets in any order. The authentication of a socket, the forwarding of what the room
--   broadcasts and the JSON of messages are not modelled.
-- - Settings (crates/engine/src/settings.rs, BotSettings.antt) decide who may rip and who is
--   served from the cache; the settings' part of the callback protocol changes them.
-- - The ripper (crates/engine/src/ripper.rs, Ripper.antt) stages a track in a private directory
--   and moves it to its name, and tries again after an error. Ripper/Error.antt has the errors,
--   Ripper/Download.antt the loop that writes the stream. What an attempt meets (the signal at
--   each place that looks at it, the answers of the stage, of the file system and of the media
--   tools, the names that exist already, the removals that fail) is a record, Attempt; the
--   directory is the private directories and the named files.
-- - The names of tracks (crates/engine/src/tagger.rs, Tagger.antt) are what a rip writes to.
-- - The mirror policy (crates/apple/src/mirror_policy.rs, MirrorPolicy.antt) looks up the
--   endpoint of the mirror behind a cache and a circuit. The adapter of requests, the JSON
--   parser and the clock are in a record, World.
-- - The cache of Apple Music's catalogue (crates/apple/src/catalog/cache.rs, CatalogCache.antt)
--   stands on the ordered map of another library, which is an interface: its operations and
--   what is documented of them.
-- - Qobuz (crates/qobuz/src/acquisition.rs and gateway.rs, Qobuz.antt) resolves a track at a tier
--   of a ladder through two gateways, and turns their errors into those of the ripper. What a
--   gateway answers for a tier is a function, since each tier is asked for once.
-- - The orchestrator (crates/engine/src/orchestrator/mod.rs, Orchestrator.antt) runs jobs.
--   Orchestrator/Jobs.antt is the life of a job, `start_job` and `cancel_job` cut into the
--   stretches between two locks: a step of the relation Step carries out one stretch, the
--   system is what the steps reach, and what `run_job` returns is chosen. Orchestrator/Lane.antt
--   is `run_lane_one` with `rip_fresh_item`, Orchestrator/Dispatch.antt `run_ordered_dispatch`,
--   which sends on in the order of the album: its channel is the list of slots that are still to
--   come, and a turn is given to each slot. Orchestrator/Cached.antt is `resolve_cached_item`,
--   Orchestrator/Storage.antt the calls of the track cache that are tried again.
-- Prelude.antt and its children hold what these share: tests on numbers, lists over native
-- numbers, texts, decimal and signed numbers, words of 32 and 64 bits, and splitting.
--
-- Bounds and fuel: the loop of retries of a rip runs on one unit of fuel more than max_retries,
-- which is a pass for each retry and one for the first attempt, and has a value of its own for a
-- loop that is not over. The loop of `fetch_chunk` runs on a fuel that is given, since
-- migrations do not count as attempts; one pass for each attempt, for each migration and for the
-- end is enough. The retry loop and the loop over chunks of the stream recurse on the rounds and
-- chunks that are left, which the source fixes before the loop starts; the download on the
-- rounds until the stream is over. The bound of the name functions counts down a list. A worker
-- of the queue has no bound of its own: it takes turns for as long as the schedule gives it
-- some. The retries of the track cache run on the attempts of their policy, one pass for each.
-- The loop of the ordered dispatch runs on one unit more than the number of slots, since each
-- pass uses one up. Identifiers of the queue are wide enough not to wrap around, and file sizes
-- fit into 64 bits; the delays of a rip wrap around as u64 does.
--
-- Not modelled: the calls of Telegram, of the databases and of ffmpeg, the decryption service,
-- the routes of the server and the text of messages; they move data between services. Of the
-- orchestrator, what `run_job` does before its lanes start, the upload of an item and the end of
-- a job are not yet part of this library, and neither are the caption and the parsers of links
-- and playlists, which are pure.
pub mod Prelude
pub mod RipQueue
pub mod Filename
pub mod ZipPlan
pub mod Stream
pub mod Interaction
pub mod PlaybackSync
pub mod BotSettings
pub mod MirrorPolicy
pub mod CatalogCache
pub mod Tagger
pub mod Ripper
pub mod Qobuz
pub mod Orchestrator
mod Tests
