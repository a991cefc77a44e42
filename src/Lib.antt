-- ===== src/Lib.antt =====
-- vm-sync copies the samples of one VictoriaMetrics database to another over a link that answers
-- each frame with one byte. A poller exports the samples of a time window, splits the response
-- into frames and appends them to a write-ahead log; the sender takes the frames from the log one
-- after the other, sends them, and acknowledges a frame in the log when the receiver has answered
-- 0xff; the receiver imports the payload into its database, keeps what the database refuses for
-- good as dead letters, and may append the payload to a log of its own for the next hop.
--
-- The modules and the code they are about:
-- - Base: lists, maps, texts and signed integers over the native numbers, which stand for the
--   parts of Go's library that the program uses.
-- - Protocol (internal/protocol): Frame has the constants, errors and records of frame.go; Codec
--   has Encode, encodeRaw, ParseHeader, Decode and Decompress of codec.go; Crc is the CRC-32;
--   Layout, RoundTrip and Accepts relate them; Reseq is the rewriting of a frame's number, which
--   the log does.
-- - Vm (internal/vm/client.go): Http has the decisions on a response; Timestamps reads the last
--   time stamp; Probe is the bisection for the oldest sample.
-- - Wal (internal/wal): Scan is indexSegment and resyncRecord of wal.go on a file's bytes; State
--   is the WAL struct with its directory, and the calls of the system; Append, Commit, Cursor and
--   Open are its operations, with cursor.go and dlq.go; Records, Rescan, Tail and Fuel are about
--   the scan; Outcome, Rewind, Leaving, Order, Peeked, Written, Durable, Steady and Wedged about
--   the operations. In Recovery, Segments describes a directory that a crash has left; Reindex,
--   Listing, Starting, Rebuilt and Reopened are about Open on it; Numbering, Directory, Named,
--   Relist, Relisted and Resumed about the files that there are then; and Adding, Room, Grown,
--   Taken and Survives about appending to the log and opening it again.
-- - Poller (internal/sender/poller.go): Window has NewPoller, windowSize and windowEnd; Split has
--   splitFrames; Once is pollOnce with launchPrefetch, a round over the log; Pressure is the loop
--   of Run with its backpressure; Bounds, Groups, Packed and Ordered are about them.
-- - Transport (internal/transport): Pipeline is connPipeline of tcp_server.go; Serving is
--   handleConn, whose read loop, handlers and writer make their steps in the order of a schedule;
--   Serial is the connection without concurrency that it is measured by; View, Reading, Writing
--   and Refines relate the two, Replies counts the bytes, Drained and Arrivals with Numbered are
--   about the answers and the calls; Client is tcp_client.go, and Settled is about it; Accepting
--   has Listen, Serve and Close of tcp_server.go, and Table and Limited are about the table of
--   connections.
-- - Sender (internal/sender/sender.go): Backoff has NewSender and backoff; Round is a round of Run
--   with a window of one frame, and AtLeastOnce and Answered are about it; Pipeline is runPipeline
--   with sendHeartbeat, over the client of Transport, and Matched, Delivers, Spent with Rounds,
--   Unpaced, and Released with Releases are about it.
-- - Receiver (internal/receiver): Tracker is seqTracker, Window the duplicate window, State and
--   Handle the handler and what it calls, all of receiver.go; Classify is dlq.go; Saved has
--   saveLastSeq and loadLastSeq, and Restored is about them; Restart has New, with what it makes
--   of a saved prefix; the other children are about them.
-- - Delivery: the stop-and-wait sender and the handler, joined by a link that may lose a frame or
--   its answer.
-- - Config (internal/config/config.go): Durations has parseDurationExt and dur; Sizes has
--   parseByteSize, parseSize and SegmentSize; Settings has the sender's settings with Validate,
--   ValidateBackfill and the conversions, Receiving the receiver's; Backfill has BackfillSpec;
--   Lag, Accepted and Effective are about them.
-- - Startup (cmd/sender/main.go): Backfilling is backfillInit, and Started is about it.
-- - Monitor (internal/monitor/metrics.go): the authentication of the metrics port, and the
--   reported delay.
-- - Examples: runs at concrete inputs.
--
-- State and effects. An operation of the log is a function from the log to an outcome: done,
-- failed with the state that the error leaves, panicked, or endless. The directory is part of the
-- state, with a list that tells for each coming call of the system whether it fails; the reads of
-- a segment's scan, each of which is made once, have a function that tells which of them fail. The
-- handler is a function of the receiver and of what it meets in the call: the clock, the
-- database's answer, and whether files can be written. A call of the handler and an operation of
-- the log is one step. On a connection of the server a schedule lists which thread makes its next
-- step, from one wait to the next; the byte that a handler returns is a parameter, a function of
-- the frame's place. The loop that accepts connections has a list of events, which the
-- connections' ends and Close are among. The client of the sender has a list of what the coming
-- calls of the network give, and where it is used up the context has ended. The sender's clock, in
-- a round of the sliding window, is a function of the number of answers.
--
-- Bounds and fuel. Numbers of 32 and 64 bits wrap where the code's do; offsets and segment
-- numbers, which the program never makes negative, are natural numbers. The loop of `done` has the
-- size of its set as fuel, the bisection 64 rounds, which halve an int64 range to nothing, the
-- scan of a segment one round more than the file has bytes, and the loop that removes segments one
-- round for each segment up to the next frame's; the theorems on them say that this is enough
-- where their conditions hold. The loop of runPipeline has rounds as fuel, one more than the
-- network has calls in store, and parseDurationExt one round more than the text has bytes.
--
-- What is left out. gzip and zstd are parameters, with reading back what was written as the
-- hypothesis IsLossless. Log lines, metrics output, error texts, the names and JSON of files,
-- request building and timeouts have no counterpart. White space is that of ASCII. Segment files
-- are known by their numbers. A receiver does not start with a negative number in its file.
-- time.ParseDuration and strconv.ParseFloat are parameters. Counters of frames that the code
-- starts at 0 and only increments do not wrap. The share of the disk that is used is a float, of
-- which the model has the band between the thresholds. Not modelled are the reading of YAML, the
-- commands but for backfillInit, the counters and the output of internal/monitor, internal/logger
-- and bench/linkproxy.
pub mod Base
pub mod Protocol
pub mod Vm
pub mod Wal
pub mod Poller
pub mod Transport
pub mod Sender
pub mod Receiver
pub mod Config
pub mod Startup
pub mod Monitor
pub mod Delivery
pub mod Examples
