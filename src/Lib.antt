-- ===== src/Lib.antt =====
-- odds-engine: a simulator of bookmakers' odds and an engine that prices and bets on the feed.
--
-- The program's parts, and the files that model them:
--   proto/*.hpp: the records of the wire and of the session file. Wire (layouts over Base.Bytes),
--     Wire/RoundTrip.
--   sim/UdpSink.hpp, engine/UdpSource.hpp: the live feed. UdpSink sends batches of up to 16 records
--     with an announce before any data and after every 64 batches; UdpSource opens on an announce,
--     checks each datagram, keeps counters and hands out records. UdpSink, UdpSink/Shape, UdpSource,
--     UdpSource/Accounting; Delivery and its children put the two together.
--   sim/OutputSink.hpp (FileSink), engine/SessionReader.hpp: the recorded feed. Session,
--     Session/Recorded, Session/Replay.
--   engine/BookTable.hpp: the newest quote of each market and book. BookTable and its children.
--   engine/Devig.hpp: implied beliefs from odds. Devig, Devig/Power, Devig/Shin and their children.
--   engine/Consensus.hpp: the fair price of a market. Consensus and its children.
--   engine/Kelly.hpp: the stakes. Kelly and its children.
--   engine/main.cpp: the loop that puts records into the table and, where a timestamp ends, prices
--     every market and sizes bets (Engine/Run, Engine/Market and their children); the commands of
--     the dashboard (Engine/Control, and Engine/Json for json_string and json_number of
--     engine/WsServer.hpp); the command line (Engine/Args). Engine/ReplayHash is
--     engine/ReplayHash.hpp.
--   engine/WsServer.hpp: the dashboard's server. Dashboard has the frames and Dashboard/Backlog their
--     bounds, Dashboard/Digest the SHA-1 and base64 of the handshake, Dashboard/Server the clients
--     and the passes of service and broadcast; Dashboard/Flush, Dashboard/Health, Dashboard/Frames
--     and Dashboard/Answer are about these.
--   sim/main.cpp, sim/Bookmaker.hpp, sim/LatentMarket.hpp, sim/Seeding.hpp, sim/FanoutSink.hpp: the
--     simulator. Sim (what its parts share), Sim/Seeding, Sim/Latent, Sim/Bookmaker and its
--     children, Sim/Generate (the loop), Sim/Args, Sim/Target (the --udp target), Sim/Fanout
--     (the sinks of a run); Sim/Feed says what a feed is, and Sim/Run that a run is one.
--   sim/JumpSink.hpp, sim/SettlementSink.hpp: the files of jumps and winners. Sim/Timeline.
--   tools/verify_session.cpp: the checks of a session file. Verify, Verify/Accepts, Verify/Whole.
--   tools/udp_listen.cpp: the capture of a live feed. Listen, Listen/Whole.
--   analytics/analyze_bets.cpp: the scoring of a bet log. Analysis, Analysis/Closing, Analysis/Jumps,
--     Analysis/Timeline.
--   engine/TruthReader.hpp: the index of the recorded probabilities. Truth.
--   engine/BetLog.hpp: the log of the bets. BetLog, BetLog/Written.
-- Base holds the shared helpers, Tests runs at concrete inputs.
--
-- How the code is modelled. A class is a record of its members and an operation a function from the
-- record to the next one; counters wrap at 2^64 where the C++ wraps. A `double` is an instance of
-- Float's `Double`, and the laws that a theorem takes as hypotheses (order, small whole numbers,
-- midpoints, division of chances) are documented behaviour of IEEE 754; Float/Fixed is an arithmetic in which all of them
-- hold. An array of four outcomes is a `Quad`. An exception is a value. What the kernel or the C
-- library does is an argument: which datagrams arrive, whether `socket`, `inet_pton`, `connect`, `send`
-- and `fwrite` succeed, `strtod`,
-- the conversion of a double to an integer, the bytes of a double, `pow`, the random numbers, and
-- what `accept`, `poll` and `recv` give to a pass of the server.
--
-- Bounds and fuel. The doubling loop of `power` gets ten rounds, and stops by its own test within
-- them. More fuel than the buffer has bytes is enough for `decode_frames`. `UdpSource::next` gets two
-- rounds, since a batch is never empty. The solvers' loops are bounded by max_iterations, as in the
-- code. `flush` gets one round more than there are bytes to send, and each round but the last sends
-- one; the loop of `verify_session` one more than there are records, and the
-- reading of a file of jumps or winners one round for each byte. A count of outcomes above 4 is outside of the model: the C++ then indexes past its arrays.
--
-- Not modelled: sockets and files beyond their bytes, printing, the text of JSON replies and of the
-- dashboard's page, the pacing of the simulator, the bytes of the truth file and of the bet
-- log as the analysis reads it, the summary of the analysis, tools/validate_devig.cpp, the command lines of the
-- tools, and the repository's tests.
pub mod Base
pub mod Wire
pub mod BookTable
pub mod UdpSink
pub mod UdpSource
pub mod Delivery
pub mod Float
pub mod Consensus
pub mod Kelly
pub mod Listen
pub mod Analysis
pub mod Truth
pub mod Devig
pub mod Session
pub mod Sim
pub mod Verify
pub mod Engine
pub mod BetLog
pub mod Dashboard
pub mod Tests
