-- ===== src/Lib.antt =====
-- A peer-to-peer file sharing system: trackers keep accounts, groups and file metadata, and
-- clients fetch pieces of files from one another. This library models the C++ code of src/ in the
-- repository and proves what makes it correct.
--
-- Parts and files.
--   Bytes.antt, Bytes/, Container.antt, Container/: std::string as a list of bytes, decimal output,
--     and the standard's maps and sets as lists in the order of first insertion.
--   Common/Message: src/common/message.cpp. Common/Hash: src/common/hash.cpp.
--   Common/Auth: src/common/auth.cpp. Common/Socket: src/common/socket_io.cpp.
--   Common/Config: src/common/config.cpp.
--   Tracker/Session: src/tracker/session_manager.cpp.
--   Tracker/State: src/tracker/tracker_state.h and .cpp, method by method under the same names; a
--     step that goes on with an entry that was looked up has a function of its own (`join_found`).
--   Tracker/Operation: the methods by which clients' commands and disconnections change the state, as
--     data, so that a history of concurrent clients is a list of them; its children hold what is
--     proved of all of them. The frames of another tracker (`merge_from`) and a snapshot
--     (`load_snapshot`) are not among them.
--   Tracker/Persistence: src/tracker/persistence.cpp.
--   Tracker/Recovery: proofs about a snapshot that was written and is read back.
--   Tracker/PeerLink: the cycle of src/tracker/peer_link.cpp.
--   Tracker/Dispatch and Tracker/Connection: `dispatch` and `managepeer` of src/tracker/main.cpp.
--   Tracker/Sharing, Tracker/Replication: proofs about shared files and about merges.
--   Client/UploadRegistry: src/client/upload_registry.cpp. Client/PeerServer: `serve_one` of
--     src/client/peer_server.cpp, and in Queue its threads. Client/Port: the test of a port that several files make.
--   Client/Downloader: src/client/downloader.h and .cpp. Info: the table of downloads and `start`.
--     Reply: how the tracker's answer is read. Storage: the output file and the sidecar. Fetch: one
--     peer's turn for one piece. Pool: the worker threads. Run: `run` from the answer to the final
--     check. Report: `report`. The children of these hold proofs.
--   Client/TrackerClient: src/client/tracker_client.cpp. Client/Commands: src/client/commands.cpp;
--     its children are the help text and proofs, those on what the tracker makes of a command
--     included.
--   Client/Http, Client/Http/Json: src/client/http_server.cpp. Client/WebUi, Client/WebUi/Arguments:
--     src/client/web_ui.cpp.
--   Tests/: the theorems at concrete inputs, and runs.
--
-- Correspondence. A method that holds the tracker's lock is one function from a state to a state
-- and a result, and what several connections do is a sequence of such steps. The clock, what
-- RAND_bytes drew, and the address of a socket are arguments; OpenSSL's digests are the parameter
-- `evp`. Sizes and piece counts are natural numbers: every caller has refused negative ones. The
-- version counter wraps at 2^64, and the sum for the expected number of pieces at 2^63. The order
-- in which an unordered container is walked is that of first insertion, one of those that the
-- standard allows. Loops recur on their list, and decimal output on its own number as fuel: each
-- round divides by ten. The two directions of a connection are the chunks that arrive and the
-- numbers of bytes that calls of send take. A regular file gives a read all the bytes it asks for
-- that are there.
--
-- What the surroundings do is an argument of the step that meets it: a `Turn` for a worker (the
-- socket, the peer's bytes, the file's calls), a `Preparing` for the output file, a `Course` for a
-- whole download, an `Exchange` for a request to the tracker. The worker threads of a download are
-- positions in their loop, and a download is any sequence of turns of its workers; the queue, the
-- table of downloads, the run's own vector, the sidecar and the count are each changed in a turn of
-- their own. A write of the sidecar, whose calls succeed once it is open, is one turn. The requests
-- that a download has sent are those that the tracker answered. `run` gives nothing where an uncaught
-- exception ends the process (a negative number of pieces); memory is never exhausted. An int of
-- the sidecar is four bytes, the low one first. The loop over the words of the tracker's answer,
-- and that over the arguments of a web request, recur on fuel, the length of the text: each round
-- reads one byte at least.
--
-- Not modelled: the set-up of sockets, threads, signals and logging, text written to the console,
-- the prompt's loop, and the dashboard's page, which is an argument of the web interface.
pub mod Prelude
pub mod Bytes
pub mod Container
pub mod Common
pub mod Tracker
pub mod Client
mod Tests
