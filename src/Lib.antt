-- ===== src/Lib.antt =====
-- Verification of filling-pilot-edge-rs, an edge node that reads Siemens S7 PLCs, caches reports and
-- status of filling stations, watches monitors, and talks to a cloud server over gRPC.
--
-- The parts of the program, and the files that model them (paths of the repository in parentheses):
--   Report/   the report cache (src/report/cache.rs, fill_station.rs, plc_report.rs). Report/Cache has the
--             cached lists and the functions handle_new_report_read, read_report, delete_report,
--             update_fill_stations and read_and_send_reports_direct, in steps that follow the locks of
--             the source; Report/Time has the times of S7 blocks, Report/Status the status loop, Report/Disk the
--             file of the reports and what serde derives for it.
--   Monitor/  the monitors (src/report/monitor.rs): Monitor/Config has the set of monitors, Monitor/Turn
--             one pass of trigger_monitors_direct over them, Monitor/Message the message of a monitor,
--             Monitor/Post the post to its local service, Monitor/Disk the file of the monitors. A panic
--             of the pass is a value.
--   Cloud/    the session with the cloud (src/grpc/cloud.rs): Cloud/Session its state and what it sends,
--             Cloud/Config the command plcInfo, Cloud/Command the other commands, Cloud/Summary the
--             summary for the log, Cloud/Loops its loops and those of src/main.rs that use it.
--             Cloud/Loops/Steps has the whole node as a relation of steps in any order.
--             Cloud/Legacy has the JSON twins of the messages (src/grpc/mod.rs).
--   Context   loading of the configuration (src/context.rs).
--   Http/     the log buffer and the handlers of the HTTP interface (src/http.rs), and Http/Server its
--             state and routes.
--   Logger    the remote log and its cached address (src/logger.rs).
--   Codec/    the codecs and data blocks (src/codec): Codec/Numbers and Codec/Texts have the codecs,
--             Codec/Registry the trait and the registry, Codec/Property and Codec/Block data blocks.
--   S7/       the S7 manager (src/s7.rs): the connection pool and its operations, and S7/Schema
--             reads and writes of data blocks by definition.
--   Processor the read and write commands, the status cache and the version report (src/processor); the
--             write processor is not part of the build.
--   Deploy/   metadata and their file, the encoding of deployments and their writes (src/deploy.rs), and
--             the callbacks that lead to them (try_call_back in src/report/monitor.rs).
--   Startup   the start of the node up to its session, and its end (src/main.rs).
--   Error, Io, Files, Json and Common hold what these share: errors, the world that reports and monitors
--   read through, the files under ~/.edge, JSON values and what serde derives for a struct, and lists,
--   maps, bytes, integers and texts.
--
-- How they interact: the report loop and the monitor loop read PLCs through the S7 manager, which is the
-- interface Io for them (manager_io in S7/Pool fills it); the read and write
-- commands of the cloud, the HTTP interface and deployments go through the same manager; monitors and
-- deployments use the codecs. The session holds the manager, the report cache, the monitors and the
-- metadata; a configuration from the cloud goes to each of them. At its start the node loads the files
-- of the reports, the monitors and the metadata, which its threads write every minute. The tasks and
-- threads that main starts are the steps of Cloud/Loops/Steps, which come in any order.
--
-- Conventions. Numbers of the source are the native numbers; casts and wrapping subtractions are written
-- out. In data blocks, metadata and deployments, sums and products of offsets, sizes and counts wrap at
-- 2^64 (usize in Common), as in a build without overflow checks; a range that ends before its start panics. A HashMap is an association list, and theorems hold of every order of its entries. Asynchronous
-- code is a function on explicit state, one call after the other: what runs under a lock is one step.
-- A panic is a value: none, or a constructor of its own. Loops are recursion on lists or on counts, and
-- no loop needs a bound that the source does not have; the decimal printer in Common/Text runs on the
-- number plus one as its bound, which is at least its number of digits.
--
-- Parameters. What the crates serde_json, byteorder, chrono, hex and s7_connector do is a record in
-- Report/Crates, Monitor/Turn, Json, Codec/Crates, S7/Crate and Processor, with documented laws where a
-- theorem needs them; Tests/ has instances. Rust floats and UTF-8 decoding are parameters too. So are p256,
-- base64, tonic and tokio's interval (Cloud/Types), the parsers of deployments (Deploy/Write) and of the
-- configuration (Context), the file system (Files), the network of the logger (Logger) and reqwest
-- (Monitor/Post). The field can_block of Monitor/Turn and Deploy/Write says whether tokio lets
-- Handle::block_on run on the thread: its documentation says that it panics on a thread that drives tasks,
-- and the source calls it on such threads only. A file is parsed to a JSON value first, and then read as
-- serde derives it; the keys of an object are texts.
--
-- What comes from the cloud is an argument: the streams of commands are lists, one for each registration,
-- and the answer to a heartbeat is an option. The session's state has two lists that the source does not
-- keep: the messages and the infos that were handed to the client.
--
-- Not modelled: the matching of HTTP requests to routes and the parsing of their bodies, which axum does,
-- the text of the page, the memory reporter of src/logger.rs, which only logs, and log lines, which have
-- no effect on the state beyond the panics that are modelled. Locks are taken for plain accesses.
pub mod Common
pub mod Context
pub mod Cloud
pub mod Http
pub mod Logger
pub mod Error
pub mod Files
pub mod Io
pub mod Json
pub mod Report
pub mod Monitor
pub mod Codec
pub mod S7
pub mod Processor
pub mod Deploy
pub mod Startup
pub mod Tests
