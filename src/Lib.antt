-- ===== src/Lib.antt =====
-- A model of handy, an event-driven TCP library for C++11 (the folder handy of the repository).
--
-- How the program hangs together: an `EventBase` owns a poller, timers and a queue of tasks. A
-- `TcpConn` reads what arrives into a `Buffer`, hands the bytes as a `Slice` to a codec that finds
-- the messages in them, and sends through a second `Buffer` what the socket does not take at once.
-- `ThreadPool` takes work off the event loop; `Conf` reads the settings of a server. The poller calls
-- the callbacks of the `Channel` of each file descriptor, a `TcpServer` gives what it accepts to the
-- bases of its loops, HTTP is built on the callbacks of a
-- `TcpConn`, and the folder scheduler has tasks by time, apart from all that.
--
-- Slice (handy/slice.h): a slice is the list of its bytes. `Slice.Words`, `Slice.Order` and
--   `Slice.Split` are about words and blanks, comparison, and `split`.
-- Buffer (handy/net.h, handy/net.cc): the block, the indices `b_`, `e_`, `cap_` and `exp_` with the
--   wrap-around of `size_t`, and one function per method. `Buffer.Block` is about the bytes of a
--   block, `Buffer.Room` about `makeRoom`, `Buffer.Contents` about the bytes that each method keeps,
--   and `Buffer.Refine` compares a buffer with a queue of bytes. Buffers stay below 2 ^ 61 bytes:
--   beyond it the sums in `expand` wrap.
-- Codec (handy/codec.h, handy/codec.cc, the byte order of handy/port_posix.h): `line_decode` and
--   `length_decode` are the two `tryDecode`, `line_encode` and `length_encode` the two `encode`.
--   `Codec.Word` is about 32-bit words. The machine is little-endian, and data is shorter than
--   2 ^ 31 bytes, since the decoders return an `int`.
-- Conn (handy/conn.h, handy/conn.cc): `send_bytes` and `send_buffer` are the two `send`, `send_output`
--   is `send` with the connection's own buffer, `handle_write`, `on_msg` and `handle_read` carry the
--   names of the source. What `write` and `read` return is an argument: for `write` any list of counts,
--   EINTR, EAGAIN and errors, for `read` of `Conn.Messages` what is read up to EAGAIN. A list that has run
--   out means EAGAIN. `Conn.States` is about the calls that leave the state as it is. `Conn.Sending`,
--   `Conn.Stream`, `Conn.Buffers`, `Conn.Foreign` and `Conn.Session` are about the stream that is sent, `Conn.Early`
--   about bytes sent before the handshake is done, and `Conn.Framing`, `Conn.Codecs`, `Conn.Cut`,
--   `Conn.Arrivals`, `Conn.Delivered` and `Conn.Ending` about the messages that arrive. The record
--   `Framing` is the interface between the connection and a codec; both codecs fill it.
--   `Conn.Life` is the life of a connection, with `attach`, `connect`, `close`, `cleanup`, `reconnect`
--   and `handleHandshake`: its state, channel, callbacks, tasks and timers, and the bytes of `input_`
--   counted. Any events may happen in any order, and callbacks are a parameter. `Conn.Life.Fits`,
--   `Conn.Life.Modes`, `Conn.Life.Valid` and `Conn.Life.Steps` have what the steps keep, `Conn.Life.Story`
--   and `Conn.Life.Telling` what the user is told; `Conn.Life.Runs` follows a client's connection.
--   A callback may close the channel at once, as that of `onMsg` does for bytes that it cannot decode,
--   and `cleanup` may so run inside of `cleanup`. Whether the calls of the system that are fatal
--   otherwise work is an argument of `connect`. Not modelled: the `cleanup` with which
--   `EventsImp::loop` ends, and the answers of `bind`, `connect` and `getsockname`, which are logged.
-- Threads (handy/threads.h, handy/threads.cc): `Threads.Queue` has the methods of `SafeQueue` that run
--   with the mutex held; `Threads.Pool` has the threads of `ThreadPool`, and a step relation in which
--   the threads, `addTask` and `exit` take turns in any order, with spurious wake-ups. The wait with
--   a time limit, `join` and the destructor are not modelled.
-- Timers (handy/event_base.cc, `EventsImp`): `run_at`, `cancel`, `repeatable_timeout`,
--   `handle_timeouts` and `refresh_nearest` carry the names of the source. `Timers.Map` is the ordered
--   map `timers_`, `Timers.Inv` its invariant, and `Timers.Cancel`, `Timers.Undo`, `Timers.Due`,
--   `Timers.Expiry` and `Timers.Nearest` are about the operations. Callbacks are a parameter, which
--   may change the timers; times are milliseconds from 0 on that fit an `int64_t`. The loop of
--   `handleTimeouts` has fuel; `work` is how much it needs.
-- Idle (handy/event_base.cc): `register_idle`, `unregister_idle`, `update_idle` and `call_idles` are the
--   functions of `EventsImp` on `idleConns_`, in which an iterator is a number. `Idle.Aged` is about the
--   order of the lists, `Idle.Calls` about the callbacks that are called. The fuel of the loop of
--   `callIdles` is one more than the length of the list.
-- Server (handy/conn.cc, handy/event_base.h): `handle_accept` of `TcpServer`, over what `accept`,
--   `getpeername`, `getsockname` and `addFdFlag` give, and `alloc_base` of `MultiBase`. `Server.Round` is
--   about the range of `allocBase`, `Server.Dealt` about the bases of the connections. Not modelled:
--   `bind`, which is calls of the system, and the threads of `MultiBase::loop`.
-- Conf (handy/conf.h, handy/conf.cc): `Scanner` is `LineScanner`, `parse_line` one round of the loop
--   of `parse`, over the lines that `fgets` gives, and `get`, `get_strings` and `get_boolean` the
--   look-ups. Bytes are those of the C locale. `strtol` and `strtod` are not modelled.
-- Poller (handy/poller.h, handy/poller.cc, `Channel` of handy/event_base.cc, `net::setNonBlock`):
--   `add_channel`, `update_channel`, `remove_channel` and `loop_once` are those of `PollerEpoll`, and
--   `kqueue_choice` what `PollerKqueue` calls for an event. What a callback does is a tree of
--   operations on channels. `Poller.Bits` and `Poller.Flags` are about the flags, `Poller.Active`,
--   `Poller.Kept`, `Poller.Rounds` and `Poller.Served` about the entries and the channels served.
--   Not modelled: the destructors, and the changes that `PollerKqueue` hands to `kevent`.
-- Http (handy/http.h, handy/http.cc): `Http.Decode` is `tryDecode_`, `Http.Request` and `Http.Response`
--   have the two messages with `decode_request`, `decode_response` and the two `encode`, and
--   `Http.Server` has `handleRead`, `clearData` and the choice of a callback. `Http.Headers` is the map of
--   headers. `Http.Scan`, `Http.Lines`, `Http.Resume` and `Http.Parts` are about a message that arrives
--   in parts, `Http.Expect` about "100 Continue", `Http.Args` about the arguments of a request, and
--   `Http.Routes` about the callbacks. Not modelled: `sendFile`.
-- Scheduling (scheduler/my_scheduler.h, scheduler/my_threadpool.h, scheduler/my_interruptSleep.h): the
--   multimap of tasks and the operations of `Scheduler`; `Scheduling.Awake` is a step relation of its
--   loop and the callers of `addTask`, and `Scheduling.Pool` its thread pool, whose threads take turns
--   in any order. `Scheduling.Order` and `Scheduling.Due` are about the tasks that are due. Not
--   modelled: `join`, `detach` and the destructors.
-- Base: lists, numbers and Boolean tests that all parts share.
--
-- Not modelled: `HSHA`, UDP, logging, the statistics server, daemons
-- and files (handy/udp.cc, handy/logging.cc, handy/stat-svr.cc, handy/daemon.cc, handy/file.cc), the
-- programs in examples, raw-examples, 10m, protobuf and test, and the copies of the libraries of others
-- in the folder scheduler.
mod Base
pub mod Slice
pub mod Buffer
pub mod Codec
pub mod Threads
pub mod Timers
pub mod Conn
pub mod Conf
pub mod Poller
pub mod Http
pub mod Scheduling
pub mod Idle
pub mod Server
