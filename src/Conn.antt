-- ===== src/Conn.antt =====
-- handy/conn.h and handy/conn.cc: `TcpConn`, the part that sends and that delivers messages. What
-- `writeImp` returns is a list of answers for each call of `isend`; a socket that has no answer
-- left is full. `wire` is a record of the bytes that `writeImp` has taken.
mod Tests
pub mod Sending
pub mod Stream
pub mod Buffers
pub mod Foreign
pub mod States
pub mod Session
pub mod Early
pub mod Messages
pub mod Framing
pub mod Codecs
pub mod Cut
pub mod Arrivals
pub mod Delivered
pub mod Ending
pub mod Life
use handy_copy.Buffer.{Buffer, append, consume, absorb, contents, size}
use handy_copy.Base.{
  Bool, Bytes, List, Option, [], drop, false, if◌then◌else◌, length, ltb, none, not, some, take,
  true, ℕ, ◌&&◌, ◌++◌, ◌+◌, ◌==◌, ◌||◌, ◌∷◌,
}
use handy_copy.Slice.{Slice}

-- `TcpConn::State`
pub data State : Type 0 where
  invalid handshaking connected closed failed : State

-- A result of `writeImp`: a count, or -1 with the `errno` that the code tells apart.
pub data Answer : Type 0 where
  wrote : ℕ → Answer
  interrupted again write_error : Answer

-- `channel` says that `channel_` is not NULL, `write_enabled` is its `writeEnabled()`.
pub record Conn : Type 0 where
  pub channel : Bool
  pub write_enabled : Bool
  pub state : State
  pub output : Buffer
  pub wire : Bytes

-- What `isend` returns, and whether it met a full socket and so enabled writing.
pub record Sent : Type 0 where
  pub count : ℕ
  pub full : Bool

-- `isend`, with `sended` bytes of `len` gone.
unfoldable pub isend : List Answer → ℕ → ℕ → Sent
isend [] len sended = record { count = sended; full = ltb sended len }
isend (wrote n ∷ answers) len sended =
    let rest = isend answers len (sended + n) in
    if not (ltb sended len) || n == 0 then record { count = sended; full = false } else rest
isend (interrupted ∷ answers) len sended =
    let rest = isend answers len sended in
    if not (ltb sended len) then record { count = sended; full = false } else rest
isend (again ∷ answers) len sended = record { count = sended; full = ltb sended len }
isend (write_error ∷ answers) len sended = record { count = sended; full = false }

-- The effect of `isend` on the connection.
unfoldable pub put_out : Sent → Bytes → Conn → Conn
put_out s d c = record c {
  wire = c.wire ++ take s.count d;
  write_enabled = c.write_enabled || s.full;
}

unfoldable pub enable_write : Conn → Conn
enable_write c = record c { write_enabled = true }

-- The end of `send(const char *, size_t)`.
unfoldable pub keep_rest : Bytes → Conn → Conn
keep_rest d c = if length d == 0 then c else record c { output = append c.output d }

-- `send(const char *, size_t)` with nothing before it.
unfoldable pub send_rest : Sent → Bytes → Conn → Conn
unfolding put_out keep_rest
send_rest s d c = keep_rest (drop s.count d) (put_out s d c)

-- `send(const char *, size_t)`
unfoldable pub send_bytes : List Answer → Bytes → Conn → Conn
unfolding put_out keep_rest
send_bytes answers d c =
    if not c.channel
    then c
    else if size c.output == 0
    then send_rest (isend answers (length d) 0) d c
    else keep_rest d c

-- `send(Buffer &)` in three parts, for a buffer that is not `output_`.
unfoldable pub send_full : Conn → Buffer → Conn × Buffer
send_full c b =
    let (o, b') = absorb c.output b in
    if c.write_enabled then (record c { output = o }, b') else (c, b)

unfoldable pub send_now : List Answer → Conn → Buffer → Conn × Buffer
send_now answers c b =
    if size b == 0
    then (c, b)
    else let s = isend answers (length (contents b)) 0 in
      (put_out s (contents b) c, consume b s.count)

unfoldable pub send_later : Conn → Buffer → Conn × Buffer
unfolding enable_write
send_later c b =
    if size b == 0
    then (c, b)
    else let (o, b') = absorb c.output b in (enable_write (record c { output = o }), b')

-- `send(Buffer &)` behind its first test of `writeEnabled`.
unfoldable pub send_on : List Answer → Conn × Buffer → Conn × Buffer
send_on answers (c, b) = let (c', b') = send_now answers c b in send_later c' b'

unfoldable pub send_buffer : List Answer → Conn → Buffer → Conn × Buffer
send_buffer answers c b = if not c.channel then (c, b) else send_on answers (send_full c b)

-- `send(output_)`: both calls of `absorb` are of a buffer into itself.
unfoldable pub send_own : List Answer → Conn → Conn
send_own answers c =
    let (c1, o) = send_now answers c c.output in
    let c2 = record c1 { output = o } in if size o == 0 then c2 else enable_write c2

unfoldable pub send_output : List Answer → Conn → Conn
send_output answers c = if not c.channel then c else send_own answers c

-- `sendMsg`; `encode` is that of the codec.
unfoldable pub send_msg : (Slice → Buffer → Buffer) → List Answer → Slice → Conn → Conn
send_msg encode answers msg c = send_output answers (record c { output = encode msg c.output })

-- `isend` and `consume` in `handleWrite`
unfoldable pub write_out : List Answer → Conn → Conn
unfolding put_out
write_out answers c =
    let s = isend answers (length (contents c.output)) 0 in
    record (put_out s (contents c.output) c) { output = consume c.output s.count }

-- The end of `handleWrite`.
unfoldable pub stop_writing : Conn → Conn
stop_writing c =
    if size c.output == 0 && c.write_enabled then record c { write_enabled = false } else c

-- `handleWrite` of a connection that is connected; `cb` is `writablecb_`, if it is set.
unfoldable pub write_on : Option (Conn → Conn) → List Answer → Conn → Conn
write_on none answers c = stop_writing (write_out answers c)
write_on (some cb) answers c =
    let c1 = write_out answers c in stop_writing (if size c1.output == 0 then cb c1 else c1)

-- `handleHandshake` when `poll` says that the socket is writable, without the callback.
unfoldable pub handshake_done : Conn → Conn
handshake_done c = record c { write_enabled = false; state = connected }

-- `handleHandshake`, without the callbacks; `cleanup` sets `channel_` to NULL.
unfoldable pub end_handshake : Bool → Conn → Conn
unfolding handshake_done
end_handshake writable c =
    if writable then handshake_done c else record c { channel = false; state = failed }

-- `handleWrite`, by `state_`; `writable` is what `poll` says in the handshake.
unfoldable pub write_in : State → Bool → Option (Conn → Conn) → List Answer → Conn → Conn
unfolding write_on end_handshake
write_in invalid writable cb answers c = c
write_in handshaking writable cb answers c = end_handshake writable c
write_in connected writable cb answers c = write_on cb answers c
write_in closed writable cb answers c = c
write_in failed writable cb answers c = c

unfoldable pub handle_write : Bool → Option (Conn → Conn) → List Answer → Conn → Conn
unfolding write_in
handle_write writable cb answers c = write_in c.state writable cb answers c
