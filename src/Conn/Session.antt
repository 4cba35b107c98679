-- ===== src/Conn/Session.antt =====
-- Any sequence of the calls that send.
use handy_copy.Slice.{Slice}
use handy_copy.Codec.{line_encode}
use handy_copy.Conn.Sending.{Honest, NoError}
use handy_copy.Conn.Stream.{Carried, IsLive, stream, send_bytes-Carried}
use handy_copy.Conn.Buffers.{send_output-Carried, handle_write-Carried}
use handy_copy.Conn.Foreign.{send_buffer-Taken}
use handy_copy.Buffer.Room.{IsValid, Fits}
use handy_copy.Buffer.Refine.{run_refines, run, step, AllAllowed, put}
use handy_copy.Base.{
  Bytes, List, [], ap, append-nil, append_assoc, codes, length, none, sym, ◌++◌, ◌∙◌, ◌∷◌, ◌≡◌,
  Bool, refl,
}
use handy_copy.Buffer.{Buffer, contents}
use handy_copy.Conn.{Conn, send_msg, Answer, send_bytes, send_buffer, handle_write, connected}
use handy_copy.Codec.Line.{contents-line_encode}
use handy_copy.Conn.States.{send_bytes-state, send_buffer-state, send_msg-state, handle_write-state}

-- What a codec's `encode` does: it appends `d`.
pub record Encodes (encode : Slice → Buffer → Buffer) (msg : Slice) (o : Buffer) (d : Bytes)
    : Type 0 where
  pub valid : IsValid (encode msg o)
  pub held : contents (encode msg o) ≡ contents o ++ d

-- `sendMsg` of a live connection puts what the codec encodes behind all that was sent before, and
-- leaves the connection live, with any answers of the socket.
pub send_msg-Carried :
    (encode : Slice → Buffer → Buffer) (answers : List Answer) (msg : Slice) (d : Bytes) (c : Conn)
    → IsLive c
    → Encodes encode msg c.output d
    → Honest answers (length (contents (encode msg c.output)))
    → Carried c (send_msg encode answers msg c) d
unfolding send_msg
send_msg-Carried encode answers msg d c l e h =
    let k =
      send_output-Carried answers (record c { output = encode msg c.output }) l.open_channel e.valid
        h in
    record {
      live = k.live;
      same_stream =
          k.same_stream
          ∙ append-nil (c.wire ++ contents (encode msg c.output))
          ∙ ap (λ t. c.wire ++ t) e.held
          ∙ sym (append_assoc c.wire (contents c.output) d);
    }

pub line-Encodes :
    (msg : Slice) (o : Buffer)
    → IsValid o
    → AllAllowed o (put msg ∷ put (codes "\r\n") ∷ [])
    → Encodes line_encode msg o (msg ++ codes "\r\n")
unfolding line_encode run step
line-Encodes msg o v a = record {
  valid = (run_refines (put msg ∷ put (codes "\r\n") ∷ []) o v a).0;
  held = contents-line_encode msg o v a;
}

-- One call, with the bytes that it is given to send.
pub data Call (c : Conn) : Conn → Bytes → Type 0 where
  bytes :
      (answers : List Answer) (d : Bytes)
      → Honest answers (length d)
      → NoError answers
      → Fits c.output (length d)
      → Call c (send_bytes answers d c) d
  block :
      (answers : List Answer) (b : Buffer)
      → IsValid b
      → Fits c.output (length (contents b))
      → Honest answers (length (contents b))
      → Call c (send_buffer answers c b).0 (contents b)
  message :
      (encode : Slice → Buffer → Buffer) (answers : List Answer) (msg : Slice) (d : Bytes)
      → Encodes encode msg c.output d
      → Honest answers (length (contents (encode msg c.output)))
      → Call c (send_msg encode answers msg c) d
  writable :
      (poll : Bool) (answers : List Answer)
      → Honest answers (length (contents c.output))
      → Call c (handle_write poll none answers c) []

pub data Calls (c : Conn) : Conn → Bytes → Type 0 where
  start : Calls c c []
  next : {c1 c2 : Conn} {d d' : Bytes} → Calls c c1 d → Call c1 c2 d' → Calls c c2 (d ++ d')

Call-Carried :
    {c c' : Conn} {d : Bytes} → IsLive c → c.state ≡ connected → Call c c' d → Carried c c' d
Call-Carried {c} l e (bytes answers d h ok f) = send_bytes-Carried answers d c l h ok f
Call-Carried {c} l e (block answers b w f h) = (send_buffer-Taken answers c b l w f h).0
Call-Carried {c} l e (message encode answers msg d g h) =
    send_msg-Carried encode answers msg d c l g h
Call-Carried {c} l e (writable poll answers h) = handle_write-Carried poll answers c l e h

Call-state : {c c' : Conn} {d : Bytes} → c.state ≡ connected → Call c c' d → c'.state ≡ c.state
Call-state {c} e (bytes answers d h ok f) = send_bytes-state answers d c
Call-state {c} e (block answers b w f h) = send_buffer-state answers c b
Call-state {c} e (message encode answers msg d g h) = send_msg-state encode answers msg c
Call-state {c} e (writable poll answers h) = handle_write-state poll answers c e

Calls-state : {c c' : Conn} {d : Bytes} → c.state ≡ connected → Calls c c' d → c'.state ≡ c.state
Calls-state e start = refl
Calls-state {c} e (next {c1 = c1} before call) =
    let same = Calls-state e before in Call-state (same ∙ e) call ∙ same

-- Over any sequence of `send`, `sendMsg` and `handleWrite` calls on a live connection that is
-- connected and has no callback for `onWritable`, the bytes on the wire and those that wait are, in
-- this order, the bytes of before and then all bytes that the calls were given, in the order of the
-- calls; and the connection stays live. The sockets take no more than they are given and report no
-- error to `send(const char *, size_t)`, a codec appends its frame, and blocks stay below the limit
-- of a buffer.
pub Calls-Carried :
    {c c' : Conn} {d : Bytes} → IsLive c → c.state ≡ connected → Calls c c' d → Carried c c' d
Calls-Carried {c} l e start = record { live = l; same_stream = sym (append-nil (stream c)) }
Calls-Carried {c} l e (next {c1 = c1} {d = d} {d' = d'} before call) =
    let k = Calls-Carried l e before in
    let k' = Call-Carried k.live (Calls-state e before ∙ e) call in
    record {
      live = k'.live;
      same_stream = k'.same_stream ∙ ap (λ t. t ++ d') k.same_stream ∙ append_assoc (stream c) d d';
    }
