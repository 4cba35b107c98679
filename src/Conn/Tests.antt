-- ===== src/Conn/Tests.antt =====
-- A connection at concrete bytes.
use handy_copy.Buffer.{Buffer, contents, append, make_room, fill, expand, make_room_suggested}
use handy_copy.Buffer.Block.{range, write_at}
use handy_copy.Codec.{line_decode}
use handy_copy.Codec.Within.{line_decode-Within}
use handy_copy.Conn.{
  Conn, Answer, wrote, again, send_bytes, send_buffer, handshake_done, isend, connected, send_rest,
  put_out, keep_rest, handshaking,
}
use handy_copy.Conn.Stream.{IsLive, Carried}
use handy_copy.Conn.Session.{Calls-Carried, start, next, block}
use handy_copy.Conn.Early.{early_send_lost, IsStuck, send_all}
use handy_copy.Conn.Messages.{eintr, Arrival, got, Inbox, done, on_msg}
use handy_copy.Conn.Codecs.{line-Framing, FineLine}
use handy_copy.Conn.Framing.{frames}
use handy_copy.Conn.Arrivals.{handle_reads, gathered, all_gathered, AllAllowedIn}
use handy_copy.Conn.Delivered.{Delivered, handle_reads-Delivered, every_message_arrives}
use handy_copy.Conn.Ending.{Returns, on_msg_ends}
use handy_copy.Base.{Bytes, List, [], arith, codes, false, refl, true, ◌++◌, ◌∷◌, ◌≡◌, All}

-- A small suggested size, so that a run is short.
abbrev empty_buffer : Buffer
empty_buffer = record { buf = []; b = 0; e = 0; cap = 0; exp = 16 }

abbrev idle : Conn
idle = record {
  channel = true;
  write_enabled = false;
  state = connected;
  output = empty_buffer;
  wire = [];
}

idle-IsLive : IsLive idle
unfolding range
idle-IsLive = record { open_channel = refl; valid = omega arith; awaited = λ off. refl }

-- The socket takes two bytes and is then full.
abbrev two : List Answer
two = wrote 2 ∷ again ∷ []

two_sent : send_bytes two (codes "hello") idle ≡ record idle {
  write_enabled = true;
  output = append empty_buffer (codes "llo");
  wire = codes "he";
}
unfolding send_bytes send_rest isend put_out keep_rest
two_sent = refl

abbrev block_of : Buffer
block_of = record { buf = codes "xyz"; b = 1; e = 3; cap = 3; exp = 4 }

abbrev waiting : Conn
waiting = record idle { output = block_of }

Calls-Carried_example : Carried idle (send_buffer two idle block_of).0 ([] ++ contents block_of)
unfolding range
Calls-Carried_example =
    Calls-Carried idle-IsLive refl
      (next start (block two block_of (omega arith) (omega arith) (omega arith, tt)))

-- A connection as `attach` makes it, before the handshake is done.
abbrev fresh : Conn
fresh = record {
  channel = true;
  write_enabled = true;
  state = handshaking;
  output = empty_buffer;
  wire = [];
}

fresh-IsLive : IsLive fresh
unfolding range
fresh-IsLive = record { open_channel = refl; valid = omega arith; awaited = λ off. refl }

early_send_lost_example :
    let c' =
      send_all
        ((wrote 1 ∷ [], codes "b") ∷ [])
        (handshake_done (send_bytes (again ∷ []) (codes "a") fresh)) in
    (c'.wire ≡ []) × IsStuck c'
unfolding handshake_done send_bytes send_rest isend put_out keep_rest append make_room fill expand
    write_at range
early_send_lost_example =
    early_send_lost [] (codes "a") ((wrote 1 ∷ [], codes "b") ∷ []) fresh fresh-IsLive refl
      (omega arith) (omega arith) (omega arith, tt)

abbrev inbox : Inbox
inbox = record { input = empty_buffer; delivered = []; closed = false }

abbrev lines : List Bytes
lines = codes "ab" ∷ codes "cd" ∷ []

-- The first `\r\n` is cut in two.
abbrev reads : List (List Arrival)
reads = (got b'a' (codes "b\r") ∷ eintr ∷ got b'\n' (codes "cd\r\n") ∷ []) ∷ []

lines_fine : All FineLine lines
lines_fine = (((refl, (refl, tt)), λ e. cc e), (((refl, (refl, tt)), λ e. cc e), tt))

allowed : AllAllowedIn 3 line_decode reads inbox
unfolding make_room_suggested fill expand write_at range
allowed = (
  (
    omega arith,
    omega arith,
    omega arith,
    (omega arith, omega arith, (omega arith, omega arith, omega arith, (omega arith, omega arith))),
  ),
  λ left ran. tt,
)

every_message_arrives_example :
    (left : Inbox) × (handle_reads 3 line_decode reads inbox ≡ done left)
    × (left.delivered ≡ lines)
    × (contents left.input ≡ [])
    × (left.closed ≡ false)
unfolding range make_room_suggested fill expand write_at gathered all_gathered frames line_decode
every_message_arrives_example =
    every_message_arrives line-Framing 3 reads inbox lines (omega arith) allowed lines_fine refl
      refl (omega arith) (omega arith)

handle_reads-Delivered_example :
    Delivered line-Framing inbox (handle_reads 3 line_decode reads inbox) [] lines
unfolding range make_room_suggested fill expand write_at gathered all_gathered frames line_decode
handle_reads-Delivered_example =
    handle_reads-Delivered line-Framing 3 reads inbox [] lines (omega arith) allowed lines_fine refl
      refl (omega arith) (omega arith)

abbrev full_inbox : Inbox
full_inbox = record { input = block_of; delivered = []; closed = false }

on_msg_ends_example : Returns (on_msg 9 line_decode full_inbox)
unfolding range
on_msg_ends_example =
    on_msg_ends 9 line_decode full_inbox (λ d small. line_decode-Within d small) (omega arith)
      (omega arith) (omega arith)
