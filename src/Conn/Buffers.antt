-- ===== src/Conn/Buffers.antt =====
-- The calls that send a `Buffer`: `send(Buffer &)`, `sendOutput` and `handleWrite`.
use handy_copy.Conn.Sending.{Honest}
use handy_copy.Buffer.Room.{IsValid}
use handy_copy.Buffer.Contents.{consume-Holds}
use handy_copy.Base.{
  Bytes, List, [], ap, append-nil, append_assoc, drop, length, sym, take, take-append-drop, ℕ, ◌++◌,
  ◌∙◌, ◌≡◌, Bool, Bool-cases, arith, drop_all, false, if_both, inl, inr, none, ◌==◌, ◌||◌,
  if◌then◌else◌, refl, subst, true,
}
use handy_copy.Conn.{
  Answer, put_out, write_out, Conn, Buffer, contents, handle_write, isend, stop_writing, consume,
  size, enable_write, send_output, send_own, send_now, write_in, write_on, connected,
}
use handy_copy.Conn.Stream.{
  sent_part, stream, IsLive, Carried, sent_bounds, size_zero, with_channel,
}

-- What `isend` of the whole of `output_` and `consume` leave.
record Flushed (answers : List Answer) (c : Conn) (o : Buffer) (c' : Conn) : Type 0 where
  valid : IsValid o
  held : contents o ≡ drop (sent_part answers (contents c.output)) (contents c.output)
  same_stream : c'.wire ++ contents o ≡ stream c

-- A part that was sent, and the rest.
pub cut_stream : (n : ℕ) (w d : Bytes) → (w ++ take n d) ++ drop n d ≡ w ++ d
cut_stream n w d = append_assoc w (take n d) (drop n d) ∙ ap (λ t. w ++ t) (take-append-drop n d)

consumed :
    (answers : List Answer) (c : Conn)
    → IsValid c.output
    → Honest answers (length (contents c.output))
    → let s = isend answers (length (contents c.output)) 0 in
      Flushed answers c (consume c.output s.count) (put_out s (contents c.output) c)
unfolding put_out
consumed answers c v h =
    let s = isend answers (length (contents c.output)) 0 in
    let g = consume-Holds c.output s.count v (sent_bounds answers (contents c.output) h) in
    record {
      valid = g.valid;
      held = g.held;
      same_stream =
          ap (λ t. (c.wire ++ take s.count (contents c.output)) ++ t) g.held
          ∙ cut_stream s.count c.wire (contents c.output);
    }

or_left : (a b : Bool) → (a || b) ≡ false → a ≡ false
or_left a b h = ground arith

drop_of_nil : (n : ℕ) (d : Bytes) → d ≡ [] → drop n d ≡ []
drop_of_nil n d h = drop_all n d (omega (arith, ap length h))

write_out-Carried :
    (answers : List Answer) (c : Conn)
    → IsLive c
    → Honest answers (length (contents c.output))
    → Carried c (write_out answers c) []
unfolding write_out put_out
write_out-Carried answers c l h =
    let g = consumed answers c l.valid h in
    record {
      live = record {
        open_channel = l.open_channel;
        valid = g.valid;
        awaited = λ off.
            g.held ∙ drop_of_nil _ (contents c.output) (l.awaited (or_left c.write_enabled _ off));
      };
      same_stream = g.same_stream ∙ sym (append-nil (stream c));
    }

stop_writing-Carried : (c c1 : Conn) (d : Bytes) → Carried c c1 d → Carried c (stop_writing c1) d
unfolding stop_writing
stop_writing-Carried c c1 d k = elim (Bool-cases (size c1.output == 0)) [
  | inl z ↦ rw z (
      if_both (λ x. Carried c x d) c1.write_enabled
        (record {
          live = record {
            open_channel = k.live.open_channel;
            valid = k.live.valid;
            awaited = λ off. size_zero c1.output k.live.valid z;
          };
          same_stream = k.same_stream;
        })
        k)
  | inr some_held ↦ rw some_held k
]

-- `handleWrite` of a live connection that is connected, without a callback for `onWritable`, moves
-- bytes from those that wait to the wire, in order, and neither loses nor doubles one; it stops
-- waiting for the socket only when no byte is left.
pub handle_write-Carried :
    (writable : Bool) (answers : List Answer) (c : Conn)
    → IsLive c
    → c.state ≡ connected
    → Honest answers (length (contents c.output))
    → Carried c (handle_write writable none answers c) []
unfolding handle_write write_in write_on
handle_write-Carried writable answers c l e h =
    subst (λ s. Carried c (write_in s writable none answers c) []) (sym e)
      (stop_writing-Carried c (write_out answers c) [] (write_out-Carried answers c l h))

-- The last test of `send(output_)`.
own_end : Conn → Buffer → Conn
unfolding enable_write
own_end c o = let c2 = record c { output = o } in if size o == 0 then c2 else enable_write c2

own_end-Carried :
    (c c1 : Conn) (o : Buffer)
    → c1.channel ≡ true
    → IsValid o
    → c1.wire ++ contents o ≡ stream c
    → Carried c (own_end c1 o) []
unfolding own_end enable_write
own_end-Carried c c1 o ch v h =
    let same : c1.wire ++ contents o ≡ stream c ++ [] = h ∙ sym (append-nil (stream c)) in
    elim (Bool-cases (size o == 0)) [
      | inl z ↦ rw z (record {
        live = record { open_channel = ch; valid = v; awaited = λ off. size_zero o v z };
        same_stream = same;
      })
      | inr nz ↦ rw nz (record {
        live = record { open_channel = ch; valid = v; awaited = λ off. absurd (cc off) };
        same_stream = same;
      })
    ]

-- `sendOutput` of an open connection with a valid `output_`, whatever was put into it before,
-- moves bytes from those that wait to the wire, in order, and neither loses nor doubles one; while
-- a byte waits, the connection waits for the socket. The socket takes no more than it is given.
pub send_output-Carried :
    (answers : List Answer) (c : Conn)
    → c.channel ≡ true
    → IsValid c.output
    → Honest answers (length (contents c.output))
    → Carried c (send_output answers c) []
unfolding send_output send_own send_now own_end put_out
send_output-Carried answers c ch v h =
    subst (λ x. Carried c x []) (sym (with_channel c (send_own answers c) ch))
      (elim (Bool-cases (size c.output == 0)) [
        | inl z ↦ rw z (own_end-Carried c c c.output ch v refl)
        | inr nz ↦
            let s = isend answers (length (contents c.output)) 0 in
            let g = consumed answers c v h in
            rw nz (
              own_end-Carried c (put_out s (contents c.output) c) (consume c.output s.count) ch
                g.valid g.same_stream)
      ])
