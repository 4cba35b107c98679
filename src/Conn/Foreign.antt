-- ===== src/Conn/Foreign.antt =====
-- `send(Buffer &)` with a buffer that is not the connection's own.
use handy_copy.Conn.Sending.{Honest}
use handy_copy.Conn.Stream.{
  Carried, IsLive, stream, size_zero, sent_bounds, size_of_nil, fewer-Fits, stream_nil,
}
use handy_copy.Buffer.Room.{IsValid, Fits}
use handy_copy.Buffer.Contents.{consume-Holds, absorb-Holds}
use handy_copy.Base.{
  Bool-cases, Bytes, List, [], ap, append-nil, append_assoc, arith, if◌then◌else◌, inl, inr, length,
  length-drop, not, refl, subst, sym, take, true, ◌++◌, ◌==◌, ◌∙◌, ◌≡◌,
}
use handy_copy.Conn.{
  Answer, Conn, send_buffer, send_later, send_on, Buffer, enable_write, send_full, send_now,
  contents, put_out, size, absorb, isend, consume,
}
use handy_copy.Conn.Buffers.{cut_stream}

-- The connection has taken over all of the buffer, which held `d`.
abbrev pub Taken : Conn → Conn × Buffer → Bytes → Type 0
Taken c p d = Carried c p.0 d × (contents p.1 ≡ [])

nothing_left :
    (answers : List Answer) (c : Conn) (b : Buffer)
    → (size b == 0) ≡ true
    → send_on answers (c, b) ≡ (c, b)
unfolding send_on send_now send_later
nothing_left answers c b h = rw (h, h) refl

later-Taken :
    (c c2 : Conn) (b : Buffer) (d : Bytes)
    → c2.channel ≡ true
    → IsValid c2.output
    → contents c2.output ≡ []
    → IsValid b
    → Fits c2.output (length (contents b))
    → c2.wire ++ contents b ≡ stream c ++ d
    → Taken c (send_later c2 b) d
unfolding send_later enable_write
later-Taken c c2 b d ch v none_held w f h = elim (Bool-cases (size b == 0)) [
  | inl z ↦
      let no_rest = size_zero b w z in
      rw z (
        record {
          live = record { open_channel = ch; valid = v; awaited = λ off. none_held };
          same_stream = ap (λ t. c2.wire ++ t) (none_held ∙ sym no_rest) ∙ h;
        },
        no_rest,
      )
  | inr nz ↦
      let (g, g') = absorb-Holds c2.output b v w f in
      rw nz (
        record {
          live = record { open_channel = ch; valid = g.valid; awaited = λ off. absurd (cc off) };
          same_stream = ap (λ t. c2.wire ++ t) (g.held ∙ ap (λ t. t ++ contents b) none_held) ∙ h;
        },
        g'.held,
      )
]

on_empty-Taken :
    (answers : List Answer) (c : Conn) (b : Buffer)
    → IsLive c
    → contents c.output ≡ []
    → IsValid b
    → Fits c.output (length (contents b))
    → Honest answers (length (contents b))
    → Taken c (send_on answers (c, b)) (contents b)
unfolding send_on send_now put_out
on_empty-Taken answers c b l none_held w f h = elim (Bool-cases (size b == 0)) [
  | inl z ↦
      let no_rest = size_zero b w z in
      subst (λ p. Taken c p (contents b)) (sym (nothing_left answers c b z))
        (
          record {
            live = l;
            same_stream = sym (ap (λ t. stream c ++ t) no_rest ∙ append-nil (stream c));
          },
          no_rest,
        )
  | inr nz ↦
      let s = isend answers (length (contents b)) 0 in
      let g = consume-Holds b s.count w (sent_bounds answers (contents b) h) in
      rw nz (
        later-Taken c (put_out s (contents b) c) (consume b s.count) (contents b) l.open_channel
          l.valid none_held g.valid
          (fewer-Fits c.output (length (contents (consume b s.count))) (length (contents b)) f
            (omega (arith, ap length g.held, length-drop s.count (contents b))))
          (ap (λ t. (c.wire ++ take s.count (contents b)) ++ t) g.held
            ∙ cut_stream s.count c.wire (contents b)
            ∙ sym (stream_nil c (contents b) none_held)))
]

behind-Taken :
    (answers : List Answer) (c : Conn) (b : Buffer)
    → IsLive c
    → c.write_enabled ≡ true
    → IsValid b
    → Fits c.output (length (contents b))
    → let (o, b') = absorb c.output b in
      Taken c (send_on answers (record c { output = o }, b')) (contents b)
behind-Taken answers c b l on w f =
    let (g, g') = absorb-Holds c.output b l.valid w f in
    let (o, b') = absorb c.output b in
    subst (λ p. Taken c p (contents b))
      (sym (nothing_left answers (record c { output = o }) b' (size_of_nil b' g'.valid g'.held)))
      (
        record {
          live = record {
            open_channel = l.open_channel;
            valid = g.valid;
            awaited = λ off. absurd (cc (on, off));
          };
          same_stream =
              ap (λ t. c.wire ++ t) g.held
              ∙ sym (append_assoc c.wire (contents c.output) (contents b));
        },
        g'.held,
      )

-- `send(Buffer &)` of a live connection puts all bytes of a valid buffer behind all that was sent
-- before, whether they go on the wire or wait, leaves the buffer empty, and leaves the connection
-- live. It does so with any answers of the socket, errors included, that count no more than it was
-- given, while the block of `output_` stays below its limit.
pub send_buffer-Taken :
    (answers : List Answer) (c : Conn) (b : Buffer)
    → IsLive c
    → IsValid b
    → Fits c.output (length (contents b))
    → Honest answers (length (contents b))
    → Taken c (send_buffer answers c b) (contents b)
unfolding send_buffer send_full
send_buffer-Taken answers c b l w f h =
    let (o, b') = absorb c.output b in
    let first = send_full c b in
    let opened : (if not c.channel then (c, b) else send_on answers first) ≡ send_on answers first =
      ap (λ x. if not x then (c, b) else send_on answers first) l.open_channel in
    subst (λ p. Taken c p (contents b)) (sym opened)
      (elim (Bool-cases c.write_enabled) [
        | inl on ↦
            subst (λ p. Taken c (send_on answers p) (contents b))
              (sym (ap (λ x. if x then (record c { output = o }, b') else (c, b)) on))
              (behind-Taken answers c b l on w f)
        | inr off ↦
            subst (λ p. Taken c (send_on answers p) (contents b))
              (sym (ap (λ x. if x then (record c { output = o }, b') else (c, b)) off))
              (on_empty-Taken answers c b l (l.awaited off) w f h)
      ])
