-- ===== src/Conn/Early.antt =====
-- `send(const char *, size_t)` before the handshake is done: `handleHandshake` then switches off the
-- wait for a writable socket, whatever `output_` holds.
use handy_copy.Conn.{
  again, handshake_done, Answer, Conn, send_bytes, contents, keep_rest, send_rest, isend, size,
  put_out,
}
use handy_copy.Conn.Stream.{Kept, keep_rest-Kept, with_channel, IsLive, size-contents, size_of_nil}
use handy_copy.Buffer.Room.{IsValid, Fits}
use handy_copy.Base.{
  Bytes, List, [], ap, arith, false, if◌then◌else◌, length, length-append, refl, subst, sym, true,
  ◌<◌, ◌==◌, ◌∙◌, ◌∷◌, ◌≡◌, append-nil,
}

-- Bytes wait, and nothing will send them.
pub record IsStuck (c : Conn) : Type 0 where
  pub open_channel : c.channel ≡ true
  pub valid : IsValid c.output
  pub waiting : 0 < length (contents c.output)
  pub not_awaited : c.write_enabled ≡ false

-- Further calls of `send(const char *, size_t)`.
unfoldable pub send_all : List (List Answer × Bytes) → Conn → Conn
send_all [] c = c
send_all ((answers, d) ∷ sends) c = send_all sends (send_bytes answers d c)

abbrev pub AllFit : List (List Answer × Bytes) → Conn → Type 0
AllFit [] c = Unit
AllFit ((answers, d) ∷ sends) c = Fits c.output (length d) × AllFit sends (send_bytes answers d c)

nothing_sent :
    (answers : List Answer) (d : Bytes) (c : Conn)
    → IsStuck c
    → send_bytes answers d c ≡ keep_rest d c
unfolding send_bytes
nothing_sent answers d c s =
    let some_held : (size c.output == 0) ≡ false =
      ground (arith, size-contents c.output s.valid, s.waiting) in
    let direct = send_rest (isend answers (length d) 0) d c in
    with_channel c (if size c.output == 0 then direct else keep_rest d c) s.open_channel
    ∙ ap (λ b. if b then direct else keep_rest d c) some_held

later_sends :
    (sends : List (List Answer × Bytes)) (c : Conn)
    → IsStuck c
    → AllFit sends c
    → ((send_all sends c).wire ≡ c.wire) × IsStuck (send_all sends c)
unfolding send_all
later_sends [] c s f = (refl, s)
later_sends ((answers, d) ∷ sends) c s f =
    let c1 = send_bytes answers d c in
    let kept = keep_rest-Kept d c s.valid f.0 in
    let k : Kept c c1 d = subst (λ x. Kept c x d) (sym (nothing_sent answers d c s)) kept in
    let s1 : IsStuck c1 = record {
      open_channel = k.channel ∙ s.open_channel;
      valid = k.valid;
      waiting = omega (arith, ap length k.held, length-append (contents c.output) d, s.waiting);
      not_awaited = k.enabled ∙ s.not_awaited;
    } in
    let (same, s2) = later_sends sends c1 s1 f.1 in (same ∙ k.wire, s2)

early-IsStuck :
    (answers : List Answer) (d : Bytes) (c : Conn)
    → IsLive c
    → contents c.output ≡ []
    → 0 < length d
    → Fits c.output (length d)
    → IsStuck (handshake_done (send_bytes (again ∷ answers) d c))
      × ((send_bytes (again ∷ answers) d c).wire ≡ c.wire)
unfolding handshake_done send_bytes send_rest isend put_out
early-IsStuck answers d c l none_held some_bytes f =
    let c1 = put_out (isend (again ∷ answers) (length d) 0) d c in
    let k0 = keep_rest-Kept d c1 l.valid f in
    let direct = send_rest (isend (again ∷ answers) (length d) 0) d c in
    let same : send_bytes (again ∷ answers) d c ≡ keep_rest d c1 =
      with_channel c (if size c.output == 0 then direct else keep_rest d c) l.open_channel
      ∙ ap (λ b. if b then direct else keep_rest d c) (size_of_nil c.output l.valid none_held) in
    let k : Kept c1 (send_bytes (again ∷ answers) d c) d = subst (λ x. Kept c1 x d) (sym same) k0 in
    (
      record {
        open_channel = k.channel ∙ l.open_channel;
        valid = k.valid;
        waiting = omega (arith, ap length k.held, length-append (contents c.output) d, some_bytes);
        not_awaited = refl;
      },
      k.wire ∙ append-nil c.wire,
    )

-- Bytes that are sent on a live connection with nothing that waits, before its handshake is done
-- and when the socket does not take them yet, stay behind: once the handshake is done nothing
-- waits for the socket, and however many calls of `send(const char *, size_t)` follow, with blocks
-- below the limit, nothing goes on the wire.
pub early_send_lost :
    (answers : List Answer) (d : Bytes) (sends : List (List Answer × Bytes)) (c : Conn)
    → IsLive c
    → contents c.output ≡ []
    → 0 < length d
    → Fits c.output (length d)
    → AllFit sends (handshake_done (send_bytes (again ∷ answers) d c))
    → let c' = send_all sends (handshake_done (send_bytes (again ∷ answers) d c)) in
      (c'.wire ≡ c.wire) × IsStuck c'
unfolding handshake_done
early_send_lost answers d sends c l none_held some_bytes f fs =
    let (s, same) = early-IsStuck answers d c l none_held some_bytes f in
    let (same', s') = later_sends sends (handshake_done (send_bytes (again ∷ answers) d c)) s fs in
    (same' ∙ same, s')
