-- ===== src/Conn/Stream.antt =====
-- What each call that sends does to the stream: the bytes on the wire and then those that wait.
use handy_copy.Conn.Sending.{Honest, NoError, isend_bounds, isend_full}
use handy_copy.Buffer.Room.{IsValid, Fits, length-contents, size_lem}
use handy_copy.Buffer.Contents.{append-Holds}
use handy_copy.Base.{
  ==_iff, Bool-cases, Bytes, [], ap, append-nil, arith, false, inl, inr, length, nil_of_length,
  refl, sym, true, ℕ, ◌++◌, ◌==◌, ◌∙◌, ◌≡◌, ◌≤◌, List, append_assoc, ap₂, drop, length-drop, take,
  take-append-drop, Bool, drop_all, subst, ◌-◌, ◌||◌, if◌then◌else◌, not,
}
use handy_copy.Conn.{Answer, Conn, keep_rest, send_rest, isend, put_out, send_bytes}
use handy_copy.Buffer.{Buffer, contents, size}

-- The bytes that the connection was given, as far as it has kept them in order.
abbrev pub stream : Conn → Bytes
stream c = c.wire ++ contents c.output

-- A connection that is open, in which bytes that wait are waited for.
pub record IsLive (c : Conn) : Type 0 where
  pub open_channel : c.channel ≡ true
  pub valid : IsValid c.output
  pub awaited : c.write_enabled ≡ false → contents c.output ≡ []

pub size-contents : (s : Buffer) → IsValid s → size s ≡ length (contents s)
size-contents s v = size_lem v ∙ sym (length-contents v)

pub size_zero : (s : Buffer) → IsValid s → (size s == 0) ≡ true → contents s ≡ []
size_zero s v h =
    nil_of_length (contents s) (omega (arith, size-contents s v, (==_iff (size s) 0).0 h))

pub size_of_nil : (s : Buffer) → IsValid s → contents s ≡ [] → (size s == 0) ≡ true
size_of_nil s v h = (==_iff (size s) 0).1 (size-contents s v ∙ ap length h)

pub fewer-Fits : (s : Buffer) (m n : ℕ) → Fits s n → m ≤ n → Fits s m
fewer-Fits s m n f h = record { doubled = f.doubled; grown = omega (arith, f.grown) }

-- `c'` holds the stream of `c` with `d` behind it, and is live.
pub record Carried (c c' : Conn) (d : Bytes) : Type 0 where
  pub live : IsLive c'
  pub same_stream : stream c' ≡ stream c ++ d

-- What `keep_rest` leaves.
pub record Kept (c c' : Conn) (d : Bytes) : Type 0 where
  pub valid : IsValid c'.output
  pub held : contents c'.output ≡ contents c.output ++ d
  pub wire : c'.wire ≡ c.wire
  pub enabled : c'.write_enabled ≡ c.write_enabled
  pub channel : c'.channel ≡ c.channel

unchanged : (d : Bytes) (c : Conn) → IsValid c.output → d ≡ [] → Kept c c d
unchanged d c v e = record {
  valid = v;
  held = sym (ap (λ t. contents c.output ++ t) e ∙ append-nil (contents c.output));
  wire = refl;
  enabled = refl;
  channel = refl;
}

pub keep_rest-Kept :
    (d : Bytes) (c : Conn) → IsValid c.output → Fits c.output (length d) → Kept c (keep_rest d c) d
unfolding keep_rest
keep_rest-Kept d c v f = elim (Bool-cases (length d == 0)) [
  | inl e ↦ rw e (unchanged d c v (nil_of_length d ((==_iff (length d) 0).0 e)))
  | inr e ↦
      let h = append-Holds c.output d v f in
      rw e (record { valid = h.valid; held = h.held; wire = refl; enabled = refl; channel = refl })
]

unary : (n : ℕ) → n ≡ n - 0
unary n = omega arith

-- `isend` with a block, before anything of it is kept.
abbrev pub sent_part : List Answer → Bytes → ℕ
sent_part answers d = (isend answers (length d) 0).count

pub sent_bounds :
    (answers : List Answer) (d : Bytes) → Honest answers (length d) → sent_part answers d ≤ length d
sent_bounds answers d h =
    isend_bounds answers (length d) 0 (subst (Honest answers) (unary (length d)) h) (omega arith)

-- A socket that is not full has taken everything.
pub all_sent :
    (answers : List Answer) (d : Bytes)
    → NoError answers
    → (isend answers (length d) 0).full ≡ false
    → drop (isend answers (length d) 0).count d ≡ []
all_sent answers d ok h =
    let more = isend_full answers (length d) 0 ok in
    drop_all (isend answers (length d) 0).count d (grind (arith, more, h))

-- A live connection with nothing that waits.
pub stream_nil : (c : Conn) (d : Bytes) → contents c.output ≡ [] → stream c ++ d ≡ c.wire ++ d
stream_nil c d h = ap (λ t. (c.wire ++ t) ++ d) h ∙ ap (λ t. t ++ d) (append-nil c.wire)

pub or_false : (a b : Bool) → (a || b) ≡ false → b ≡ false
or_false a b h = ground arith

-- `send(const char *, size_t)`: with nothing before it.
send_rest-Carried :
    (answers : List Answer) (d : Bytes) (c : Conn)
    → IsLive c
    → contents c.output ≡ []
    → Honest answers (length d)
    → NoError answers
    → Fits c.output (length d)
    → Carried c (send_rest (isend answers (length d) 0) d c) d
unfolding send_rest put_out
send_rest-Carried answers d c l none_held h ok f =
    let s = isend answers (length d) 0 in
    let c1 = put_out s d c in
    let bound : s.count ≤ length d = sent_bounds answers d h in
    let k = keep_rest-Kept (drop s.count d) c1 l.valid (
      fewer-Fits c.output (length (drop s.count d)) (length d) f
        (omega (arith, length-drop s.count d))) in
    let held : contents (keep_rest (drop s.count d) c1).output ≡ drop s.count d =
      k.held ∙ ap (λ t. t ++ drop s.count d) none_held in
    record {
      live = record {
        open_channel = k.channel ∙ l.open_channel;
        valid = k.valid;
        awaited = λ off.
            held ∙ all_sent answers d ok (or_false c.write_enabled s.full (sym k.enabled ∙ off));
      };
      same_stream =
          ap₂ ◌++◌ k.wire held
          ∙ append_assoc c.wire (take s.count d) (drop s.count d)
          ∙ ap (λ t. c.wire ++ t) (take-append-drop s.count d)
          ∙ sym (stream_nil c d none_held);
    }

pub with_channel : (c x : Conn) → c.channel ≡ true → (if not c.channel then c else x) ≡ x
with_channel c x h = rw h refl

-- Behind bytes that wait.
keep_rest-Carried :
    (d : Bytes) (c : Conn)
    → IsLive c
    → Kept c (keep_rest d c) d
    → (size c.output == 0) ≡ false
    → Carried c (keep_rest d c) d
keep_rest-Carried d c l k some_held = record {
  live = record {
    open_channel = k.channel ∙ l.open_channel;
    valid = k.valid;
    awaited = λ off.
        let nothing = size_of_nil c.output l.valid (l.awaited (sym k.enabled ∙ off)) in
        absurd (cc (nothing, some_held));
  };
  same_stream = ap₂ ◌++◌ k.wire k.held ∙ sym (append_assoc c.wire (contents c.output) d);
}

-- `send(const char *, size_t)` of a live connection, with a socket that takes no more than it is
-- given and reports no error, puts its bytes behind all that was sent before: the bytes on the
-- wire and those that wait are, in this order, what they were and then the new bytes; and the
-- connection stays live, so that it waits for the socket while bytes wait. The block of `output_`
-- stays below its limit.
pub send_bytes-Carried :
    (answers : List Answer) (d : Bytes) (c : Conn)
    → IsLive c
    → Honest answers (length d)
    → NoError answers
    → Fits c.output (length d)
    → Carried c (send_bytes answers d c) d
unfolding send_bytes
send_bytes-Carried answers d c l h ok f =
    let direct = send_rest (isend answers (length d) 0) d c in
    subst (λ x. Carried c x d)
      (sym (with_channel c (if size c.output == 0 then direct else keep_rest d c) l.open_channel))
      (elim (Bool-cases (size c.output == 0)) [
        | inl z ↦ rw z (send_rest-Carried answers d c l (size_zero c.output l.valid z) h ok f)
        | inr some_held ↦
            rw some_held (keep_rest-Carried d c l (keep_rest-Kept d c l.valid f) some_held)
      ])
