-- ===== src/Conn/States.antt =====
-- The calls that send leave the state of the connection as it is.
use handy_copy.Buffer.{Buffer, size}
use handy_copy.Base.{
  Bool, Bytes, List, drop, if_both, length, none, not, refl, subst, sym, ◌&&◌, ◌==◌, ◌∙◌, ◌≡◌,
}
use handy_copy.Conn.{
  handle_write, keep_rest, send_buffer, send_bytes, send_full, send_later, send_msg, send_now,
  send_on, send_own, stop_writing, Answer, Conn, enable_write, put_out, send_output, send_rest,
  write_in, Slice, isend, write_on, write_out, connected,
}

send_full-state : (c : Conn) (b : Buffer) → (send_full c b).0.state ≡ c.state
unfolding send_full
send_full-state c b = if_both (λ (z : Conn × Buffer). z.0.state ≡ c.state) c.write_enabled refl refl

send_now-state :
    (answers : List Answer) (c : Conn) (b : Buffer) → (send_now answers c b).0.state ≡ c.state
unfolding send_now put_out
send_now-state answers c b =
    if_both (λ (z : Conn × Buffer). z.0.state ≡ c.state) (size b == 0) refl refl

send_later-state : (c : Conn) (b : Buffer) → (send_later c b).0.state ≡ c.state
unfolding send_later enable_write
send_later-state c b = if_both (λ (z : Conn × Buffer). z.0.state ≡ c.state) (size b == 0) refl refl

stop_writing-state : (c : Conn) → (stop_writing c).state ≡ c.state
unfolding stop_writing
stop_writing-state c =
    if_both (λ (z : Conn). z.state ≡ c.state) (size c.output == 0 && c.write_enabled) refl refl

keep_rest-state : (d : Bytes) (c : Conn) → (keep_rest d c).state ≡ c.state
unfolding keep_rest
keep_rest-state d c = if_both (λ (z : Conn). z.state ≡ c.state) (length d == 0) refl refl

send_on-state :
    (answers : List Answer) (p : Conn × Buffer) → (send_on answers p).0.state ≡ p.0.state
unfolding send_on
send_on-state answers (c, b) =
    let p = send_now answers c b in send_later-state p.0 p.1 ∙ send_now-state answers c b

pub send_bytes-state :
    (answers : List Answer) (d : Bytes) (c : Conn) → (send_bytes answers d c).state ≡ c.state
unfolding send_bytes send_rest put_out
send_bytes-state answers d c =
    let s = isend answers (length d) 0 in
    if_both (λ (z : Conn). z.state ≡ c.state) (not c.channel) refl
      (if_both (λ (z : Conn). z.state ≡ c.state) (size c.output == 0)
        (keep_rest-state (drop s.count d) (put_out s d c)) (keep_rest-state d c))

pub send_buffer-state :
    (answers : List Answer) (c : Conn) (b : Buffer) → (send_buffer answers c b).0.state ≡ c.state
unfolding send_buffer
send_buffer-state answers c b =
    if_both (λ (z : Conn × Buffer). z.0.state ≡ c.state) (not c.channel) refl
      (send_on-state answers (send_full c b) ∙ send_full-state c b)

send_own-state : (answers : List Answer) (c : Conn) → (send_own answers c).state ≡ c.state
unfolding send_own enable_write
send_own-state answers c =
    let same = send_now-state answers c c.output in
    if_both (λ (z : Conn). z.state ≡ c.state) (size (send_now answers c c.output).1 == 0) same same

pub send_msg-state :
    (encode : Slice → Buffer → Buffer) (answers : List Answer) (msg : Slice) (c : Conn)
    → (send_msg encode answers msg c).state ≡ c.state
unfolding send_msg send_output
send_msg-state encode answers msg c =
    if_both (λ (z : Conn). z.state ≡ c.state) (not c.channel) refl
      (send_own-state answers (record c { output = encode msg c.output }))

-- `handleWrite` of a connection that is connected.
pub handle_write-state :
    (writable : Bool) (answers : List Answer) (c : Conn)
    → c.state ≡ connected
    → (handle_write writable none answers c).state ≡ c.state
unfolding handle_write write_in write_on write_out put_out
handle_write-state writable answers c e =
    subst (λ s. (write_in s writable none answers c).state ≡ c.state) (sym e)
      (stop_writing-state (write_out answers c))
