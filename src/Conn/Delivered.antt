-- ===== src/Conn/Delivered.antt =====
-- Which messages the reads of a connection deliver, however the bytes are cut into reads.
use handy_copy.Slice.{Slice}
use handy_copy.Codec.{Decoded, partial}
use handy_copy.Conn.Messages.{Arrival, Inbox, Delivery, done, take_in, handle_read, on_msg}
use handy_copy.Conn.Framing.{Framing, frames, After, on_msg-After, on_msg-partial}
use handy_copy.Conn.Cut.{frames_cut}
use handy_copy.Conn.Stream.{size_zero}
use handy_copy.Conn.Arrivals.{
  AllowedIn, AllAllowedIn, gathered, all_gathered, handle_reads, take_in_lem,
}
use handy_copy.Buffer.Room.{IsValid}
use handy_copy.Buffer.{contents, size}
use handy_copy.Base.{
  All, Bool-cases, Bytes, List, [], ap, append-nil, append_assoc, arith, if◌then◌else◌, inl, inr,
  length, length-append, refl, suc, sym, zero, ℕ, ◌++◌, ◌+◌, ◌<◌, ◌==◌, ◌^◌, ◌∙◌, ◌∷◌, ◌≡◌, subst,
  ◌≤◌,
}
use handy_copy.Base.Int.{pos}

regroup : (a b c d : Bytes) → (a ++ b) ++ (c ++ d) ≡ a ++ ((b ++ c) ++ d)
regroup a b c d = append_assoc a b (c ++ d) ∙ ap (λ t. a ++ t) (sym (append_assoc b c d))

module _ {decode : Slice → Decoded} {encoded : Slice → Bytes} {Fine : Slice → Type 0}
    (f : Framing decode encoded Fine) where
  -- With an empty buffer the callback would do nothing.
  handle_read-on_msg :
      (fuel : ℕ) (arrivals : List Arrival) (box : Inbox)
      → IsValid (take_in arrivals box.input)
      → handle_read (suc fuel) decode arrivals box
        ≡ on_msg (suc fuel) decode (record box { input = take_in arrivals box.input })
  unfolding handle_read
  handle_read-on_msg fuel arrivals box v =
      let box1 : Inbox = record box { input = take_in arrivals box.input } in
      elim (Bool-cases (size box1.input == 0)) [
        | inl z ↦
            ap (λ b. if b then done box1 else on_msg (suc fuel) decode box1) z
            ∙ sym (
                on_msg-partial fuel decode box1 (ap decode (size_zero box1.input v z) ∙ f.none_yet))
        | inr nz ↦ ap (λ b. if b then done box1 else on_msg (suc fuel) decode box1) nz
      ]

  -- One call of `handleRead`.
  handle_read-After :
      (fuel : ℕ) (arrivals : List Arrival) (box : Inbox) (ms : List Slice) (tail : Bytes)
      → IsValid box.input
      → AllowedIn arrivals box.input
      → contents box.input ++ gathered arrivals ≡ frames encoded ms ++ tail
      → decode tail ≡ partial
      → All Fine ms
      → length (contents box.input ++ gathered arrivals) < 2 ^ 31
      → length ms < fuel
      → (box' : Inbox) × (handle_read fuel decode arrivals box ≡ done box') × After box box' ms tail
  handle_read-After zero arrivals box ms tail v a h stop fine small less =
      absurd (omega (arith, less))
  handle_read-After (suc fuel) arrivals box ms tail v a h stop fine small less =
      let box1 : Inbox = record box { input = take_in arrivals box.input } in
      let (v1, held) = take_in_lem arrivals box.input v a in
      let (box', ran, b) =
        on_msg-After f ms tail box1 (suc fuel) v1 fine (held ∙ h) stop
          (omega (arith, ap length held, small)) less in
      (
        box',
        handle_read-on_msg fuel arrivals box v1 ∙ ran,
        record { valid = b.valid; held = b.held; delivered = b.delivered; closed = b.closed },
      )

  -- What was delivered of `ms` when `future` has not arrived yet.
  pub record Delivered (box : Inbox) (o : Delivery) (future : Bytes) (ms : List Slice)
      : Type 0 where
    pub front : List Slice
    pub back : List Slice
    pub left : Inbox
    pub ran : o ≡ done left
    pub parts : ms ≡ front ++ back
    pub delivered : left.delivered ≡ box.delivered ++ front
    pub closed : left.closed ≡ box.closed
    pub valid : IsValid left.input
    pub stop : decode (contents left.input) ≡ partial
    pub rest : contents left.input ++ future ≡ frames encoded back

  -- One call and then the rest.
  behind-Delivered :
      (box box1 : Inbox) (ms front back : List Slice) (tail future : Bytes) (o o1 : Delivery)
      → ms ≡ front ++ back
      → After box box1 front tail
      → o ≡ o1
      → Delivered box1 o1 future back
      → Delivered box o future ms
  behind-Delivered box box1 ms front back tail future o o1 parts b same d = record {
    front = front ++ d.front;
    back = d.back;
    left = d.left;
    ran = same ∙ d.ran;
    parts = parts ∙ ap (λ t. front ++ t) d.parts ∙ sym (append_assoc front d.front d.back);
    delivered =
        d.delivered ∙ ap (λ t. t ++ d.front) b.delivered ∙ append_assoc box.delivered front d.front;
    closed = d.closed ∙ b.closed;
    valid = d.valid;
    stop = d.stop;
    rest = d.rest;
  }

  -- However the frames of a list of messages are cut into reads, and into calls of `handleRead`,
  -- and however much of them has arrived so far: the callback has got the first messages of the
  -- list, each once and in order, the frame of the next has not arrived in full, and its bytes
  -- that have arrived wait in `input_`. The codec meets the contract `Framing` for the messages;
  -- at the start `input_` is valid and holds no whole frame; the frames have less than 2 ^ 31
  -- bytes, the reads fit their room, and the fuel is more than the number of messages.
  pub handle_reads-Delivered :
      (fuel : ℕ) (reads : List (List Arrival)) (box : Inbox) (future : Bytes) (ms : List Slice)
      → IsValid box.input
      → AllAllowedIn fuel decode reads box
      → All Fine ms
      → decode (contents box.input) ≡ partial
      → contents box.input ++ (all_gathered reads ++ future) ≡ frames encoded ms
      → length (frames encoded ms) < 2 ^ 31
      → length ms < fuel
      → Delivered box (handle_reads fuel decode reads box) future ms
  unfolding handle_reads all_gathered
  handle_reads-Delivered fuel [] box future ms v a fine stop h small less = record {
    front = [];
    back = ms;
    left = box;
    ran = refl;
    parts = refl;
    delivered = sym (append-nil box.delivered);
    closed = refl;
    valid = v;
    stop = stop;
    rest = h;
  }
  handle_reads-Delivered fuel (arrivals ∷ more) box future ms v a fine stop h small less =
      let q = contents box.input ++ gathered arrivals in
      let later = all_gathered more ++ future in
      let h' : q ++ later ≡ frames encoded ms =
        regroup (contents box.input) (gathered arrivals) (all_gathered more) future ∙ h in
      let s = frames_cut f ms q later fine h' in
      let fewer : length ms ≡ length s.front + length s.back =
        ap length s.parts ∙ length-append s.front s.back in
      let (box1, ran, b) =
        handle_read-After fuel arrivals box s.front s.tail v a.0 s.cut s.stop s.front_fine
          (omega (arith, ap length h', length-append q later, small))
          (omega (arith, fewer, less)) in
      let d =
        handle_reads-Delivered fuel more box1 future s.back b.valid (a.1 box1 ran) s.back_fine
          (ap decode b.held ∙ s.stop) (ap (λ t. t ++ later) b.held ∙ s.rest)
          (omega (
            arith,
            ap length h',
            length-append q later,
            ap length s.rest,
            length-append s.tail later,
            ap length s.cut,
            length-append (frames encoded s.front) s.tail,
            small,
          ))
          (omega (arith, fewer, less)) in
      behind-Delivered box box1 ms s.front s.back s.tail future
        (handle_reads fuel decode (arrivals ∷ more) box) (handle_reads fuel decode more box1)
        s.parts b (rw (ran, handle_reads) refl) d

  no_more :
      (o : Bytes) (back : List Slice)
      → All Fine back
      → decode o ≡ partial
      → o ≡ frames encoded back
      → length o < 2 ^ 31
      → back ≡ []
  unfolding frames
  no_more o [] fine stop h small = refl
  no_more o (m ∷ back) fine stop h small =
      let whole = f.whole m (frames encoded back) fine.0 (subst (λ t. length t < 2 ^ 31) h small) in
      let none_found : pos 0 ≡ pos (length (encoded m)) =
        ap (λ (r : Decoded). r.ret) (sym stop ∙ ap decode h ∙ whole) in
      let some_found = f.some_bytes m fine.0 in absurd (ground (arith, none_found, some_found))

  length-frames_back :
      (front back : List Slice)
      → length (frames encoded back) ≤ length (frames encoded (front ++ back))
  unfolding frames
  length-frames_back [] back = omega arith
  length-frames_back (m ∷ front) back = omega (
    arith,
    length-frames_back front back,
    length-append (encoded m) (frames encoded (front ++ back)),
  )

  shorter_back :
      {o : Bytes} {ms : List Slice} (front back : List Slice)
      → ms ≡ front ++ back
      → length (frames encoded ms) < 2 ^ 31
      → o ≡ frames encoded back
      → length o < 2 ^ 31
  shorter_back front back parts small h = omega (
    arith,
    ap (λ t. length (frames encoded t)) parts,
    length-frames_back front back,
    ap length h,
    small,
  )

  All-back : (front back : List Slice) → All Fine (front ++ back) → All Fine back
  All-back [] back h = h
  All-back (m ∷ front) back h = All-back front back h.1

  -- When all frames of a list of messages have arrived, in any cuts, the callback has got all
  -- messages, each once and in order, `input_` is empty, and the connection was not closed. The
  -- codec meets the contract `Framing` for the messages; at the start `input_` is valid and holds
  -- no whole frame; the frames have less than 2 ^ 31 bytes, the reads fit their room, and the fuel
  -- is more than the number of messages.
  pub every_message_arrives :
      (fuel : ℕ) (reads : List (List Arrival)) (box : Inbox) (ms : List Slice)
      → IsValid box.input
      → AllAllowedIn fuel decode reads box
      → All Fine ms
      → decode (contents box.input) ≡ partial
      → contents box.input ++ all_gathered reads ≡ frames encoded ms
      → length (frames encoded ms) < 2 ^ 31
      → length ms < fuel
      → (left : Inbox) × (handle_reads fuel decode reads box ≡ done left)
        × (left.delivered ≡ box.delivered ++ ms)
        × (contents left.input ≡ [])
        × (left.closed ≡ box.closed)
  unfolding frames
  every_message_arrives fuel reads box ms v a fine stop h small less =
      let h' = ap (λ t. contents box.input ++ t) (append-nil (all_gathered reads)) ∙ h in
      let d = handle_reads-Delivered fuel reads box [] ms v a fine stop h' small less in
      let rest : contents d.left.input ≡ frames encoded d.back =
        sym (append-nil (contents d.left.input)) ∙ d.rest in
      let fine' = All-back d.front d.back (subst (All Fine) d.parts fine) in
      let none_left =
        no_more (contents d.left.input) d.back fine' d.stop rest
          (shorter_back d.front d.back d.parts small rest) in
      (
        d.left,
        d.ran,
        d.delivered
            ∙ ap (λ t. box.delivered ++ t)
                (sym (d.parts ∙ ap (λ t. d.front ++ t) none_left ∙ append-nil d.front)),
        rest ∙ ap (frames encoded) none_left,
        d.closed,
      )
