-- ===== src/Conn/Codecs.antt =====
-- Both codecs meet the contract of `onMsg`.
use handy_copy.Slice.{Slice}
use handy_copy.Slice.Split.{NoByte}
use handy_copy.Codec.{line_decode, length_decode, bytes_of, found, magic}
use handy_copy.Codec.Line.{line_decode_line, line_decode_waits, crlf}
use handy_copy.Codec.Length.{
  frame, max_length, length_decode_header, length_decode_prefix, bytes_of_body, with_header,
  length-word, short_data,
}
use handy_copy.Conn.Framing.{Framing}
use handy_copy.Base.{
  Bytes, [], ap, append_assoc, arith, codes, get_elem?, length, length-append, refl, some, suc, sym,
  take, take-append, zero, ℕ, ◌++◌, ◌+◌, ◌<◌, ◌^◌, ◌∙◌, ◌∷◌, ◌≡◌, ◌≢◌, ◌≤◌,
}
use handy_copy.Codec.Word.{hton32, le_bytes}

abbrev pub line : Slice → Bytes
line msg = msg ++ codes "\r\n"

-- A message without `\n` that does not start with the byte 4, which alone is a message itself.
abbrev pub FineLine : Slice → Type 0
FineLine msg = NoByte b'\n' msg × (get_elem? msg 0 ≢ some 0x04)

line_cut :
    (msg : Slice) (n : ℕ)
    → NoByte b'\n' msg
    → n < length (line msg)
    → NoByte b'\n' (take n (line msg))
line_cut [] zero h lt = tt
line_cut [] (suc zero) h lt = (refl, tt)
line_cut [] (suc (suc n)) h lt = absurd (omega (arith, lt))
line_cut (c ∷ msg) zero h lt = tt
line_cut (c ∷ msg) (suc n) h lt = (h.0, line_cut msg n h.1 (omega (arith, lt)))

cut_not_lone : (msg : Slice) (n : ℕ) → get_elem? msg 0 ≢ some 0x04 → take n (line msg) ≢ 0x04 ∷ []
cut_not_lone msg zero h e = cc e
cut_not_lone [] (suc n) h e = ground (arith, e)
cut_not_lone (c ∷ msg) (suc n) h e = ground (arith, e, h)

-- `LineCodec` meets the contract, for messages without `\n` that do not start with the byte 4.
pub line-Framing : Framing line_decode line FineLine
line-Framing = record {
  span = λ msg. record { off = 0; len = length msg };
  whole = λ msg rest fine small.
      ap line_decode (append_assoc msg (codes "\r\n") rest)
      ∙ line_decode_line msg (codes "\r\n") rest fine.0 (crlf refl)
          (omega (arith, small, length-append (line msg) rest, length-append msg (codes "\r\n")))
      ∙ ap (λ n. found n (record { off = 0; len = length msg }))
          (sym (length-append msg (codes "\r\n")));
  body = λ msg rest fine.
      ap (take (length msg)) (append_assoc msg (codes "\r\n") rest)
      ∙ take-append msg (codes "\r\n" ++ rest);
  none_yet = line_decode_waits [] tt (λ e. cc e);
  some_bytes = λ msg fine. omega (arith, length-append msg (codes "\r\n"));
  cut = λ msg n fine lt.
      line_decode_waits (take n (line msg)) (line_cut msg n fine.0 lt) (cut_not_lone msg n fine.1);
}

abbrev pub FineFrame : Slice → Type 0
FineFrame msg = length msg ≤ max_length

frame_append : (msg rest : Slice) → frame msg ++ rest ≡ with_header (length msg) (msg ++ rest)
frame_append msg rest =
    let w = hton32 (length msg) in
    append_assoc magic (le_bytes w ++ msg) rest
    ∙ ap (λ t. magic ++ t) (append_assoc (le_bytes w) msg rest)

length-frame : (msg : Slice) → length (frame msg) ≡ length msg + 8
length-frame msg = omega (arith, length-word (hton32 (length msg)) msg)

frame_whole :
    (msg rest : Slice)
    → FineFrame msg
    → length (frame msg ++ rest) < 2 ^ 31
    → length_decode (frame msg ++ rest)
      ≡ found (length (frame msg)) (record { off = 8; len = length msg })
frame_whole msg rest fine small =
    let long : length msg + 8 + length rest < 2 ^ 31 =
      omega (arith, length-append (frame msg) rest, length-frame msg) in
    ap length_decode (frame_append msg rest)
    ∙ length_decode_header (length msg) (msg ++ rest) fine (omega (arith, length-append msg rest))
    ∙ ground (arith, length-append msg rest)
    ∙ ap (λ n. found n (record { off = 8; len = length msg })) (sym (length-frame msg))

-- `LengthCodec` meets the contract, for messages of at most 2 ^ 20 bytes.
pub frame-Framing : Framing length_decode frame FineFrame
frame-Framing = record {
  span = λ msg. record { off = 8; len = length msg };
  whole = frame_whole;
  body = λ msg rest fine.
      ap (λ t. bytes_of t (record { off = 8; len = length msg })) (frame_append msg rest)
      ∙ bytes_of_body (hton32 (length msg)) (length msg) msg rest refl;
  none_yet = short_data [] (omega arith);
  some_bytes = λ msg fine. omega (arith, length-frame msg);
  cut = λ msg n fine lt. length_decode_prefix msg n fine lt;
}
