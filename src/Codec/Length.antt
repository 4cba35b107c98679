-- ===== src/Codec/Length.antt =====
-- `LengthCodec`: what `tryDecode` makes of a header, and that it reads what `encode` writes.
use handy_copy.Base.Int.{pos, negsuc}
use handy_copy.Slice.{Slice}
use handy_copy.Codec.{partial, InRange, magic, length_decode, Buffer, Span, bytes_of, length_encode}
use handy_copy.Codec.Word.{le_bytes, le_word, hton32, hton32-hton32, hton32-lt, le_word-le_bytes}
use handy_copy.Base.{
  ap, if◌then◌else◌, length, none, some, take, ℕ, ◌*◌, ◌++◌, ◌+◌, ◌<◌, ◌^◌, ◌∙◌, ◌≡◌, arith, leb,
  ◌-◌, ◌≤◌, [], append_assoc, length-append, length-take, refl, suc, take-append, ◌%◌, ◌∷◌,
}
use handy_copy.Buffer.Refine.{run, step, AllAllowed, queue_run, put, queue_step, run_refines}
use handy_copy.Buffer.Room.{IsValid}
use handy_copy.Buffer.{contents}

-- The magic word, a length, and a body.
abbrev pub with_header : ℕ → Slice → Slice
with_header v body = magic ++ (le_bytes (hton32 v) ++ body)

-- What `encode` writes for a message.
abbrev pub frame : Slice → Slice
frame msg = with_header (length msg) msg

abbrev pub max_length : ℕ
max_length = 1024 * 1024

-- The length that the decoder reads is the one that was written.
header_word :
    (v : ℕ) (body : Slice)
    → v < 2 ^ 32
    → hton32 (le_word (take 4 (le_bytes (hton32 v) ++ body))) ≡ v
unfolding le_bytes
header_word v body h = ap hton32 (le_word-le_bytes (hton32 v) (hton32-lt v)) ∙ hton32-hton32 v h

pub length-word : (w : ℕ) (body : Slice) → length (le_bytes w ++ body) ≡ length body + 4
unfolding le_bytes
length-word w body = omega arith

-- With a length of at most 2 ^ 20 in the header, and data of less than 2 ^ 31 bytes, the decoder
-- returns the body as soon as all of it is there, and asks for more until then.
pub length_decode_header :
    (v : ℕ) (body : Slice)
    → v ≤ max_length
    → length body + 8 < 2 ^ 31
    → length_decode (with_header v body) ≡ (
        if leb v (length body)
        then record { ret = pos (v + 8); msg = some (record { off = 8; len = v }) }
        else partial)
unfolding length_decode
length_decode_header v body h k =
    rw (header_word v body (omega arith), length-word (hton32 v) body) (ground arith)

-- A longer frame is an error, before its body is there.
pub length_decode_too_long :
    (v : ℕ) (body : Slice)
    → max_length < v
    → v < 2 ^ 31
    → length_decode (with_header v body) ≡ record { ret = negsuc 0; msg = none }
unfolding length_decode
length_decode_too_long v body h k =
    rw (header_word v body (omega arith), length-word (hton32 v) body) (ground arith)

-- A length from -7 to -1 passes the checks: the decoder reports a whole message of 1 to 7 bytes,
-- and the message is a span of nearly 2 ^ 64 bytes, which does not lie in the data.
pub length_decode_negative :
    (k : ℕ) (body : Slice)
    → 0 < k
    → k < 8
    → length body + 8 < 2 ^ 31
    → let span : Span = record { off = 8; len = 2 ^ 64 - k } in
      (length_decode (with_header (2 ^ 32 - k) body)
        ≡ record { ret = pos (8 - k); msg = some span })
      × ¬ InRange (with_header (2 ^ 32 - k) body) span
unfolding length_decode
length_decode_negative k body h lt small = (
  rw (header_word (2 ^ 32 - k) body (omega arith), length-word (hton32 (2 ^ 32 - k)) body)
      (ground arith),
  λ r. omega (arith, r, length-word (hton32 (2 ^ 32 - k)) body),
)

-- `encode` appends the frame of the message.
contents-length_encode :
    (msg : Slice) (buf : Buffer)
    → length msg < 2 ^ 32
    → IsValid buf
    → AllAllowed buf (put magic ∷ put (le_bytes (hton32 (length msg % 2 ^ 32))) ∷ put msg ∷ [])
    → contents (length_encode msg buf) ≡ contents buf ++ frame msg
unfolding length_encode run step queue_run queue_step
contents-length_encode msg buf h v a =
    let same_length : length msg % 2 ^ 32 ≡ length msg = omega arith in
    let header = le_bytes (hton32 (length msg % 2 ^ 32)) in
    (run_refines (put magic ∷ put header ∷ put msg ∷ []) buf v a).1
    ∙ append_assoc (contents buf ++ magic) header msg
    ∙ append_assoc (contents buf) magic (header ++ msg)
    ∙ ap (λ n. contents buf ++ (magic ++ (le_bytes (hton32 n) ++ msg))) same_length

pub bytes_of_body :
    (w n : ℕ) (msg rest : Slice)
    → n ≡ length msg
    → bytes_of (magic ++ (le_bytes w ++ (msg ++ rest))) (record { off = 8; len = n }) ≡ msg
unfolding le_bytes
bytes_of_body w n msg rest e = rw e (take-append msg rest)

-- A message of at most 2 ^ 20 bytes is read back from what `encode` wrote to an empty valid
-- buffer, whatever follows, up to 2 ^ 31 bytes in all: the decoder takes just the frame, and the
-- span that it returns is the message.
pub length_decode-encode :
    (msg rest : Slice) (buf : Buffer)
    → length msg ≤ max_length
    → length msg + length rest + 8 < 2 ^ 31
    → IsValid buf
    → contents buf ≡ []
    → AllAllowed buf (put magic ∷ put (le_bytes (hton32 (length msg % 2 ^ 32))) ∷ put msg ∷ [])
    → (length_decode (contents (length_encode msg buf) ++ rest)
        ≡ record { ret = pos (length msg + 8); msg = some (record { off = 8; len = length msg }) })
      × (bytes_of (contents (length_encode msg buf) ++ rest) (record { off = 8; len = length msg })
          ≡ msg)
length_decode-encode msg rest buf h small v e a =
    let w = hton32 (length msg) in
    let framed : contents (length_encode msg buf) ≡ frame msg =
      contents-length_encode msg buf (omega arith) v a ∙ rw e in
    let written : contents (length_encode msg buf) ++ rest
        ≡ with_header (length msg) (msg ++ rest) =
      ap (λ t. t ++ rest) framed
      ∙ append_assoc magic (le_bytes w ++ msg) rest
      ∙ ap (λ t. magic ++ t) (append_assoc (le_bytes w) msg rest) in
    (
      rw written (
          length_decode_header (length msg) (msg ++ rest) h (omega (arith, length-append msg rest))
          ∙ ground (arith, length-append msg rest)),
      rw written (bytes_of_body w (length msg) msg rest refl),
    )

pub short_data : (s : Slice) → length s < 8 → length_decode s ≡ partial
unfolding length_decode
short_data s h = ground arith

-- Of a frame that has arrived in part the decoder says that it needs more, wherever it is cut.
pub length_decode_prefix :
    (msg : Slice) (n : ℕ)
    → length msg ≤ max_length
    → n < length (frame msg)
    → length_decode (take n (frame msg)) ≡ partial
unfolding le_bytes
length_decode_prefix msg (suc (suc (suc (suc (suc (suc (suc (suc k)))))))) h lt =
    length_decode_header (length msg) (take k msg) h (omega (arith, length-take k msg))
    ∙ ground (arith, length-take k msg)
length_decode_prefix msg n h lt =
    short_data (take n (frame msg)) (omega (arith, length-take n (frame msg)))
