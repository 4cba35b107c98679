-- ===== src/Codec/Line.antt =====
-- `LineCodec`: which line `tryDecode` finds, when it asks for more, and that it reads what `encode`
-- writes.
use handy_copy.Base.Int.{pos, negsuc}
use handy_copy.Slice.{Slice}
use handy_copy.Slice.Split.{NoByte}
use handy_copy.Buffer.{Buffer, contents}
use handy_copy.Buffer.Refine.{AllAllowed, run, queue_run, put, run_refines, step, queue_step}
use handy_copy.Buffer.Room.{IsValid}
use handy_copy.Codec.{
  Decoded, partial, found, byte_is, line_scan, line_find, line_encode, bytes_of, int_of,
  line_decode, Span, signed32,
}
use handy_copy.Base.{
  [], ap, arith, codes, false, length, ltb, refl, suc, ℕ, ◌&&◌, ◌++◌, ◌+◌, ◌-◌, ◌==◌, ◌∙◌, ◌∷◌, ◌≡◌,
  Bool-cases, append_assoc, inl, inr, length-append, take-append, ◌↔◌, ◌≢◌, true, if_is_true, some,
  ◌%◌, ◌<◌, ◌^◌,
}

-- The last byte is no `\r`.
abbrev pub NoCr : Slice → Type 0
NoCr [] = Unit
NoCr (c ∷ []) = (c == b'\r') ≡ false
NoCr (_ ∷ d ∷ s) = NoCr (d ∷ s)

-- A line ends with `\r\n`, or with `\n` alone if its last byte is no `\r`.
pub data Ends (line end : Slice) : Type 0 where
  crlf : end ≡ codes "\r\n" → Ends line end
  lf : end ≡ codes "\n" → NoCr line → Ends line end

line_scan_skip :
    (line data' rest : Slice) (i : ℕ)
    → NoByte b'\n' line
    → line_scan data' i (line ++ rest) ≡ line_scan data' (i + length line) rest
unfolding line_scan
line_scan_skip [] data' rest i h = ap (λ k. line_scan data' k rest) (omega arith)
line_scan_skip (c ∷ line) data' rest i h =
    rw (h.0, line_scan)
      (line_scan_skip line data' rest (i + 1) h.1 ∙ ap (λ k. line_scan data' k rest) (omega arith))

byte_is-append :
    (line rest : Slice) (c ch : ℕ) → byte_is (line ++ (c ∷ rest)) (length line) ch ≡ (c == ch)
byte_is-append [] rest c ch = refl
byte_is-append (_ ∷ line) rest c ch = byte_is-append line rest c ch

byte_is_last :
    (c : ℕ) (s rest : Slice) → NoCr (c ∷ s) → byte_is ((c ∷ s) ++ rest) (length s) b'\r' ≡ false
byte_is_last c [] rest h = h
byte_is_last c (d ∷ s) rest h = byte_is_last d s rest h

-- The test of the byte before a `\n` that ends a line without `\r`.
NoCr-before :
    (line rest : Slice)
    → NoCr line
    → (ltb 0 (length line) && byte_is (line ++ rest) (length line - 1) b'\r') ≡ false
NoCr-before [] rest h = ground arith
NoCr-before (c ∷ s) rest h =
    let e : suc (length s) - 1 ≡ length s = omega arith in
    rw e (ground (arith, byte_is_last c s rest h))

-- Data with a line in it is no lone control byte.
not_control :
    (line end rest : Slice)
    → Ends line end
    → (length (line ++ (end ++ rest)) == 1 && byte_is (line ++ (end ++ rest)) 0 0x04) ≡ false
not_control [] end rest (crlf e) = rw e (ground arith)
not_control [] end rest (lf e h) = rw e (ground arith)
not_control (c ∷ line) end rest (crlf e) =
    rw e (ground (arith, length-append line (codes "\r\n" ++ rest)))
not_control (c ∷ line) end rest (lf e h) =
    rw e (ground (arith, length-append line (codes "\n" ++ rest)))

line_scan_end :
    (line end rest : Slice)
    → Ends line end
    → line_scan (line ++ (end ++ rest)) (length line) (end ++ rest)
      ≡ found (length line + length end) (record { off = 0; len = length line })
unfolding line_scan
line_scan_end line end rest (crlf e) =
    let back : length line + 1 - 1 ≡ length line = omega arith in
    rw e (rw (back, byte_is-append line (b'\n' ∷ rest) b'\r' b'\r') (ground arith))
line_scan_end line end rest (lf e no_cr) =
    rw e (ground (arith, NoCr-before line (b'\n' ∷ rest) no_cr))

-- `tryDecode` finds the first line, before the count becomes an `int`, whether it ends with `\r\n` or `\n`: the message is the line
-- without its end, and the returned count takes the end in.
pub line_find_line :
    (line end rest : Slice)
    → NoByte b'\n' line
    → Ends line end
    → line_find (line ++ (end ++ rest))
      ≡ found (length line + length end) (record { off = 0; len = length line })
unfolding line_find
line_find_line line end rest h t = rw (not_control line end rest t) (
    line_scan_skip line (line ++ (end ++ rest)) (end ++ rest) 0 h
    ∙ ap (λ k. line_scan (line ++ (end ++ rest)) k (end ++ rest)) (omega arith)
    ∙ line_scan_end line end rest t)

line_scan-partial :
    (data' rest : Slice) (i : ℕ) → NoByte b'\n' rest → line_scan data' i rest ≡ partial
unfolding line_scan
line_scan-partial data' [] i h = refl
line_scan-partial data' (c ∷ rest) i h =
    rw (h.0, line_scan) (line_scan-partial data' rest (i + 1) h.1)

line_scan-NoByte :
    (data' rest : Slice) (i : ℕ) → (line_scan data' i rest).ret ≡ pos 0 → NoByte b'\n' rest
unfolding line_scan
line_scan-NoByte data' [] i h = tt
line_scan-NoByte data' (c ∷ rest) i h = elim (Bool-cases (c == b'\n')) [
  | inl e ↦ absurd (ground arith)
  | inr e ↦ (e, line_scan-NoByte data' rest (i + 1) (ground arith))
]

control_test : (s : Slice) → (length s == 1 && byte_is s 0 0x04) ≡ true → s ≡ 0x04 ∷ []
control_test [] h = absurd (ground arith)
control_test (c ∷ []) h = ground arith
control_test (c ∷ d ∷ s) h = absurd (ground arith)

not_lone : (s : Slice) → (length s == 1 && byte_is s 0 0x04) ≡ false → s ≢ 0x04 ∷ []
not_lone [] h = λ e. cc e
not_lone (c ∷ []) h = λ e. ground arith
not_lone (c ∷ d ∷ s) h = λ e. cc e

-- `tryDecode` asks for more data exactly when the data has no `\n`, and is not the lone byte 4.
pub line_find_partial :
    (data' : Slice) → ((line_find data').ret ≡ pos 0) ↔ (NoByte b'\n' data' × (data' ≢ 0x04 ∷ []))
unfolding line_find
line_find_partial data' = elim (Bool-cases (length data' == 1 && byte_is data' 0 0x04)) [
  | inl e ↦ rw e (λ h. absurd (ground arith), λ h. absurd (h.1 (control_test data' e)))
  | inr e ↦ rw e (
    λ h. (line_scan-NoByte data' data' 0 h, λ is_control. not_lone data' e is_control),
    λ h. ap (λ (d : Decoded). d.ret) (line_scan-partial data' data' 0 h.0),
  )
]

-- Data without `\n` gives no message.
pub line_find_waits :
    (data' : Slice) → NoByte b'\n' data' → data' ≢ 0x04 ∷ [] → line_find data' ≡ partial
unfolding line_find
line_find_waits data' h g = elim (Bool-cases (length data' == 1 && byte_is data' 0 0x04)) [
  | inl e ↦ absurd (g (control_test data' e))
  | inr e ↦ rw e (line_scan-partial data' data' 0 h)
]

int_of_small : (n : ℕ) → n < 2 ^ 31 → int_of (pos n) ≡ pos n
int_of_small n h =
    let small : n % 2 ^ 32 ≡ n = omega (arith, h) in
    ap signed32 small ∙ if_is_true (ltb n (2 ^ 31)) (pos n) (negsuc (2 ^ 32 - n - 1)) (ground arith)

line_decode-found :
    (data' : Slice) (n : ℕ) (m : Span)
    → n < 2 ^ 31
    → line_find data' ≡ found n m
    → line_decode data' ≡ found n m
unfolding line_decode
line_decode-found data' n m h e =
    ap (λ (r : Decoded). record { ret = int_of r.ret; msg = r.msg }) e
    ∙ ap (λ z. record { ret = z; msg = some m }) (int_of_small n h)

-- A line whose length with its end is below 2 ^ 31.
pub line_decode_line :
    (line end rest : Slice)
    → NoByte b'\n' line
    → Ends line end
    → length line + length end < 2 ^ 31
    → line_decode (line ++ (end ++ rest))
      ≡ found (length line + length end) (record { off = 0; len = length line })
line_decode_line line end rest h t small =
    line_decode-found (line ++ (end ++ rest)) (length line + length end)
      (record { off = 0; len = length line }) small (line_find_line line end rest h t)

-- Data without `\n` gives no message.
pub line_decode_waits :
    (data' : Slice) → NoByte b'\n' data' → data' ≢ 0x04 ∷ [] → line_decode data' ≡ partial
unfolding line_decode
line_decode_waits data' h g =
    ap (λ (r : Decoded). record { ret = int_of r.ret; msg = r.msg }) (line_find_waits data' h g)

-- `encode` appends the message and `\r\n`.
pub contents-line_encode :
    (msg : Slice) (buf : Buffer)
    → IsValid buf
    → AllAllowed buf (put msg ∷ put (codes "\r\n") ∷ [])
    → contents (line_encode msg buf) ≡ contents buf ++ (msg ++ codes "\r\n")
unfolding line_encode run step queue_run queue_step
contents-line_encode msg buf v a =
    (run_refines (put msg ∷ put (codes "\r\n") ∷ []) buf v a).1
    ∙ append_assoc (contents buf) msg (codes "\r\n")

-- A message without `\n`, shorter than 2 ^ 31 bytes with its end, is read back from what `encode` wrote to an empty valid buffer, whatever
-- follows: the decoder takes just the encoded bytes, and the span that it returns is the message.
pub line_decode-encode :
    (msg rest : Slice) (buf : Buffer)
    → NoByte b'\n' msg
    → IsValid buf
    → contents buf ≡ []
    → AllAllowed buf (put msg ∷ put (codes "\r\n") ∷ [])
    → length msg + 2 < 2 ^ 31
    → (line_decode (contents (line_encode msg buf) ++ rest)
        ≡ found (length (contents (line_encode msg buf))) (record { off = 0; len = length msg }))
      × (bytes_of (contents (line_encode msg buf) ++ rest) (record { off = 0; len = length msg })
          ≡ msg)
line_decode-encode msg rest buf h v e a small =
    let written : contents (line_encode msg buf) ≡ msg ++ codes "\r\n" =
      contents-line_encode msg buf v a ∙ rw e in
    rw written (
      rw (append_assoc msg (codes "\r\n") rest, length-append msg (codes "\r\n"))
          (line_decode_line msg (codes "\r\n") rest h (crlf refl) small),
      rw (append_assoc msg (codes "\r\n") rest) (take-append msg (codes "\r\n" ++ rest)),
    )
