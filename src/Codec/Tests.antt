-- ===== src/Codec/Tests.antt =====
-- The codecs at concrete bytes.
use handy_copy.Base.Int.{pos, negsuc}
use handy_copy.Buffer.{new, contents, append, fill, make_room, expand}
use handy_copy.Buffer.Block.{range, write_at}
use handy_copy.Buffer.Refine.{step}
use handy_copy.Codec.{
  Span, partial, found, bytes_of, InRange, line_decode, line_encode, length_decode, length_encode,
}
use handy_copy.Codec.Line.{line_decode-encode}
use handy_copy.Codec.Length.{with_header, length_decode_negative, length_decode-encode}
use handy_copy.Codec.Word.{le_bytes, le_word, hton32}
use handy_copy.Base.{[], arith, codes, length, none, refl, some, ◌++◌, ◌-◌, ◌^◌, ◌∷◌, ◌≡◌}

line_decode_runs :
    (line_decode (codes "ab\r\ncd") ≡ found 4 (record { off = 0; len = 2 }))
    × (line_decode (codes "ab\ncd") ≡ found 3 (record { off = 0; len = 2 }))
    × (line_decode (codes "ab") ≡ partial)
    × (line_decode (0x04 ∷ []) ≡ found 1 (record { off = 0; len = 1 }))
unfolding line_decode
line_decode_runs = (refl, refl, refl, refl)

length_decode_runs :
    (length_decode (codes "mBdT" ++ 0 ∷ 0 ∷ 0 ∷ 2 ∷ codes "hi!")
      ≡ found 10 (record { off = 8; len = 2 }))
    × (length_decode (codes "mBdT" ++ 0 ∷ 0 ∷ 0 ∷ 2 ∷ codes "h") ≡ partial)
    × (length_decode (codes "mBdX" ++ 0 ∷ 0 ∷ 0 ∷ 2 ∷ codes "hi")
        ≡ record { ret = negsuc 0; msg = none })
unfolding length_decode le_word hton32
length_decode_runs = (refl, refl, refl)

line_decode-encode_example :
    (line_decode (contents (line_encode (codes "hi") new) ++ codes "x")
      ≡ found (length (contents (line_encode (codes "hi") new))) (record { off = 0; len = 2 }))
    × (bytes_of (contents (line_encode (codes "hi") new) ++ codes "x") (record { off = 0; len = 2 })
        ≡ codes "hi")
unfolding step append fill make_room expand range
line_decode-encode_example =
    line_decode-encode (codes "hi") (codes "x") new (refl, (refl, tt)) (omega arith) refl
      (omega arith, (omega arith, tt)) (omega arith)

length_decode_negative_example :
    let span : Span = record { off = 8; len = 2 ^ 64 - 5 } in
    (length_decode (with_header (2 ^ 32 - 5) (codes "x"))
      ≡ record { ret = pos (8 - 5); msg = some span })
    × ¬ InRange (with_header (2 ^ 32 - 5) (codes "x")) span
length_decode_negative_example =
    length_decode_negative 5 (codes "x") (omega arith) (omega arith) (omega arith)

length_decode-encode_example :
    (length_decode (contents (length_encode (codes "hi") new) ++ codes "x")
      ≡ found 10 (record { off = 8; len = 2 }))
    × (bytes_of
          (contents (length_encode (codes "hi") new) ++ codes "x")
          (record { off = 8; len = 2 })
        ≡ codes "hi")
unfolding step append fill make_room expand range write_at le_bytes
length_decode-encode_example =
    length_decode-encode (codes "hi") (codes "x") new (omega arith) (omega arith) (omega arith) refl
      (omega arith, (omega arith, (omega arith, tt)))
