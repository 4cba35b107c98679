-- ===== src/Conn/Cut.antt =====
-- Where a stream of frames may be cut: whole frames, and then a part of one.
use handy_copy.Slice.{Slice}
use handy_copy.Codec.{Decoded, partial}
use handy_copy.Conn.Framing.{Framing, frames}
use handy_copy.Base.{
  All, Bool-cases, Bytes, List, [], ap, append_assoc, arith, drop, drop-append, drop_within, inl,
  inr, length, ltb, ltb→lt, refl, sym, take, take-append, take-append-drop, take_within, ◌++◌, ◌<◌,
  ◌∙◌, ◌∷◌, ◌≡◌, ◌≤◌,
}

module _ {decode : Slice → Decoded} {encoded : Slice → Bytes} {Fine : Slice → Type 0}
    (f : Framing decode encoded Fine) where
  -- `q`, which is followed by `future`, holds the frames of `front` and a part of the next.
  pub record Split (q future : Bytes) (ms : List Slice) : Type 0 where
    pub front : List Slice
    pub back : List Slice
    pub tail : Bytes
    pub parts : ms ≡ front ++ back
    pub cut : q ≡ frames encoded front ++ tail
    pub stop : decode tail ≡ partial
    pub rest : tail ++ future ≡ frames encoded back
    pub front_fine : All Fine front
    pub back_fine : All Fine back

  nil_parts : (q future : Bytes) → q ++ future ≡ [] → (q ≡ []) × (future ≡ [])
  nil_parts [] future h = (refl, h)
  nil_parts (c ∷ q) future h = absurd (cc h)

  -- Less than the first frame.
  part_of_first :
      (m : Slice) (ms : List Slice) (q future : Bytes)
      → Fine m
      → All Fine ms
      → q ++ future ≡ frames encoded (m ∷ ms)
      → length q < length (encoded m)
      → Split q future (m ∷ ms)
  unfolding frames
  part_of_first m ms q future fine more h short =
      let same : q ≡ take (length q) (encoded m) =
        sym (take-append q future)
        ∙ ap (take (length q)) h
        ∙ take_within (length q) (encoded m) (frames encoded ms) (omega (arith, short)) in
      record {
        front = [];
        back = m ∷ ms;
        tail = q;
        parts = refl;
        cut = refl;
        stop = ap decode same ∙ f.cut m (length q) fine short;
        rest = h;
        front_fine = tt;
        back_fine = (fine, more);
      }

  -- The first frame and more.
  behind_first :
      (m : Slice) (ms : List Slice) (q future : Bytes)
      → q ++ future ≡ frames encoded (m ∷ ms)
      → length (encoded m) ≤ length q
      → (q ≡ encoded m ++ drop (length (encoded m)) q)
        × (drop (length (encoded m)) q ++ future ≡ frames encoded ms)
  unfolding frames
  behind_first m ms q future h long =
      let n = length (encoded m) in
      let first : take n q ≡ encoded m =
        sym (take_within n q future long)
        ∙ ap (take n) h
        ∙ take-append (encoded m) (frames encoded ms) in
      (
        sym (take-append-drop n q) ∙ ap (λ t. t ++ drop n q) first,
        sym (drop_within n q future long)
            ∙ ap (drop n) h
            ∙ drop-append (encoded m) (frames encoded ms),
      )

  -- Any part of a stream of frames that has arrived is whole frames and then a part of one.
  pub frames_cut :
      (ms : List Slice) (q future : Bytes)
      → All Fine ms
      → q ++ future ≡ frames encoded ms
      → Split q future ms
  unfolding frames
  frames_cut [] q future fine h =
      let (no_q, no_future) = nil_parts q future h in
      record {
        front = [];
        back = [];
        tail = [];
        parts = refl;
        cut = no_q;
        stop = f.none_yet;
        rest = no_future;
        front_fine = tt;
        back_fine = tt;
      }
  frames_cut (m ∷ ms) q future fine h = elim (Bool-cases (ltb (length q) (length (encoded m)))) [
    | inl short ↦ part_of_first m ms q future fine.0 fine.1 h (ltb→lt _ _ short)
    | inr long ↦
        let (first, behind) = behind_first m ms q future h (ground (arith, long)) in
        let s = frames_cut ms (drop (length (encoded m)) q) future fine.1 behind in
        record {
          front = m ∷ s.front;
          back = s.back;
          tail = s.tail;
          parts = ap (λ t. m ∷ t) s.parts;
          cut =
              first
              ∙ ap (λ t. encoded m ++ t) s.cut
              ∙ sym (append_assoc (encoded m) (frames encoded s.front) s.tail);
          stop = s.stop;
          rest = s.rest;
          front_fine = (fine.0, s.front_fine);
          back_fine = s.back_fine;
        }
  ]
