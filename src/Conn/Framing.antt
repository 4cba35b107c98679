-- ===== src/Conn/Framing.antt =====
-- What `onMsg` needs of a codec, and what it then delivers.
use handy_copy.Slice.{Slice}
use handy_copy.Codec.{Decoded, Span, bytes_of, found, partial}
use handy_copy.Conn.Messages.{Inbox, done, deliver, on_msg}
use handy_copy.Buffer.Room.{IsValid}
use handy_copy.Buffer.Contents.{consume-Holds}
use handy_copy.Base.{
  All, Bytes, List, [], ap, append-nil, append_assoc, ap₂, arith, drop, drop-append, length,
  length-append, refl, suc, sym, take, zero, ℕ, ◌++◌, ◌+◌, ◌-◌, ◌<◌, ◌∙◌, ◌∷◌, ◌≡◌, subst, ◌^◌,
}
use handy_copy.Buffer.{contents}

-- A codec's contract, for the messages that are `Fine`: a frame is decoded to its message whatever
-- follows it, and a part of a frame is not decoded.
pub record Framing (decode : Slice → Decoded) (encoded : Slice → Bytes) (Fine : Slice → Type 0)
    : Type 0 where
  pub span : Slice → Span
  pub whole :
      (msg rest : Slice)
      → Fine msg
      → length (encoded msg ++ rest) < 2 ^ 31
      → decode (encoded msg ++ rest) ≡ found (length (encoded msg)) (span msg)
  pub body : (msg rest : Slice) → Fine msg → bytes_of (encoded msg ++ rest) (span msg) ≡ msg
  pub none_yet : decode [] ≡ partial
  pub some_bytes : (msg : Slice) → Fine msg → 0 < length (encoded msg)
  pub cut :
      (msg : Slice) (n : ℕ)
      → Fine msg
      → n < length (encoded msg)
      → decode (take n (encoded msg)) ≡ partial

-- The frames of messages, one behind the other.
unfoldable pub frames : (Slice → Bytes) → List Slice → Bytes
frames encoded [] = []
frames encoded (m ∷ ms) = encoded m ++ frames encoded ms

-- What `onMsg` leaves when it has delivered `ms` and stopped before `tail`.
pub record After (box box' : Inbox) (ms : List Slice) (tail : Bytes) : Type 0 where
  pub valid : IsValid box'.input
  pub held : contents box'.input ≡ tail
  pub delivered : box'.delivered ≡ box.delivered ++ ms
  pub closed : box'.closed ≡ box.closed

pub on_msg-partial :
    (fuel : ℕ) (decode : Slice → Decoded) (box : Inbox)
    → decode (contents box.input) ≡ partial
    → on_msg (suc fuel) decode box ≡ done box
unfolding on_msg
on_msg-partial fuel decode box h = rw (h, on_msg) refl

on_msg-found :
    (fuel : ℕ) (decode : Slice → Decoded) (box : Inbox) (k : ℕ) (m : Span)
    → decode (contents box.input) ≡ found (suc k) m
    → on_msg (suc fuel) decode box ≡ on_msg fuel decode (deliver (found (suc k) m) (suc k) box)
unfolding on_msg
on_msg-found fuel decode box k m h =
    rw (h, on_msg) (ap (λ r. on_msg fuel decode (deliver r (suc k) box)) h)

module _ {decode : Slice → Decoded} {encoded : Slice → Bytes} {Fine : Slice → Type 0}
    (f : Framing decode encoded Fine) where
  -- One message.
  deliver-After :
      (box : Inbox) (msg rest : Slice) (n : ℕ)
      → IsValid box.input
      → contents box.input ≡ encoded msg ++ rest
      → n ≡ length (encoded msg)
      → Fine msg
      → After box (deliver (found n (f.span msg)) n box) (msg ∷ []) rest
  unfolding deliver
  deliver-After box msg rest n v h same fine =
      let long : length (contents box.input) ≡ length (encoded msg) + length rest =
        ap length h ∙ length-append (encoded msg) rest in
      let g = consume-Holds box.input n v (omega arith) in
      record {
        valid = g.valid;
        held = g.held ∙ ap₂ drop same h ∙ drop-append (encoded msg) rest;
        delivered =
            ap (λ t. box.delivered ++ bytes_of t (f.span msg) ∷ []) h
            ∙ ap (λ t. box.delivered ++ t ∷ []) (f.body msg rest fine);
        closed = refl;
      }

  shorter :
      {o : Bytes} (box : Inbox) (msg rest : Slice)
      → contents box.input ≡ encoded msg ++ rest
      → length (contents box.input) < 2 ^ 31
      → o ≡ rest
      → length o < 2 ^ 31
  shorter box msg rest h small held =
      omega (arith, ap length h, length-append (encoded msg) rest, ap length held)

  -- `onMsg` delivers exactly the messages whose frames have arrived in full, in order, and keeps the
  -- bytes of a frame that has arrived in part.
  pub on_msg-After :
      (ms : List Slice) (tail : Bytes) (box : Inbox) (fuel : ℕ)
      → IsValid box.input
      → All Fine ms
      → contents box.input ≡ frames encoded ms ++ tail
      → decode tail ≡ partial
      → length (contents box.input) < 2 ^ 31
      → length ms < fuel
      → (box' : Inbox) × (on_msg fuel decode box ≡ done box') × After box box' ms tail
  unfolding frames
  on_msg-After ms tail box zero v fine h stop small less = absurd (omega (arith, less))
  on_msg-After [] tail box (suc fuel) v fine h stop small less = (
    box,
    on_msg-partial fuel decode box (ap decode h ∙ stop),
    record { valid = v; held = h; delivered = sym (append-nil box.delivered); closed = refl },
  )
  on_msg-After (m ∷ ms) tail box (suc fuel) v fine h stop small less =
      let rest = frames encoded ms ++ tail in
      let k = length (encoded m) - 1 in
      let same : suc k ≡ length (encoded m) = omega (arith, f.some_bytes m fine.0) in
      let h' = h ∙ append_assoc (encoded m) (frames encoded ms) tail in
      let got : decode (contents box.input) ≡ found (suc k) (f.span m) =
        ap decode h'
        ∙ f.whole m rest fine.0 (subst (λ t. length t < 2 ^ 31) h' small)
        ∙ ap (λ n. found n (f.span m)) (sym same) in
      let a = deliver-After box m rest (suc k) v h' same fine.0 in
      let (box', ran, b) =
        on_msg-After ms tail (deliver (found (suc k) (f.span m)) (suc k) box) fuel a.valid fine.1
          a.held stop (shorter box m rest h' small a.held) (omega (arith, less)) in
      (
        box',
        on_msg-found fuel decode box k (f.span m) got ∙ ran,
        record {
          valid = b.valid;
          held = b.held;
          delivered =
              b.delivered ∙ ap (λ t. t ++ ms) a.delivered ∙ append_assoc box.delivered (m ∷ []) ms;
          closed = b.closed ∙ a.closed;
        },
      )
