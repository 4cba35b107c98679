-- ===== src/Conn/Ending.antt =====
-- The loop of `onMsg` ends.
use handy_copy.Base.Int.{ℤ, pos, negsuc}
use handy_copy.Slice.{Slice}
use handy_copy.Codec.{Decoded}
use handy_copy.Codec.Within.{Within}
use handy_copy.Conn.Messages.{Inbox, Delivery, done, deliver, on_msg}
use handy_copy.Buffer.Room.{IsValid}
use handy_copy.Buffer.Contents.{consume-Holds}
use handy_copy.Buffer.{contents}
use handy_copy.Base.{
  ap, arith, inl, inr, length, length-drop, refl, suc, true, zero, ℕ, ◌-◌, ◌<◌, ◌^◌, ◌∙◌, ◌≡◌, ◌≤◌,
  ◌⊎◌,
}

-- `onMsg` returns, and leaves the buffer valid.
pub Returns : Delivery → Type 0
Returns o = (left : Inbox) × (o ≡ done left) × IsValid left.input

-- A result of the decoder: an error, nothing yet, or a message.
ret_cases : (z : ℤ) → ((k : ℕ) × (z ≡ negsuc k)) ⊎ ((z ≡ pos 0) ⊎ ((k : ℕ) × (z ≡ pos (suc k))))
ret_cases (negsuc k) = inl (k, refl)
ret_cases (pos zero) = inr (inl refl)
ret_cases (pos (suc k)) = inr (inr (k, refl))

-- With a decoder that counts no more bytes than it is given, the loop of `onMsg`, on a valid
-- `input_` of less than 2 ^ 31 bytes, returns with fuel for more rounds than `input_` has bytes,
-- and leaves a valid buffer.
pub on_msg_ends :
    (fuel : ℕ) (decode : Slice → Decoded) (box : Inbox)
    → ((data' : Slice) → length data' < 2 ^ 31 → Within decode data')
    → IsValid box.input
    → length (contents box.input) < 2 ^ 31
    → length (contents box.input) < fuel
    → Returns (on_msg fuel decode box)
unfolding on_msg Returns deliver
on_msg_ends zero decode box w v small less = absurd (omega (arith, less))
on_msg_ends (suc fuel) decode box w v small less =
    elim (ret_cases (decode (contents box.input)).ret) [
      | inl (k, e) ↦ (record box { closed = true }, rw (e, on_msg) refl, v)
      | inr (inl e) ↦ (box, rw (e, on_msg) refl, v)
      | inr (inr (k, e)) ↦
          let within : suc k ≤ length (contents box.input) =
            w (contents box.input) small (suc k) e in
          let box1 = deliver (decode (contents box.input)) (suc k) box in
          let g = consume-Holds box.input (suc k) v within in
          let shorter : length (contents box1.input) ≡ length (contents box.input) - suc k =
            ap length g.held ∙ length-drop (suc k) (contents box.input) in
          let (left, same, v') =
            on_msg_ends fuel decode box1 w g.valid (omega (arith, shorter, small))
              (omega (arith, shorter, less, within)) in
          (left, rw (e, on_msg) same, v')
    ]
