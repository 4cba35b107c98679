-- ===== src/Conn/Messages.antt =====
-- `onMsg` and `handleRead`: the messages that a codec finds in the bytes that arrive.
use handy_copy.Base.Int.{pos, negsuc}
use handy_copy.Slice.{Slice}
use handy_copy.Codec.{Decoded, Span, bytes_of}
use handy_copy.Buffer.{Buffer, contents, consume, make_room_suggested, fill, size}
use handy_copy.Base.{
  Bool, Bytes, List, Option, [], if◌then◌else◌, none, some, suc, true, zero, ℕ, ◌++◌, ◌==◌, ◌∷◌,
}

-- `input_`, the messages that the callback got, and whether the channel was closed for an error.
pub record Inbox : Type 0 where
  pub input : Buffer
  pub delivered : List Slice
  pub closed : Bool

pub data Delivery : Type 0 where
  done : Inbox → Delivery
  out_of_fuel : Delivery

-- The `msg` that the callback gets: an empty slice unless the decoder set it.
abbrev pub msg_bytes : Slice → Option Span → Slice
msg_bytes data' none = []
msg_bytes data' (some m) = bytes_of data' m

-- `cb(con, msg)`, which keeps the message, and `consume(r)`.
unfoldable pub deliver : Decoded → ℕ → Inbox → Inbox
deliver r n box = record box {
  input = consume box.input n;
  delivered = box.delivered ++ msg_bytes (contents box.input) r.msg ∷ [];
}

-- The loop of `onMsg`.
unfoldable pub on_msg : ℕ → (Slice → Decoded) → Inbox → Delivery
on_msg zero decode box = out_of_fuel
on_msg (suc fuel) decode box =
    let r = decode (contents box.input) in
    elim r.ret [
      | negsuc n ↦ done (record box { closed = true })
      | pos n ↦ elim n [ zero ↦ done box | suc k ↦ on_msg fuel decode (deliver r (suc k) box) ]
    ]

-- What `readImp` returns, up to EAGAIN, which ends the list: a byte and those behind it, or EINTR. A
-- result of 0 ends the connection, and is not among them.
pub data Arrival : Type 0 where
  got : ℕ → Bytes → Arrival
  eintr : Arrival

-- The loop of `handleRead` of a connection that is connected, up to EAGAIN.
unfoldable pub take_in : List Arrival → Buffer → Buffer
take_in [] o = make_room_suggested o
take_in (got b d ∷ more) o = take_in more (fill (make_room_suggested o) (b ∷ d))
take_in (eintr ∷ more) o = take_in more (make_room_suggested o)

-- `handleRead`, with the callback that `onMsg` sets.
unfoldable pub handle_read : ℕ → (Slice → Decoded) → List Arrival → Inbox → Delivery
handle_read fuel decode arrivals box =
    let box' = record box { input = take_in arrivals box.input } in
    if size box'.input == 0 then done box' else on_msg fuel decode box'
