-- ===== src/Conn/Arrivals.antt =====
-- Messages that arrive in any number of reads.
use handy_copy.Slice.{Slice}
use handy_copy.Codec.{Decoded}
use handy_copy.Conn.Messages.{
  Arrival, got, eintr, Inbox, Delivery, done, out_of_fuel, take_in, handle_read,
}
use handy_copy.Buffer.Room.{IsValid, Fits, make_room_suggested-Readable}
use handy_copy.Buffer.Refine.{run_refines, receive, run, step, queue_run, queue_step}
use handy_copy.Buffer.{make_room_suggested, contents, space, fill, Buffer}
use handy_copy.Base.{
  Bytes, List, [], ap, append-nil, append_assoc, length, sym, ℕ, ◌++◌, ◌<◌, ◌∙◌, ◌∷◌, ◌≡◌, ◌≤◌,
}

-- The bytes that the reads of one `handleRead` give.
unfoldable pub gathered : List Arrival → Bytes
gathered [] = []
gathered (got b d ∷ more) = (b ∷ d) ++ gathered more
gathered (eintr ∷ more) = gathered more

-- Each `makeRoom()` has a suggested size and stays below the limit, and `readImp` gives at most the
-- bytes that fit.
abbrev pub AllowedIn : List Arrival → Buffer → Type 0
AllowedIn [] o = Fits o 0 × (0 < o.exp)
AllowedIn (got b d ∷ more) o =
    Fits o 0
    × (0 < o.exp)
    × (length (b ∷ d) ≤ space (make_room_suggested o))
    × AllowedIn more (fill (make_room_suggested o) (b ∷ d))
AllowedIn (eintr ∷ more) o = Fits o 0 × (0 < o.exp) × AllowedIn more (make_room_suggested o)

received :
    (d : Bytes) (o : Buffer)
    → IsValid o
    → Fits o 0
    → 0 < o.exp
    → length d ≤ space (make_room_suggested o)
    → IsValid (fill (make_room_suggested o) d)
      × (contents (fill (make_room_suggested o) d) ≡ contents o ++ d)
unfolding run step queue_run queue_step
received d o v fits some_exp few = run_refines (receive d ∷ []) o v ((fits, some_exp, few), tt)

-- `handleRead` takes in all bytes, in order.
pub take_in_lem :
    (arrivals : List Arrival) (o : Buffer)
    → IsValid o
    → AllowedIn arrivals o
    → IsValid (take_in arrivals o)
      × (contents (take_in arrivals o) ≡ contents o ++ gathered arrivals)
unfolding take_in gathered
take_in_lem [] o v a =
    let r = make_room_suggested-Readable o v a.0 a.1 in
    (r.valid, r.kept ∙ sym (append-nil (contents o)))
take_in_lem (got b d ∷ more) o v (fits, some_exp, few, a) =
    let (v', held) = received (b ∷ d) o v fits some_exp few in
    let (v'', held') = take_in_lem more (fill (make_room_suggested o) (b ∷ d)) v' a in
    (
      v'',
      held' ∙ ap (λ t. t ++ gathered more) held ∙ append_assoc (contents o) (b ∷ d) (gathered more),
    )
take_in_lem (eintr ∷ more) o v (fits, some_exp, a) =
    let r = make_room_suggested-Readable o v fits some_exp in
    let (v'', held') = take_in_lem more (make_room_suggested o) r.valid a in
    (v'', held' ∙ ap (λ t. t ++ gathered more) r.kept)

-- Calls of `handleRead`, one after the other.
unfoldable pub handle_reads : ℕ → (Slice → Decoded) → List (List Arrival) → Inbox → Delivery
handle_reads fuel decode [] box = done box
handle_reads fuel decode (arrivals ∷ more) box = elim (handle_read fuel decode arrivals box) [
  | out_of_fuel ↦ out_of_fuel
  | done box' ↦ handle_reads fuel decode more box'
]

unfoldable pub all_gathered : List (List Arrival) → Bytes
all_gathered [] = []
all_gathered (arrivals ∷ more) = gathered arrivals ++ all_gathered more

abbrev pub AllAllowedIn : ℕ → (Slice → Decoded) → List (List Arrival) → Inbox → Type 0
AllAllowedIn fuel decode [] box = Unit
AllAllowedIn fuel decode (arrivals ∷ more) box =
    AllowedIn arrivals box.input
    × ((box' : Inbox)
        → handle_read fuel decode arrivals box ≡ done box'
        → AllAllowedIn fuel decode more box')
