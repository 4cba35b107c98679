-- ===== src/Server.antt =====
-- `TcpServer` of handy/conn.cc with `handleAccept`, and `allocBase` of `MultiBase` in
-- handy/event_base.h. A base is its place in `bases_`; a single `EventBase`, which gives itself out, is
-- a `MultiBase` of one. `Option` is for `fatalif`.
pub mod Round
pub mod Dealt
mod Tests
use mathlib.Core.Option
use handy_copy.Base.{
  Bool, List, Option, [], if◌then◌else◌, ltb, none, not, some, true, ℕ, ◌%◌, ◌&&◌, ◌++◌, ◌+◌, ◌-◌,
  ◌==◌, ◌^◌, ◌∷◌,
}

-- `id` is `id_`, an `int`, as a number below 2 ^ 32.
pub record Bases : Type 0 where
  pub size : ℕ
  pub id : ℕ

-- `c % bases_.size()`: a negative `int` becomes a `size_t`.
unfoldable pub base_at : ℕ → ℕ → ℕ
base_at c size = if ltb c (2 ^ 31) then c % size else (2 ^ 64 - 2 ^ 32 + c) % size

-- `allocBase`
unfoldable pub alloc_base : Bases → ℕ × Bases
alloc_base b = (base_at b.id b.size, record b { id = (b.id + 1) % 2 ^ 32 })

-- A descriptor that `accept` gives, and whether `getpeername`, `getsockname` and `addFdFlag` work on it.
pub record Accepted : Type 0 where
  pub fd : ℕ
  pub has_peer : Bool
  pub has_name : Bool
  pub has_flag : Bool

-- `base` is `base_`, and `listening` says that the descriptor of `listen_channel_` is open. `added` has
-- the connections that are made, each with its base, and `called` those that a task of its base is to
-- make; the descriptors of `lost` are open, and nothing keeps them.
pub record Server : Type 0 where
  pub bases : Bases
  pub base : ℕ
  pub listening : Bool
  pub added : List (ℕ × ℕ)
  pub called : List (ℕ × ℕ)
  pub lost : List ℕ

-- A server after `bind`.
unfoldable pub start_server : Bases → Server
unfolding alloc_base
start_server b =
    let (base, bases) = alloc_base b in
    record { bases = bases; base = base; listening = true; added = []; called = []; lost = [] }

-- `addcon` is called, or is a task of another base.
unfoldable pub add_con : ℕ → ℕ → Server → Server
add_con base fd s =
    if base == s.base
    then record s { added = s.added ++ (base, fd) ∷ [] }
    else record s { called = s.called ++ (base, fd) ∷ [] }

-- A round of the loop of `handleAccept`.
unfoldable pub accept_one : Accepted → Server → Option Server
unfolding alloc_base add_con
accept_one a s =
    let (base, bases) = alloc_base s.bases in
    if not (a.has_peer && a.has_name)
    then some (record s { lost = s.lost ++ a.fd ∷ [] })
    else if not a.has_flag
    then none
    else some (add_con base a.fd (record s { bases = bases }))

-- The loop, over the descriptors that `accept` gives until it fails.
unfoldable pub accept_all : List Accepted → Server → Option Server
unfolding accept_one
accept_all [] s = some s
accept_all (a ∷ cs) s = Option.bind (accept_one a s) (accept_all cs)

-- `handleAccept`
unfoldable pub handle_accept : List Accepted → Server → Option Server
unfolding accept_all
handle_accept cs s = if s.listening then accept_all cs s else some s
