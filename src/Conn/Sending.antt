-- ===== src/Conn/Sending.antt =====
-- `isend`: how much of a block the socket takes.
use handy_copy.Conn.{Answer, wrote, interrupted, again, write_error, isend}
use handy_copy.Base.{List, [], arith, true, ℕ, ◌+◌, ◌-◌, ◌<◌, ◌∷◌, ◌≡◌, ◌≤◌}

-- `writeImp` takes no more than it is given.
abbrev pub Honest : List Answer → ℕ → Type 0
Honest [] len = Unit
Honest (wrote n ∷ answers) len = (n ≤ len) × Honest answers (len - n)
Honest (_ ∷ answers) len = Honest answers len

-- No error: the socket takes bytes, is full, or is interrupted.
abbrev pub NoError : List Answer → Type 0
NoError [] = Unit
NoError (wrote n ∷ answers) = (0 < n) × NoError answers
NoError (write_error ∷ answers) = ⊥
NoError (_ ∷ answers) = NoError answers

pub isend_bounds :
    (answers : List Answer) (len sended : ℕ)
    → Honest answers (len - sended)
    → sended ≤ len
    → (isend answers len sended).count ≤ len
unfolding isend
isend_bounds [] len sended h le = le
isend_bounds (wrote n ∷ answers) len sended h le =
    ground (arith, isend_bounds answers len (sended + n))
isend_bounds (interrupted ∷ answers) len sended h le =
    ground (arith, isend_bounds answers len sended)
isend_bounds (again ∷ answers) len sended h le = le
isend_bounds (write_error ∷ answers) len sended h le = le

-- Without an error, what is left over means that the socket is full.
pub isend_full :
    (answers : List Answer) (len sended : ℕ)
    → NoError answers
    → (isend answers len sended).count < len
    → (isend answers len sended).full ≡ true
unfolding isend
isend_full [] len sended ok h = ground arith
isend_full (wrote n ∷ answers) len sended ok h = ground (arith, isend_full answers len (sended + n))
isend_full (interrupted ∷ answers) len sended ok h = ground (arith, isend_full answers len sended)
isend_full (again ∷ answers) len sended ok h = ground arith
isend_full (write_error ∷ answers) len sended ok h = absurd ok

-- The bytes that are sent and those that are left make up the block.
