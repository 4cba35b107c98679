-- ===== src/Poller/Bits.antt =====
-- The flags of a bit mask: `&`, `|=` and `&= ~` with a power of two.
use handy_copy.Base.{Bool, if◌then◌else◌, ℕ, ◌%◌, ◌+◌, ◌-◌, ◌/◌, ◌==◌}

unfoldable pub has_bit : ℕ → ℕ → Bool
has_bit w e = e / w % 2 == 1

unfoldable pub set_bit : ℕ → ℕ → ℕ
unfolding has_bit
set_bit w e = if has_bit w e then e else e + w

unfoldable pub clear_bit : ℕ → ℕ → ℕ
unfolding has_bit
clear_bit w e = if has_bit w e then e - w else e
