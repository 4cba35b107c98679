-- ===== src/Poller/Flags.antt =====
-- The events that a channel waits for.
use handy_copy.Poller.{
  Channel, set_read, set_write, set_read_write, read_enabled, write_enabled, with_bit,
}
use handy_copy.Poller.Bits.{has_bit, set_bit, clear_bit}
use handy_copy.Base.{Bool, arith, false, true, ℕ, ◌∙◌, ◌≡◌}

-- The flag of a bit, and the other flag, after the bit was set or cleared.
read_with_read : (b : Bool) (e : ℕ) → has_bit 1 (with_bit 1 b e) ≡ b
unfolding has_bit set_bit clear_bit
read_with_read true e = ground arith
read_with_read false e = ground arith

write_with_write : (b : Bool) (e : ℕ) → has_bit 4 (with_bit 4 b e) ≡ b
unfolding has_bit set_bit clear_bit
write_with_write true e = ground arith
write_with_write false e = ground arith

write_with_read : (b : Bool) (e : ℕ) → has_bit 4 (with_bit 1 b e) ≡ has_bit 4 e
unfolding has_bit set_bit clear_bit
write_with_read true e = ground arith
write_with_read false e = ground arith

read_with_write : (b : Bool) (e : ℕ) → has_bit 1 (with_bit 4 b e) ≡ has_bit 1 e
unfolding has_bit set_bit clear_bit
read_with_write true e = ground arith
read_with_write false e = ground arith

-- `enableRead` and `enableWrite` decide their own event and keep the other, and
-- `enableReadWrite` decides both.
pub enable_flags :
    (ch : Channel) (a b : Bool)
    → (read_enabled (set_read a ch) ≡ a)
      × (write_enabled (set_read a ch) ≡ write_enabled ch)
      × (read_enabled (set_write b ch) ≡ read_enabled ch)
      × (write_enabled (set_write b ch) ≡ b)
      × (read_enabled (set_read_write a b ch) ≡ a)
      × (write_enabled (set_read_write a b ch) ≡ b)
unfolding set_read set_write set_read_write read_enabled write_enabled
enable_flags ch a b = (
  read_with_read a ch.events,
  write_with_read a ch.events,
  read_with_write b ch.events,
  write_with_write b ch.events,
  read_with_write b (with_bit 1 a ch.events) ∙ read_with_read a ch.events,
  write_with_write b (with_bit 1 a ch.events),
)
