-- ===== src/Buffer/Block.antt =====
-- A block of memory: reading a range of it, and copying bytes into it.
use handy_copy.Base.{
  ℕ, zero, suc, ◌+◌, ◌-◌, ◌≤◌, ◌≡◌, refl, ap, [], ◌∷◌, ◌++◌, arith, Bytes, length, drop, sym, ◌∙◌,
  drop_all,
}

-- The bytes at the offsets from `b` up to `e`.
unfoldable pub range : Bytes → ℕ → ℕ → Bytes
range [] b e = []
range (x ∷ m) b zero = []
range (x ∷ m) zero (suc e) = x ∷ range m zero e
range (x ∷ m) (suc b) (suc e) = range m b e

-- `memcpy(block + off, d, n)`. Bytes past the end of the block are not written.
unfoldable pub write_at : Bytes → ℕ → Bytes → Bytes
write_at [] off d = []
write_at (x ∷ m) (suc off) d = x ∷ write_at m off d
write_at (x ∷ m) zero [] = x ∷ m
write_at (x ∷ m) zero (y ∷ d) = y ∷ write_at m zero d

pub length-write_at : (m : Bytes) (off : ℕ) (d : Bytes) → length (write_at m off d) ≡ length m
unfolding write_at
length-write_at [] off d = refl
length-write_at (x ∷ m) (suc off) d = ap suc (length-write_at m off d)
length-write_at (x ∷ m) zero [] = refl
length-write_at (x ∷ m) zero (y ∷ d) = ap suc (length-write_at m zero d)

pub length-range : (m : Bytes) (b e : ℕ) → e ≤ length m → length (range m b e) ≡ e - b
unfolding range
length-range [] b e h = omega arith
length-range (x ∷ m) b zero h = omega arith
length-range (x ∷ m) zero (suc e) h = omega (arith, length-range m zero e)
length-range (x ∷ m) (suc b) (suc e) h = omega (arith, length-range m b e)

pub range_empty : (m : Bytes) (b e : ℕ) → e ≤ b → range m b e ≡ []
unfolding range
range_empty [] b e h = refl
range_empty (x ∷ m) b zero h = refl
range_empty (x ∷ m) zero (suc e) h = absurd (omega arith)
range_empty (x ∷ m) (suc b) (suc e) h = range_empty m b e (omega arith)

-- Advancing the start by `n` drops `n` bytes.
pub range-drop : (m : Bytes) (b c e n : ℕ) → c ≡ b + n → range m c e ≡ drop n (range m b e)
unfolding range
range-drop [] b c e n h = sym (drop_all n [] (omega arith))
range-drop (x ∷ m) b c zero n h = sym (drop_all n [] (omega arith))
range-drop (x ∷ m) zero zero (suc e) zero h = refl
range-drop (x ∷ m) zero zero (suc e) (suc n) h = absurd (omega arith)
range-drop (x ∷ m) zero (suc c) (suc e) zero h = absurd (omega arith)
range-drop (x ∷ m) zero (suc c) (suc e) (suc n) h = range-drop m zero c e n (omega arith)
range-drop (x ∷ m) (suc b) zero (suc e) n h = absurd (omega arith)
range-drop (x ∷ m) (suc b) (suc c) (suc e) n h = range-drop m b c e n (omega arith)

-- Bytes written at the end of a range extend it.
pub range-write_at :
    (m : Bytes) (b off end : ℕ) (d : Bytes)
    → b ≤ off
    → end ≡ off + length d
    → end ≤ length m
    → range (write_at m off d) b end ≡ range m b off ++ d
unfolding range write_at
range-write_at [] b off end [] h t k = refl
range-write_at [] b off end (y ∷ d) h t k = absurd (omega arith)
range-write_at (x ∷ m) zero zero zero [] h t k = refl
range-write_at (x ∷ m) zero zero zero (y ∷ d) h t k = absurd (omega arith)
range-write_at (x ∷ m) zero zero (suc end) [] h t k = absurd (omega arith)
range-write_at (x ∷ m) zero zero (suc end) (y ∷ d) h t k = ap (◌∷◌ y) (
    range-write_at m zero zero end d (omega arith) (omega arith) (omega arith)
    ∙ ap (λ r. r ++ d) (range_empty m 0 0 (omega arith)))
range-write_at (x ∷ m) b (suc off) zero d h t k = absurd (omega arith)
range-write_at (x ∷ m) zero (suc off) (suc end) d h t k =
    ap (◌∷◌ x) (range-write_at m zero off end d (omega arith) (omega arith) (omega arith))
range-write_at (x ∷ m) (suc b) zero end d h t k = absurd (omega arith)
range-write_at (x ∷ m) (suc b) (suc off) (suc end) d h t k =
    range-write_at m b off end d (omega arith) (omega arith) (omega arith)

-- What is written at an offset is read back from there.
pub range-write_at_self :
    (m : Bytes) (off end : ℕ) (d : Bytes)
    → end ≡ off + length d
    → end ≤ length m
    → range (write_at m off d) off end ≡ d
range-write_at_self m off end d t k =
    range-write_at m off off end d (omega arith) t k
    ∙ ap (λ r. r ++ d) (range_empty m off off (omega arith))
