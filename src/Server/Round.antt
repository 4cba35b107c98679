-- ===== src/Server/Round.antt =====
-- The turn of the bases.
use native.Mathlib.Nat.{mod-lt}
use handy_copy.Base.{if_both, ltb, ℕ, ◌<◌, ◌^◌, ◌≤◌, ◌+◌, ◌-◌}
use handy_copy.Server.{base_at}

-- `allocBase` never gives a base outside of `bases_`, also when `id_` has become negative.
pub base_at-bound : (c size : ℕ) → 1 ≤ size → base_at c size < size
unfolding base_at
base_at-bound c size h =
    if_both (λ z. z < size) (ltb c (2 ^ 31)) (mod-lt c h) (mod-lt (2 ^ 64 - 2 ^ 32 + c) h)
