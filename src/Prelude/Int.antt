-- ===== src/Prelude/Int.antt =====
-- Signed integers over the native numbers, as far as the days left of a certificate need them.
use pulse_keeper.Prelude.{Bool, Text, false, if◌then◌else◌, leb, show, true, ℕ, ◌+◌, ◌-◌, ◌/◌, ◌∷◌}

-- `negsuc n` is -(n + 1).
pub data ℤ : Type 0 where
  pos : ℕ → ℤ
  negsuc : ℕ → ℤ

-- `a <= n` for a number `n`.
abbrev pub leb_ℤ : ℤ → ℕ → Bool
leb_ℤ (pos m) n = leb m n
leb_ℤ (negsuc m) n = true

-- `a < 0`
abbrev pub is_negative : ℤ → Bool
is_negative (pos m) = false
is_negative (negsuc m) = true

-- `a - b`
abbrev pub sub_ℕ : ℕ → ℕ → ℤ
sub_ℕ a b = if leb b a then pos (a - b) else negsuc (b - a - 1)

-- `Math.floor((a - b) / k)` for a positive `k`.
unfoldable pub floor_div_sub : ℕ → ℕ → ℕ → ℤ
floor_div_sub a b k = if leb b a then pos ((a - b) / k) else negsuc ((b - a - 1) / k)

-- A number as a template literal prints it.
unfoldable pub show_ℤ : ℤ → Text
unfolding show
show_ℤ (pos n) = show n
show_ℤ (negsuc n) = b'-' ∷ show (n + 1)
