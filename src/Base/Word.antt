-- ===== src/Base/Word.antt =====
-- The machine words of uct_config.h on a 64-bit platform: `uct_uint_t` and `size_t` are numbers
-- below 2 ^ 64, and a `uct_int_t` is read as the integer that it stands for.
use umicat.Base.{ℕ, suc, ◌+◌, ◌-◌, ◌*◌, ◌%◌, ◌^◌, ◌≤◌, ◌<◌, ◌≡◌, arith, ltb, if◌then◌else◌}
use umicat.Base.Int.{ℤ, pos, negsuc}

-- `UCT_MAX_INT_T_VALUE`.
abbrev pub max_int : ℕ
max_int = 9223372036854775807

-- Unsigned addition, subtraction and multiplication wrap.
unfoldable pub add64 : ℕ → ℕ → ℕ
add64 a b = (a + b) % 2 ^ 64

unfoldable pub sub64 : ℕ → ℕ → ℕ
sub64 a b = (a + 2 ^ 64 - b) % 2 ^ 64

unfoldable pub mul64 : ℕ → ℕ → ℕ
mul64 a b = (a * b) % 2 ^ 64

-- A conversion from `uct_int_t` to `uct_uint_t`, and back.
unfoldable pub to_u64 : ℤ → ℕ
to_u64 (pos n) = n % 2 ^ 64
to_u64 (negsuc n) = 2 ^ 64 - suc (n % 2 ^ 64)

unfoldable pub to_i64 : ℕ → ℤ
to_i64 n = if ltb n (2 ^ 63) then pos n else negsuc (2 ^ 64 - n - 1)

pub sub64-eq-sub : (a b : ℕ) → a < 2 ^ 64 → b ≤ a → sub64 a b ≡ a - b
unfolding sub64
sub64-eq-sub a b h k = omega arith

pub add64-eq-add : (a b : ℕ) → a + b < 2 ^ 64 → add64 a b ≡ a + b
unfolding add64
add64-eq-add a b h = omega arith

pub mul64-eq-mul : (a b : ℕ) → a * b < 2 ^ 64 → mul64 a b ≡ a * b
unfolding mul64
mul64-eq-mul a b h = omega arith

-- One more and one less cancel, also where the counter wraps.
pub sub64-add64 : (a : ℕ) → a < 2 ^ 64 → sub64 (add64 a 1) 1 ≡ a
unfolding sub64 add64
sub64-add64 a h = omega arith

pub add64-lt : (a b : ℕ) → add64 a b < 2 ^ 64
unfolding add64
add64-lt a b = omega arith
