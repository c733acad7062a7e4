-- ===== src/Std/Usize.antt =====
-- `usize` of a release build, where additions and subtractions wrap around. The modulus is
-- `2 ^ 32` on the device and `2 ^ 64` on the development machine.
use esp32_music_server.Prelude.{ℕ, ◌+◌, ◌-◌, ◌*◌, ◌%◌}

abbrev pub add_usize : ℕ → ℕ → ℕ → ℕ
add_usize modulus a b = (a + b) % modulus

abbrev pub sub_usize : ℕ → ℕ → ℕ → ℕ
sub_usize modulus a b = (a + modulus - b) % modulus

abbrev pub mul_usize : ℕ → ℕ → ℕ → ℕ
mul_usize modulus a b = (a * b) % modulus

-- `x as u32`.
abbrev pub as_u32 : ℕ → ℕ
as_u32 x = x % 4294967296
