-- ===== src/Server/Chunk.antt =====
-- server/src/chunk.rs: files received and sent in chunks of 16 KiB.
pub mod Receive
pub mod Send
use esp32_music_server.Prelude.{ℕ, ◌*◌}
use esp32_music_server.Std.Usize.{mul_usize}

-- `idx * 16 * 1024` in `usize`.
unfoldable pub chunk_offset : ℕ → ℕ → ℕ
chunk_offset modulus idx = mul_usize modulus (mul_usize modulus idx 16) 1024
