-- ===== src/Server/Statics.antt =====
-- server/src/statics.rs: the two shared buffers, behind statics that are set once. What a buffer holds
-- stays there between two uses.
use esp32_music_server.Prelude.{
  ℕ, zero, suc, ◌≤◌, ◌≡◌, refl, ap, Option, none, some, [], ◌∷◌, Bytes, length, drop, length-append,
  length-drop, arith,
}
use esp32_music_server.Run.{Out, ok, panic, hang, Act, pure, ◌>>◌}
use esp32_music_server.FileManager.Start.{OnceLock}
use esp32_music_server.FileManager.Start.Retries.{OnceLaws}
use esp32_music_server.Server.Stream.{buf_size, read_into}

-- `[0u8; N]`
abbrev pub zeros : ℕ → Bytes
zeros zero = []
zeros (suc n) = 0 ∷ zeros n

-- `BUF` and `BUF2`.
pub record Statics : Type 0 where
  pub buf : Option Bytes
  pub buf2 : Option Bytes

-- `expect` of `set` on std's `OnceLock`: a static that has a value keeps it, and the call panics.
abbrev set_once : Bytes → Option Bytes → (Option Bytes → Statics) → Out ⊥ Statics (Unit {0})
set_once bs none put = ok tt (put (some bs))
set_once bs (some a) put = panic (put (some a))

unfoldable pub init_bufs_tokio : Act ⊥ Statics (Unit {0})
init_bufs_tokio =
    (λ s. set_once (zeros buf_size) s.buf (λ o. record s { buf = o }))
    >> (λ s. set_once (zeros buf_size) s.buf2 (λ o. record s { buf2 = o }))

unfoldable pub init_bufs_embassy : OnceLock Bytes → Act ⊥ Statics (Unit {0})
init_bufs_embassy once s =
    ok tt
      (record { buf = once.init (zeros buf_size) s.buf; buf2 = once.init (zeros buf_size) s.buf2 })

-- `expect` of a static that is not set.
abbrev or_panic : Option Bytes → Act ⊥ Statics Bytes
or_panic none = panic
or_panic (some bs) = pure bs

-- `get().await` waits for the static to be set.
abbrev or_wait : Option Bytes → Act ⊥ Statics Bytes
or_wait none = hang
or_wait (some bs) = pure bs

unfoldable pub get_buf_tokio : Act ⊥ Statics Bytes
get_buf_tokio s = or_panic s.buf s

unfoldable pub get_buf2_tokio : Act ⊥ Statics Bytes
get_buf2_tokio s = or_panic s.buf2 s

unfoldable pub get_buf_embassy : Act ⊥ Statics Bytes
get_buf_embassy s = or_wait s.buf s

unfoldable pub get_buf2_embassy : Act ⊥ Statics Bytes
get_buf2_embassy s = or_wait s.buf2 s

length-zeros : (n : ℕ) → length (zeros n) ≡ n
length-zeros zero = refl
length-zeros (suc n) = ap suc (length-zeros n)

-- Reading into a buffer keeps its length, so that a buffer is never empty.
pub length-read_into :
    (bs buffer : Bytes) → length bs ≤ length buffer → length (read_into bs buffer) ≡ length buffer
length-read_into bs buffer h =
    omega (arith, length-append bs (drop (length bs) buffer), length-drop (length bs) buffer)

-- The statics before `init`, and with two buffers.
abbrev pub unset : Statics
unset = record { buf = none; buf2 = none }

abbrev pub ready : Bytes → Bytes → Statics
ready a b = record { buf = some a; buf2 = some b }

-- Behind `init` both buffers are there, with `BUF_SIZE` zeros each; before it a call for a buffer
-- panics on std and waits on embassy. A second `init` panics on std, and changes nothing on embassy.
pub init_bufs_lem :
    (once : OnceLock Bytes) (laws : OnceLaws once) (a b : Bytes)
    → (init_bufs_tokio unset ≡ ok tt (ready (zeros buf_size) (zeros buf_size)))
      × (init_bufs_embassy once unset ≡ ok tt (ready (zeros buf_size) (zeros buf_size)))
      × (init_bufs_tokio (ready a b) ≡ panic (ready a b))
      × (init_bufs_embassy once (ready a b) ≡ ok tt (ready a b))
      × (get_buf_tokio unset ≡ panic unset)
      × (get_buf_embassy unset ≡ hang unset)
      × (length (zeros buf_size) ≡ buf_size)
unfolding init_bufs_tokio init_bufs_embassy get_buf_tokio get_buf_embassy
init_bufs_lem once laws a b = (
  refl,
  rw (laws.init_sets (zeros buf_size)) refl,
  refl,
  rw (laws.init_keeps (zeros buf_size) a) (rw (laws.init_keeps (zeros buf_size) b) refl),
  refl,
  refl,
  length-zeros buf_size,
)
