-- ===== src/Server/Chunk/Receive/Writes.antt =====
-- What the receiving loop writes.
use native.Mathlib.Nat.{mod-mod, mod-add-mod}
use esp32_music_server.Prelude.{
  ℕ, ◌+◌, ◌%◌, ◌≤◌, ◌≡◌, refl, sym, ap, ◌∙◌, Bool, true, false, List, [], ◌∷◌, ◌++◌, Bytes, length,
  length-append, arith,
}
use esp32_music_server.Run.{Ensures, returns, fails, Ensures-bind, Ensures-map_err, Ensures-weaken}
use esp32_music_server.Std.Usize.{add_usize}
use esp32_music_server.Sdmmc.{RawFile, VolumeManager}
use esp32_music_server.Sdmmc.Contents.{
  overwrite, FileAt, WriteLaws, overwrite-overwrite, overwrite-nil, length-overwrite,
}
use esp32_music_server.FileManager.{sd_err}
use esp32_music_server.Server.Chunk.Receive.{BodyRead, received, failed, receive_loop}

-- The text of the body: what was read before the first empty read.
unfoldable pub body_text : List BodyRead → Bytes
body_text [] = []
body_text (failed ∷ body) = []
body_text (received [] ∷ body) = []
body_text (received (b ∷ bs) ∷ body) = (b ∷ bs) ++ body_text body

-- Does a read fail before the body's end?
unfoldable pub breaks_off : List BodyRead → Bool
breaks_off [] = false
breaks_off (failed ∷ body) = true
breaks_off (received [] ∷ body) = false
breaks_off (received (b ∷ bs) ∷ body) = breaks_off body

add_zero : (n : ℕ) → n + 0 ≡ n
add_zero n = omega arith

counted_on : (n : ℕ) (xs ys : Bytes) → (n + length xs) + length ys ≡ n + length (xs ++ ys)
counted_on n xs ys = omega (arith, length-append xs ys)

-- The loop returns only if no read failed. Then it has counted the bytes of the body, modulo the
-- range of a `usize`, and has put them, in order, into the file from the cursor on; it neither
-- panics nor waits for ever. The cursor stands inside the file or at its end, and the count that the
-- loop starts with is a `usize`.
pub receive_loop-writes :
    {V : Type 0} {vm : VolumeManager V} (laws : WriteLaws vm) (modulus : ℕ) (f : RawFile)
    (body : List BodyRead) (read p : ℕ) (c : Bytes) (s : V)
    → read % modulus ≡ read
    → FileAt laws.contents s f c p
    → p ≤ length c
    → Ensures
        (λ n s'.
          (breaks_off body ≡ false)
          × (n ≡ (read + length (body_text body)) % modulus)
          × (laws.contents.content s' f ≡ overwrite p (body_text body) c))
        (λ _ _. Unit {0})
        (receive_loop vm modulus f body read s)
unfolding receive_loop body_text breaks_off
receive_loop-writes laws modulus f [] read p c s small h fits = returns (
  refl,
  sym (ap (λ x. x % modulus) (add_zero read) ∙ small),
  h.content_is ∙ sym (overwrite-nil p c fits),
)
receive_loop-writes laws modulus f (failed ∷ body) read p c s small h fits = fails tt
receive_loop-writes laws modulus f (received [] ∷ body) read p c s small h fits = returns (
  refl,
  sym (ap (λ x. x % modulus) (add_zero read) ∙ small),
  h.content_is ∙ sym (overwrite-nil p c fits),
)
receive_loop-writes laws modulus f (received (b ∷ bs) ∷ body) read p c s small h fits =
    let chunk : Bytes = b ∷ bs in
    Ensures-bind _ (Ensures-map_err sd_err (laws.write_writes f chunk s) (λ _ _ _. tt)) (λ _ s₁ g.
      Ensures-weaken
        (receive_loop-writes laws modulus f body (add_usize modulus read (length chunk))
          (p + length chunk) (overwrite p chunk c) s₁ (mod-mod (read + length chunk) modulus)
          (record {
            content_is =
                g.content_is
                ∙ ap (λ q. overwrite q chunk (laws.contents.content s f)) h.cursor_is
                ∙ ap (overwrite p chunk) h.content_is;
            cursor_is = g.cursor_is ∙ ap (λ q. q + length chunk) h.cursor_is;
          })
          (length-overwrite p chunk c fits))
        (λ n s₂ (whole, total, written). (
          whole,
          total
              ∙ mod-add-mod (read + length chunk) modulus (length (body_text body))
              ∙ ap (λ x. x % modulus) (counted_on read chunk (body_text body)),
          written ∙ overwrite-overwrite p (p + length chunk) chunk (body_text body) c fits refl,
        ))
        (λ _ _ _. tt))
