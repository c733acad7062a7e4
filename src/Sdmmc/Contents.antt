-- ===== src/Sdmmc/Contents.antt =====
-- What the code relies on of writing to a file: the bytes replace those at the cursor, and the file
-- grows where they reach past its end.
use esp32_music_server.Prelude.{
  ℕ, zero, suc, ◌+◌, ◌≤◌, ◌≡◌, refl, sym, ap, ◌∙◌, [], ◌∷◌, ◌++◌, append_assoc, append-nil, Bytes,
  length, drop, drop-drop, drop-nil, length-append, arith,
}
use esp32_music_server.Run.{Ensures}
use esp32_music_server.Sdmmc.{RawFile, VolumeManager}

unfoldable pub overwrite : ℕ → Bytes → Bytes → Bytes
overwrite zero bs c = bs ++ drop (length bs) c
overwrite (suc p) bs [] = bs
overwrite (suc p) bs (x ∷ c) = x ∷ overwrite p bs c

pub record Contents (V : Type 0) : Type 0 where
  pub content : V → RawFile → Bytes
  pub cursor : V → RawFile → ℕ

pub record FileAt {V : Type 0} (v : Contents V) (s : V) (f : RawFile) (c : Bytes) (p : ℕ)
    : Type 0 where
  pub content_is : v.content s f ≡ c
  pub cursor_is : v.cursor s f ≡ p

pub record WriteLaws {V : Type 0} (vm : VolumeManager V) : Type 0 where
  pub contents : Contents V
  pub write_writes :
      (f : RawFile) (bs : Bytes) (s : V)
      → Ensures
          (λ _ s'.
            FileAt contents s' f
              (overwrite (contents.cursor s f) bs (contents.content s f))
              (contents.cursor s f + length bs))
          (λ _ _. Unit {0})
          (vm.write f bs s)

overwrite_behind :
    (xs ys t : Bytes) → overwrite (length xs) ys (xs ++ t) ≡ xs ++ (ys ++ drop (length ys) t)
unfolding overwrite
overwrite_behind [] ys t = refl
overwrite_behind (x ∷ xs) ys t = ap (λ r. x ∷ r) (overwrite_behind xs ys t)

-- Two writes in a row are one write.
pub overwrite-overwrite :
    (p q : ℕ) (xs ys c : Bytes)
    → p ≤ length c
    → q ≡ p + length xs
    → overwrite q ys (overwrite p xs c) ≡ overwrite p (xs ++ ys) c
unfolding overwrite
overwrite-overwrite zero q xs ys c fits e =
    let here : q ≡ length xs = omega arith in
    ap (λ n. overwrite n ys (xs ++ drop (length xs) c)) here
    ∙ overwrite_behind xs ys (drop (length xs) c)
    ∙ ap (λ t. xs ++ (ys ++ t))
        (drop-drop (length xs) (length ys) (length (xs ++ ys)) c (length-append xs ys))
    ∙ sym (append_assoc xs ys _)
overwrite-overwrite (suc p) q xs ys [] fits e = absurd (omega arith)
overwrite-overwrite (suc p) zero xs ys (x ∷ c) fits e = absurd (omega arith)
overwrite-overwrite (suc p) (suc q) xs ys (x ∷ c) fits e =
    ap (λ r. x ∷ r) (overwrite-overwrite p q xs ys c (omega arith) (omega arith))

-- A write at the end appends.
pub overwrite_end : (p : ℕ) (bs c : Bytes) → p ≡ length c → overwrite p bs c ≡ c ++ bs
unfolding overwrite
overwrite_end zero bs [] e = ap (λ t. bs ++ t) (drop-nil (length bs)) ∙ append-nil bs
overwrite_end zero bs (x ∷ c) e = absurd (omega arith)
overwrite_end (suc p) bs [] e = absurd (omega arith)
overwrite_end (suc p) bs (x ∷ c) e = ap (λ r. x ∷ r) (overwrite_end p bs c (omega arith))

pub overwrite-nil : (p : ℕ) (c : Bytes) → p ≤ length c → overwrite p [] c ≡ c
unfolding overwrite
overwrite-nil zero c h = refl
overwrite-nil (suc p) [] h = absurd (omega arith)
overwrite-nil (suc p) (x ∷ c) h = ap (λ r. x ∷ r) (overwrite-nil p c (omega arith))

pub length-overwrite :
    (p : ℕ) (bs c : Bytes) → p ≤ length c → p + length bs ≤ length (overwrite p bs c)
unfolding overwrite
length-overwrite zero bs c h = omega (arith, length-append bs (drop (length bs) c))
length-overwrite (suc p) bs [] h = absurd (omega arith)
length-overwrite (suc p) bs (x ∷ c) h = omega (arith, length-overwrite p bs c (omega arith))
