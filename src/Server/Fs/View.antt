-- ===== src/Server/Fs/View.antt =====
-- What the view of a file sends.
use esp32_music_server.Prelude.{
  ℕ, zero, suc, ◌+◌, ◌-◌, ◌<◌, ◌≤◌, ◌≡◌, refl, sym, ap, ◌∙◌, Bool, true, false, [], ◌∷◌, ◌++◌,
  append_assoc, append-nil, Bytes, length, take, drop, leb, length-drop, length-take, drop_all,
  drop-drop, arith,
}
use esp32_music_server.Run.{
  Out, Act, good, Ensures, returns, fails, Ensures-bind, Ensures-attempt, Ensures-weaken,
}
use esp32_music_server.Sdmmc.{RawFile, VolumeManager}
use esp32_music_server.Server.Writer.{ChunkWriter}
use esp32_music_server.Server.Stream.Laws.{Seen, SentFront, StreamLaws}
use esp32_music_server.Server.Stream.Sends.{front_of_first, front_of_second, Seen-read, Seen-write}
use esp32_music_server.Server.Fs.{Texts, view_loop, after_eof}

-- `file_eof` tells whether the cursor is behind the last byte.
pub record EofLaws {I S : Type 0} {vm : VolumeManager S} {writer : ChunkWriter I S}
    (laws : StreamLaws vm writer) : Type 0 where
  pub eof_is :
      (f : RawFile) (s : S)
      → Ensures
          (λ b s'.
            (b ≡ leb (length (laws.views.content s f)) (laws.views.cursor s f))
            × Seen laws.views s' f
                (laws.views.content s f)
                (laws.views.cursor s f)
                (laws.views.sent s))
          (λ _ s'. laws.views.sent s' ≡ laws.views.sent s)
          (vm.file_eof f s)

leb→le : (a b : ℕ) → leb a b ≡ true → a ≤ b
leb→le a b h = ground arith

-- A call that never fails.
Ensures-sure :
    {E S A : Type 0} {P : A → S → Type 0} {Q : E → S → Type 0} {r : Out E S A}
    → Ensures P Q r
    → Ensures (λ _ _. Unit {0}) (λ _ _. ⊥) r
    → Ensures P (λ _ _. ⊥) r
Ensures-sure (returns h) k = returns h
Ensures-sure (fails h) (fails k) = absurd k

-- One read, and what is behind it.
take_rest : (n : ℕ) (xs : Bytes) → take n xs ++ drop (length (take n xs)) xs ≡ xs
take_rest zero xs = refl
take_rest (suc n) [] = refl
take_rest (suc n) (x ∷ xs) = ap (λ l. x ∷ l) (take_rest n xs)

one_read :
    (n p : ℕ) (c : Bytes) → take n (drop p c) ++ drop (p + length (take n (drop p c))) c ≡ drop p c
one_read n p c =
    ap (λ t. take n (drop p c) ++ t) (sym (drop-drop p (length (take n (drop p c))) _ c refl))
    ∙ take_rest n (drop p c)

-- A read that stops before the end has filled the buffer.
full_read :
    (n p : ℕ) (c : Bytes)
    → p ≤ length c
    → leb (length c) (p + length (take n (drop p c))) ≡ false
    → (length (take n (drop p c)) ≡ n) × (p + n < length c)
full_read n p c fits h =
    let before : p + length (take n (drop p c)) < length c = ground arith in
    (
      omega (arith, length-take n (drop p c), length-drop p c),
      omega (arith, length-take n (drop p c), length-drop p c),
    )

module _ {I S : Type 0} {vm : VolumeManager S} {writer : ChunkWriter I S}
    (laws : StreamLaws vm writer) (eof : EofLaws laws) (texts : Texts) (n : ℕ) (f : RawFile)
    (c : Bytes) where
  -- The run sends the whole text, or fails after a front of it.
  abbrev Shows : Bytes → Bytes → Out I S (Unit {0}) → Type 0
  Shows out text r =
      Ensures (λ _ s'. laws.views.sent s' ≡ out ++ text) (λ _. SentFront laws.views out text) r

  Shows-behind :
      (out first second text : Bytes) {r : Out I S (Unit {0})}
      → first ++ second ≡ text
      → Shows (out ++ first) second r
      → Shows out text r
  Shows-behind out first second text e h =
      Ensures-weaken h (λ _ _ g. g ∙ append_assoc out first second ∙ ap (λ t. out ++ t) e)
        (λ _ _ g. front_of_second out first second text e g)

  after_eof-Shows :
      (b : Bool) (again : Act I S (Unit {0})) (p : ℕ) (out : Bytes) (s : S)
      → laws.views.sent s ≡ out
      → (b ≡ true → drop p c ≡ [])
      → (b ≡ false → Shows out (drop p c) (again s))
      → Shows out (drop p c) (after_eof vm writer texts again (good b) s)
  after_eof-Shows true again p out s h at_end k =
      returns (h ∙ sym (append-nil out) ∙ ap (λ t. out ++ t) (sym (at_end refl)))
  after_eof-Shows false again p out s h at_end k = k refl

  -- The loop ends, and sends the rest of the file from the cursor on, whole unless the connection
  -- fails, before which a front of it is sent. The fuel is more than the bytes that are left, the
  -- buffer is not empty, and reading the file and asking for its end do not fail.
  pub view_loop-Shows :
      (fuel p : ℕ) (out : Bytes) (s : S)
      → ((t : S) → Ensures (λ _ _. Unit {0}) (λ _ _. ⊥) (vm.read f n t))
      → ((t : S) → Ensures (λ _ _. Unit {0}) (λ _ _. ⊥) (vm.file_eof f t))
      → Seen laws.views s f c p out
      → p ≤ length c
      → length c - p < fuel
      → 0 < n
      → Shows out (drop p c) (view_loop vm writer texts n fuel f s)
  unfolding view_loop
  view_loop-Shows zero p out s reads tells h fits enough room = absurd (omega arith)
  view_loop-Shows (suc fuel) p out s reads tells h fits enough room =
      let chunk : Bytes = take n (drop p c) in
      Ensures-attempt _ (Ensures-sure (laws.read_reads f n s) (reads s))
        (λ bs s₁ (bs_is, g₁).
          let same_chunk : bs ≡ chunk =
            bs_is
            ∙ ap (λ q. take n (drop q (laws.views.content s f))) h.cursor_is
            ∙ ap (λ t. take n (drop p t)) h.content_is in
          let h₁ = Seen-read laws f c 0 (length bs) (length chunk) h g₁ (ap length same_chunk) in
          rw same_chunk (
            Ensures-bind _
              (Ensures-weaken (laws.write_sends chunk f s₁)
                (λ _ _ g. Seen-write laws f c 0 chunk h₁ g)
                (λ _ _ g.
                  front_of_first out chunk (drop (p + length chunk) c) (drop p c) (one_read n p c)
                    (record {
                      front = g.front;
                      rest = g.rest;
                      parts = g.parts;
                      sent_is = g.sent_is ∙ ap (λ t. t ++ g.front) h₁.sent_is;
                    })))
              (λ _ s₂ h₂.
                Ensures-attempt _ (Ensures-sure (eof.eof_is f s₂) (tells s₂))
                  (λ b s₃ (b_is, g₃).
                    let h₃ : Seen laws.views s₃ f c (p + length chunk) (out ++ chunk) = record {
                      content_is = g₃.content_is ∙ h₂.content_is;
                      cursor_is = g₃.cursor_is ∙ h₂.cursor_is;
                      sent_is = g₃.sent_is ∙ h₂.sent_is;
                    } in
                    let told : b ≡ leb (length c) (p + length chunk) =
                      b_is
                      ∙ ap (λ t. leb (length t) (laws.views.cursor s₂ f)) h₂.content_is
                      ∙ ap (leb (length c)) h₂.cursor_is in
                    Shows-behind out chunk (drop (p + length chunk) c) (drop p c) (one_read n p c) (
                      after_eof-Shows b _ (p + length chunk) (out ++ chunk) s₃ h₃.sent_is
                        (λ e. drop_all _ c (leb→le _ _ (sym told ∙ e)))
                        (λ e.
                          let (len, short) = full_read n p c fits (sym told ∙ e) in
                          view_loop-Shows fuel (p + length chunk) (out ++ chunk) s₃ reads tells h₃
                            (omega (arith, len, short)) (omega (arith, len, short)) room)))
                  (λ e s₃ bad. absurd bad))))
        (λ e s₁ bad. absurd bad)
