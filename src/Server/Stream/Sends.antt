-- ===== src/Server/Stream/Sends.antt =====
-- The sending loop ends, and sends exactly its window of the file.
use esp32_music_server.Prelude.{
  ℕ, zero, suc, ◌+◌, ◌-◌, ◌≤◌, ◌<◌, min, ◌≡◌, refl, sym, ap, ◌∙◌, ◌++◌, [], append-nil,
  append_assoc, Bytes, length, take, drop, length-take, length-drop, length-append,
  take-append_left, take-append-take, drop-drop, codes, ltb, ltb→lt, Bool-cases, inl, inr, arith,
}
use esp32_music_server.Run.{
  Ensures-attempt, ignore, pure, Ensures, returns, Ensures-bind, Ensures-map_err, Ensures-weaken,
  and_then, out_map_err,
}
use esp32_music_server.Sdmmc.{RawFile, VolumeManager}
use esp32_music_server.FileManager.{sd_err, server_err}
use esp32_music_server.Server.Writer.{ChunkWriter}
use esp32_music_server.Server.Stream.{read_into, send_loop}
use esp32_music_server.Server.Stream.Laws.{Views, Seen, SentFront, StreamLaws}

module _ {S : Type 0} {v : Views S} where
  pub nothing_sent : (out window : Bytes) {s : S} → v.sent s ≡ out → SentFront v out window s
  nothing_sent out window e = record {
    front = [];
    rest = window;
    parts = refl;
    sent_is = e ∙ sym (append-nil out);
  }

  -- A front of the first part is a front of the whole.
  pub front_of_first :
      (out first second window : Bytes) {s : S}
      → first ++ second ≡ window
      → SentFront v out first s
      → SentFront v out window s
  front_of_first out first second window e h = record {
    front = h.front;
    rest = h.rest ++ second;
    parts = sym (append_assoc h.front h.rest second) ∙ ap (λ t. t ++ second) h.parts ∙ e;
    sent_is = h.sent_is;
  }

  -- A front of the second part, behind the first, is a front of the whole.
  pub front_of_second :
      (out first second window : Bytes) {s : S}
      → first ++ second ≡ window
      → SentFront v (out ++ first) second s
      → SentFront v out window s
  front_of_second out first second window e h = record {
    front = first ++ h.front;
    rest = h.rest;
    parts = append_assoc first h.front h.rest ∙ ap (λ t. first ++ t) h.parts ∙ e;
    sent_is = h.sent_is ∙ append_assoc out first h.front;
  }

module _ {I S : Type 0} {vm : VolumeManager S} {writer : ChunkWriter I S}
    (laws : StreamLaws vm writer) (f : RawFile) (c : Bytes) (limit : ℕ) where
  -- The rest of the window, from the cursor on.
  abbrev pub window : ℕ → ℕ → Bytes
  window p bytes_sent = take (limit - bytes_sent) (drop p c)

  abbrev pub SendsRest : ℕ → ℕ → ℕ → Bytes → Type 0
  SendsRest k bytes_sent p out =
      (buf : Bytes) (s : S)
      → Seen laws.views s f c p out
      → p + (limit - bytes_sent) ≤ length c
      → 0 < length buf
      → limit - bytes_sent < k
      → Ensures (λ _ s'. laws.views.sent s' ≡ out ++ window p bytes_sent)
          (λ _ s'. SentFront laws.views out (window p bytes_sent) s')
          (send_loop vm writer f limit k bytes_sent buf s)

  -- What a read, and a write, leave that start from known views.
  pub Seen-read :
      {s s' : S} {p : ℕ} {out : Bytes} (n m : ℕ)
      → Seen laws.views s f c p out
      → Seen laws.views s' f
          (laws.views.content s f)
          (laws.views.cursor s f + n)
          (laws.views.sent s)
      → n ≡ m
      → Seen laws.views s' f c (p + m) out
  Seen-read {p} n m h g e = record {
    content_is = g.content_is ∙ h.content_is;
    cursor_is = g.cursor_is ∙ ap (λ q. q + n) h.cursor_is ∙ ap (λ j. p + j) e;
    sent_is = g.sent_is ∙ h.sent_is;
  }

  pub Seen-write :
      {s s' : S} {p : ℕ} {out : Bytes} (chunk : Bytes)
      → Seen laws.views s f c p out
      → Seen laws.views s' f
          (laws.views.content s f)
          (laws.views.cursor s f)
          (laws.views.sent s ++ chunk)
      → Seen laws.views s' f c p (out ++ chunk)
  Seen-write chunk h g = record {
    content_is = g.content_is ∙ h.content_is;
    cursor_is = g.cursor_is ∙ h.cursor_is;
    sent_is = g.sent_is ∙ ap (λ t. t ++ chunk) h.sent_is;
  }

  room_in : (bs buf : Bytes) → 0 < length buf → 0 < length (read_into bs buf)
  room_in bs buf h =
      omega (arith, length-append bs (drop (length bs) buf), length-drop (length bs) buf)

  -- The chunk of one round, and the window behind it.
  chunk_length :
      (m p bytes_sent : ℕ)
      → p + (limit - bytes_sent) ≤ length c
      → m ≤ limit - bytes_sent
      → length (take m (drop p c)) ≡ m
  chunk_length m p bytes_sent fits small = omega (arith, length-take m (drop p c), length-drop p c)

  window_split :
      (m p bytes_sent : ℕ)
      → m ≤ limit - bytes_sent
      → take m (drop p c) ++ window (p + m) (bytes_sent + m) ≡ window p bytes_sent
  window_split m p bytes_sent small =
      ap (λ t. take m (drop p c) ++ take (limit - (bytes_sent + m)) t)
        (sym (drop-drop p m (p + m) c refl))
      ∙ take-append-take m (limit - (bytes_sent + m)) (limit - bytes_sent) (drop p c) (omega arith)

  -- The part of a round behind the read: the chunk is written, and the loop goes on.
  after_read :
      (k m bytes_sent p : ℕ) (out bs buf : Bytes) (s : S)
      → bs ≡ take m (drop p c)
      → length bs ≡ m
      → m ≤ limit - bytes_sent
      → Seen laws.views s f c (p + m) out
      → ((s' : S)
          → Seen laws.views s' f c (p + m) (out ++ bs)
          → Ensures
              (λ _ t. laws.views.sent t ≡ (out ++ bs) ++ window (p + m) (bytes_sent + m))
              (λ _ t. SentFront laws.views (out ++ bs) (window (p + m) (bytes_sent + m)) t)
              (send_loop vm writer f limit k (bytes_sent + m) (read_into bs buf) s'))
      → Ensures
          (λ _ t. laws.views.sent t ≡ out ++ window p bytes_sent)
          (λ _ t. SentFront laws.views out (window p bytes_sent) t)
          (and_then
            (out_map_err
              (λ _. server_err (codes "unable to write chunk"))
              (writer.write_chunk (take m (read_into bs buf)) s))
            (λ _. send_loop vm writer f limit k (bytes_sent + m) (read_into bs buf)))
  after_read k m bytes_sent p out bs buf s e len small h go =
      let split : bs ++ window (p + m) (bytes_sent + m) ≡ window p bytes_sent =
        ap (λ t. t ++ window (p + m) (bytes_sent + m)) e ∙ window_split m p bytes_sent small in
      rw (take-append_left m bs (drop (length bs) buf) len) (
        Ensures-bind _
          (Ensures-map_err _ (laws.write_sends bs f s)
            (λ _ s' g. front_of_first out bs _ (window p bytes_sent) split (rw h.sent_is at g)))
          (λ _ s' g.
            Ensures-weaken (go s' (Seen-write bs h g))
              (λ _ t d. d ∙ append_assoc out bs _ ∙ ap (λ w. out ++ w) split)
              (λ _ t d. front_of_second out bs _ (window p bytes_sent) split d)))

  pub send_loop-sends : (k bytes_sent p : ℕ) (out : Bytes) → SendsRest k bytes_sent p out
  unfolding send_loop
  send_loop-sends zero bytes_sent p out buf s h fits room fuel = elim fuel [ ]
  send_loop-sends (suc k) bytes_sent p out buf s h fits room fuel =
      elim (Bool-cases (ltb bytes_sent limit)) [
        | inr done ↦
            let none_left : limit - bytes_sent ≡ 0 = ground arith in
            rw done (
              returns (
                h.sent_is
                ∙ sym (append-nil out)
                ∙ ap (λ n. out ++ take n (drop p c)) (sym none_left)))
        | inl more ↦
            let m : ℕ = min (limit - bytes_sent) (length buf) in
            let left : bytes_sent < limit = ltb→lt _ _ more in
            let small : m ≤ limit - bytes_sent = omega arith in
            let positive : 0 < m = omega arith in
            rw more (
              Ensures-bind _
                (Ensures-map_err sd_err (laws.read_reads f m s)
                  (λ _ s' e. nothing_sent out (window p bytes_sent) (e ∙ h.sent_is)))
                (λ bs s₁ (e, g).
                  let e' : bs ≡ take m (drop p c) =
                    e
                    ∙ ap (λ q. take m (drop q (laws.views.content s f))) h.cursor_is
                    ∙ ap (λ t. take m (drop p t)) h.content_is in
                  let len : length bs ≡ m = ap length e' ∙ chunk_length m p bytes_sent fits small in
                  after_read k m bytes_sent p out bs buf s₁ e' len small
                    (Seen-read (length bs) m h g len)
                    (λ s₂ h₂.
                      send_loop-sends k (bytes_sent + m) (p + m) (out ++ bs) (read_into bs buf) s₂
                        h₂ (omega arith) (room_in bs buf room) (omega arith))))
      ]

  -- From the first byte, with fuel for every round.
  pub send_loop-whole :
      (p : ℕ) (out buf : Bytes) (s : S)
      → Seen laws.views s f c p out
      → p + limit ≤ length c
      → 0 < length buf
      → Ensures
          (λ _ s'. laws.views.sent s' ≡ out ++ take limit (drop p c))
          (λ _ s'. SentFront laws.views out (take limit (drop p c)) s')
          (send_loop vm writer f limit (suc limit) 0 buf s)
  send_loop-whole p out buf s h fits room =
      let all_left : limit - 0 ≡ limit = omega arith in
      Ensures-weaken (send_loop-sends (suc limit) 0 p out buf s h (omega arith) room (omega arith))
        (λ _ t g. g ∙ ap (λ n. out ++ take n (drop p c)) all_left) (λ _ t g. rw all_left at g)

module _ {I S : Type 0} {vm : VolumeManager S} {writer : ChunkWriter I S}
    (laws : StreamLaws vm writer) where
  -- A destructor that closes the file sends nothing.
  pub drop_file_sends :
      {E : Type 0} (f : RawFile) (s : S)
      → Ensures {E = E}
          (λ _ s'. laws.views.sent s' ≡ laws.views.sent s)
          (λ _ _. ⊥)
          (ignore (vm.close_file f) s)
  drop_file_sends f s =
      Ensures-attempt (λ _. pure tt) (laws.close_file_keeps f s) (λ _ _ g. returns g)
        (λ _ _ g. returns g)

  pub SentFront-keep :
      (out window : Bytes) {s s' : S}
      → SentFront laws.views out window s
      → laws.views.sent s' ≡ laws.views.sent s
      → SentFront laws.views out window s'
  SentFront-keep out window h e = record {
    front = h.front;
    rest = h.rest;
    parts = h.parts;
    sent_is = e ∙ h.sent_is;
  }
