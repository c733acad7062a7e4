-- ===== src/Server/Fs/Whole.antt =====
-- The whole page of a file: `view_file` of server/src/fs.rs.
use esp32_music_server.Prelude.{
  ℕ, ◌<◌, ◌≡◌, refl, sym, ap, ◌∙◌, false, [], ◌++◌, append_assoc, append-nil, Bytes, codes, same,
  same_sound, length, if◌then◌else◌, Bool-cases, inl, inr, arith,
}
use esp32_music_server.Run.{Out, Act, Ensures, returns, Ensures-bind, Ensures-weaken, and_then}
use esp32_music_server.Sdmmc.{DirEntry, RawFile, VolumeManager}
use esp32_music_server.Server.Writer.{ChunkWriter}
use esp32_music_server.Server.Stream.Laws.{Seen, SentFront, StreamLaws}
use esp32_music_server.Server.Stream.Sends.{front_of_first, front_of_second}
use esp32_music_server.Server.Fs.{Texts, view_loop, view_file}
use esp32_music_server.Server.Fs.View.{EofLaws, view_loop-Shows}

abbrev pub not_shown : Bytes
not_shown = codes "only files with TXT or HTM extension is supported to view."

-- The page: a text between tags and before the page of a file, a page as it is, and a message for any
-- other extension.
abbrev pub page_of : Bytes → Bytes → Bytes → Bytes
page_of extension c file_page =
    if same extension (codes "TXT")
    then codes "<pre>" ++ (c ++ (codes "</pre>" ++ file_page))
    else if same extension (codes "HTM")
    then c
    else not_shown ++ file_page

module _ {I S : Type 0} {vm : VolumeManager S} {writer : ChunkWriter I S}
    (laws : StreamLaws vm writer) where
  -- The run sends the whole text, or fails after a front of it.
  abbrev pub SendsText : Bytes → Bytes → Out I S (Unit {0}) → Type 0
  SendsText out text r =
      Ensures (λ _ s. laws.views.sent s ≡ out ++ text) (λ _. SentFront laws.views out text) r

  -- A text in two parts.
  then-SendsText :
      (out a b body : Bytes) {r : Out I S (Unit {0})} (g : Unit {0} → Act I S (Unit {0}))
      → a ++ b ≡ body
      → SendsText out a r
      → ((s : S) → laws.views.sent s ≡ out ++ a → SendsText (out ++ a) b (g tt s))
      → SendsText out body (and_then r g)
  then-SendsText out a b body g e h k =
      Ensures-bind g (Ensures-weaken h (λ _ _ x. x) (λ _ _ x. front_of_first out a b body e x))
        (λ _ s sent.
          Ensures-weaken (k s sent) (λ _ _ x. x ∙ append_assoc out a b ∙ ap (λ t. out ++ t) e)
            (λ _ _ x. front_of_second out a b body e x))

  -- One chunk; a file that is open keeps its text and its cursor.
  write_keeps :
      (f : RawFile) (c out text : Bytes) (p : ℕ) (s : S)
      → Seen laws.views s f c p out
      → Ensures
          (λ _ s'. Seen laws.views s' f c p (out ++ text))
          (λ _. SentFront laws.views out text)
          (writer.write_chunk text s)
  write_keeps f c out text p s h =
      Ensures-weaken (laws.write_sends text f s)
        (λ _ _ g. record {
          content_is = g.content_is ∙ h.content_is;
          cursor_is = g.cursor_is ∙ h.cursor_is;
          sent_is = g.sent_is ∙ ap (λ t. t ++ text) h.sent_is;
        })
        (λ _ _ g. record {
          front = g.front;
          rest = g.rest;
          parts = g.parts;
          sent_is = g.sent_is ∙ ap (λ t. t ++ g.front) h.sent_is;
        })

  write-SendsText :
      (out text : Bytes) (s : S)
      → laws.views.sent s ≡ out
      → SendsText out text (writer.write_chunk text s)
  write-SendsText out text s sent =
      Ensures-weaken
        (write_keeps 0 (laws.views.content s 0) out text (laws.views.cursor s 0) s
          (record { content_is = refl; cursor_is = refl; sent_is = sent }))
        (λ _ _ g. g.sent_is) (λ _ _ g. g)

  module _ (eof : EofLaws laws) (texts : Texts) (n : ℕ) (f : RawFile) (c : Bytes)
      (reads : (t : S) → Ensures (λ _ _. Unit {0}) (λ _ _. ⊥) (vm.read f n t))
      (tells : (t : S) → Ensures (λ _ _. Unit {0}) (λ _ _. ⊥) (vm.file_eof f t)) (room : 0 < n)
      (fuel : ℕ) (enough : length c < fuel) where
    loop-SendsText :
        (out : Bytes) (s : S)
        → Seen laws.views s f c 0 out
        → SendsText out c (view_loop vm writer texts n fuel f s)
    loop-SendsText out s h =
        view_loop-Shows laws eof texts n f c fuel 0 out s reads tells h (omega arith)
          (omega (arith, enough)) room

    -- The text between its tags.
    tagged-SendsText :
        (out : Bytes) (s : S)
        → Seen laws.views s f c 0 out
        → SendsText out (codes "<pre>" ++ (c ++ codes "</pre>")) (
            and_then (writer.write_chunk (codes "<pre>") s) (λ _ t.
              and_then
                (view_loop vm writer texts n fuel f t)
                (λ _. writer.write_chunk (codes "</pre>"))))
    tagged-SendsText out s h =
        Ensures-bind _
          (Ensures-weaken (write_keeps f c out (codes "<pre>") 0 s h) (λ _ _ g. g)
            (λ _ _ g. front_of_first out (codes "<pre>") (c ++ codes "</pre>") _ refl g))
          (λ _ t g.
            Ensures-weaken
              (then-SendsText (out ++ codes "<pre>") c (codes "</pre>") _ _ refl
                (loop-SendsText (out ++ codes "<pre>") t g)
                (λ u sent. write-SendsText _ (codes "</pre>") u sent))
              (λ _ _ x. x ∙ append_assoc out (codes "<pre>") (c ++ codes "</pre>"))
              (λ _ _ x. front_of_second out (codes "<pre>") (c ++ codes "</pre>") _ refl x))

    -- The page of an open file is its text between tags and before the page of a file where it has the
    -- extension TXT, its text alone where it has HTM, and a message before that page for any other. It
    -- is sent whole unless the connection fails, before which a front of it is sent; the view ends.
    -- The cursor stands at the file's start, the fuel is more than its length, the buffer is not
    -- empty, and reading the file and asking for its end do not fail.
    pub view_file-SendsText :
        (entry : DirEntry) (out : Bytes) (s : S)
        → Seen laws.views s f c 0 out
        → SendsText out
            (page_of entry.extension c texts.file_page)
            (view_file vm writer texts n fuel entry f s)
    unfolding view_file
    view_file-SendsText entry out s h = elim (Bool-cases (same entry.extension (codes "TXT"))) [
      | inl txt ↦
          let ext : entry.extension ≡ codes "TXT" = same_sound entry.extension (codes "TXT") txt in
          let no_htm : same entry.extension (codes "HTM") ≡ false =
            ap (λ x. same x (codes "HTM")) ext in
          rw txt (
            rw no_htm (
              then-SendsText out (codes "<pre>" ++ (c ++ codes "</pre>")) texts.file_page _ _
                (ap (λ t. codes "<pre>" ++ t) (append_assoc c (codes "</pre>") texts.file_page))
                (tagged-SendsText out s h) (λ t sent. write-SendsText _ texts.file_page t sent)))
      | inr other ↦ elim (Bool-cases (same entry.extension (codes "HTM"))) [
        | inl htm ↦ rw other (
            rw htm (
              then-SendsText out c [] c _ (append-nil c)
                (then-SendsText out c [] c _ (append-nil c) (loop-SendsText out s h)
                  (λ t sent. returns (sent ∙ sym (append-nil _))))
                (λ t sent. returns (sent ∙ sym (append-nil _)))))
        | inr neither ↦ rw other (
            rw neither (
              then-SendsText out not_shown texts.file_page _ _ refl
                (write-SendsText out not_shown s h.sent_is)
                (λ t sent. write-SendsText _ texts.file_page t sent)))
      ]
    ]
