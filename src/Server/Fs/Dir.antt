-- ===== src/Server/Fs/Dir.antt =====
-- What the page of a directory sends.
use esp32_music_server.Prelude.{
  ◌≡◌, refl, sym, ap, ◌∙◌, List, [], ◌∷◌, ◌++◌, append-nil, append_assoc, Bytes, codes,
  if◌then◌else◌, Bool-cases, inl, inr,
}
use esp32_music_server.Run.{err, Ensures, returns, Ensures-known}
use esp32_music_server.Run.Settles.{Settles, Settles-Ensures, Settles-unwrap, Settles-bind}
use esp32_music_server.Sdmmc.{SdError, DirEntry, RawDirectory, VolumeManager}
use esp32_music_server.Server.Writer.{ChunkWriter}
use esp32_music_server.Server.Page.{
  PageView, SentPart, SentSome, SendsPage, PageLaws, SentPart-refl, SentPart-whole, page_part,
  page_last,
}
use esp32_music_server.Server.Fs.{Texts, entry_text, entry_texts, send_entries, send_dir}

-- The lines of the entries that are shown: all but the volume's own.
unfoldable pub lines : List DirEntry → Bytes
lines [] = []
lines (entry ∷ entries) =
    let rest = lines entries in
    if entry.is_volume then rest else entry_text entry ++ (codes "<br>" ++ rest)

-- What the code relies on: where going through a directory succeeds, it gives the directory's
-- entries, and nothing is sent meanwhile.
pub record DirLaws {I S : Type 0} (vm : VolumeManager S) (writer : ChunkWriter I S) : Type 0 where
  pub view : PageView S (RawDirectory → List DirEntry)
  pub page : PageLaws writer view
  pub iterate_gives :
      (d : RawDirectory) (s : S)
      → Ensures
          (λ entries s'. (entries ≡ view.kept s d) × SentPart view s [] s')
          (λ _ s'. SentPart view s [] s')
          (vm.iterate_dir d s)

-- The texts of the entries, each with a line break.
abbrev broken : List Bytes → Bytes
broken [] = []
broken (f ∷ files) = f ++ (codes "<br>" ++ broken files)

broken-lines : (entries : List DirEntry) → broken (entry_texts entries) ≡ lines entries
unfolding lines
broken-lines [] = refl
broken-lines (entry ∷ entries) = elim (Bool-cases entry.is_volume) [
  | inl hidden ↦ rw hidden (broken-lines entries)
  | inr shown ↦ rw shown (ap (λ t. entry_text entry ++ (codes "<br>" ++ t)) (broken-lines entries))
]

module _ {I S : Type 0} {vm : VolumeManager S} {writer : ChunkWriter I S} (laws : DirLaws vm writer)
    (texts : Texts) where
  send_entries-SendsPage :
      (files : List Bytes) (done body : Bytes) (s₀ s : S)
      → SentPart laws.view s₀ done s
      → done ++ broken files ≡ body
      → SendsPage laws.view s₀ body (send_entries vm writer texts files s)
  unfolding send_entries
  send_entries-SendsPage [] done body s₀ s h e =
      returns (SentPart-whole (sym (append-nil done) ∙ e) h)
  send_entries-SendsPage (f ∷ files) done body s₀ s h e =
      page_part s₀ body done f (codes "<br>" ++ broken files) _ h (laws.page.write_sends f s) e
        (λ _ s₁ h₁.
          page_part s₀ body (done ++ f) (codes "<br>") (broken files) _ h₁
            (laws.page.write_sends (codes "<br>") s₁) (append_assoc done f _ ∙ e)
            (λ _ s₂ h₂.
              send_entries-SendsPage files ((done ++ f) ++ codes "<br>") body s₀ s₂ h₂
                (append_assoc (done ++ f) (codes "<br>") _ ∙ append_assoc done f _ ∙ e)))

  -- The page of a directory is the lines of all its entries but the volume's own, in their order, and
  -- the page's end. It is sent whole, or a front of it before a write that fails. The page does not
  -- wait for ever, and panics only where the directory cannot be gone through, before it has sent
  -- anything.
  pub send_dir-Sent :
      (d : RawDirectory) (s₀ : S)
      → Settles
          (λ _. SentPart laws.view s₀ (lines (laws.view.kept s₀ d) ++ texts.dir_page))
          (λ _. SentSome laws.view s₀ (lines (laws.view.kept s₀ d) ++ texts.dir_page))
          (λ s'. (e : SdError) × (vm.iterate_dir d s₀ ≡ err e s') × SentPart laws.view s₀ [] s')
          (send_dir vm writer texts d s₀)
  unfolding send_dir
  send_dir-Sent d s₀ =
      Settles-bind _
        (Settles-unwrap (Ensures-known (laws.iterate_gives d s₀))
          (λ e s' (quiet, refused). (e, refused, quiet)))
        (λ entries s₁ ((entries_are, h₁), _). rw entries_are (
          Settles-Ensures (
            page_part s₀ _ [] (lines (laws.view.kept s₀ d)) texts.dir_page _ h₁
              (send_entries-SendsPage (entry_texts (laws.view.kept s₀ d)) [] _ s₁ s₁
                (SentPart-refl s₁) (broken-lines (laws.view.kept s₀ d)))
              refl
              (λ _ s₂ h₂.
                page_last s₀ _ (lines (laws.view.kept s₀ d)) texts.dir_page h₂
                  (laws.page.write_sends texts.dir_page s₂) refl))))
