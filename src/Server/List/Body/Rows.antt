-- ===== src/Server/List/Body/Rows.antt =====
-- The parts of the page of a table: a message, the rows, and the end behind them.
use esp32_music_server.Prelude.{
  ◌≡◌, refl, sym, ap, ◌∙◌, Option, none, some, List, [], ◌∷◌, ◌++◌, append-nil, append_assoc, Bytes,
  codes, arith,
}
use esp32_music_server.Run.{returns, ◌>>◌}
use esp32_music_server.Sdmmc.{VolumeManager}
use esp32_music_server.Database.{Row, DatabaseOps}
use esp32_music_server.Server.Writer.{ChunkWriter}
use esp32_music_server.Server.Page.{SentPart, SendsPage, SentPart-whole, page_part, page_end}
use esp32_music_server.Server.List.{ListTexts, row_item, send_rows}
use esp32_music_server.Server.List.Body.{join, items, ListLaws}

join-eq :
    (o p : Option Bytes) (text : Bytes)
    → join o p ≡ some text
    → (a : Bytes) × (b : Bytes) × (o ≡ some a) × (p ≡ some b) × (a ++ b ≡ text)
join-eq none p text h = absurd (ground (h, arith))
join-eq (some a) none text h = absurd (ground (h, arith))
join-eq (some a) (some b) text h = (a, b, refl, refl, ground (h, arith))

module _ {I S B : Type 0} {vm : VolumeManager S} {ops : DatabaseOps S B} {writer : ChunkWriter I S}
    (laws : ListLaws vm ops writer) (texts : ListTexts) where
  -- A message, and the end of the page.
  pub message-SendsPage :
      (text : Bytes) {s₀ s : S}
      → SentPart laws.view s₀ [] s
      → SendsPage laws.view s₀ text ((writer.write_chunk text >> writer.finalize) s)
  message-SendsPage text {s₀} {s} h =
      page_part s₀ text [] text [] _ h (laws.page.write_sends text s) (append-nil text)
        (λ _ s' g. page_end s₀ text text g (laws.page.finalize_sends s') refl)

  pub send_rows-SendsPage :
      (rows : List Row) (text done body : Bytes) (s₀ s : S)
      → SentPart laws.view s₀ done s
      → items rows ≡ some text
      → done ++ text ≡ body
      → SendsPage laws.view s₀ body (send_rows vm ops writer texts rows s)
  unfolding send_rows items
  send_rows-SendsPage [] text done body s₀ s h e whole =
      let none_left : [] ≡ text = ground (e, arith) in
      returns (SentPart-whole (sym (append-nil done) ∙ ap (λ t. done ++ t) none_left ∙ whole) h)
  send_rows-SendsPage (row ∷ rows) text done body s₀ s h e whole =
      let (a, b, item_is, rest_is, split) = join-eq (row_item row) (items rows) text e in
      rw item_is (
        page_part s₀ body done a b _ h (laws.page.fmt_sends a s) (ap (λ t. done ++ t) split ∙ whole)
          (λ _ s' g.
            send_rows-SendsPage rows b (done ++ a) body s₀ s' g rest_is
              (append_assoc done a b ∙ ap (λ t. done ++ t) split ∙ whole)))

  -- The end of the page, behind the rows.
  pub tail-SendsPage :
      (done body : Bytes) {s₀ s : S}
      → SentPart laws.view s₀ done s
      → done ++ (codes "</div>" ++ texts.list_page) ≡ body
      → SendsPage laws.view s₀ body (
          (writer.write_chunk (codes "</div>")
              >> (writer.write_chunk texts.list_page >> writer.finalize))
            s)
  tail-SendsPage done body {s₀} {s} h whole =
      page_part s₀ body done (codes "</div>") texts.list_page _ h (laws.page.write_sends _ s) whole
        (λ _ s' g.
          page_part s₀ body (done ++ codes "</div>") texts.list_page [] _ g
            (laws.page.write_sends _ s')
            (append_assoc done (codes "</div>") (texts.list_page ++ [])
              ∙ ap (λ t. done ++ (codes "</div>" ++ t)) (append-nil texts.list_page)
              ∙ whole)
            (λ _ s'' k.
              page_end s₀ body ((done ++ codes "</div>") ++ texts.list_page) k
                (laws.page.finalize_sends s'')
                (append_assoc done (codes "</div>") texts.list_page ∙ whole)))

-- The first rows of a table whose rows each have an item have items too.
pub items-front :
    (rows rest : List Row) (text : Bytes)
    → items (rows ++ rest) ≡ some text
    → (front : Bytes) × (items rows ≡ some front)
unfolding items
items-front [] rest text e = ([], refl)
items-front (row ∷ rows) rest text e =
    let (a, b, item_is, rest_is, _) = join-eq (row_item row) (items (rows ++ rest)) text e in
    let (front, front_is) = items-front rows rest b rest_is in
    (a ++ front, ap (λ o. join o (items rows)) item_is ∙ ap (join (some a)) front_is)
