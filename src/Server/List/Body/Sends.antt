-- ===== src/Server/List/Body/Sends.antt =====
-- The page of a table sends one of its bodies.
use esp32_music_server.Prelude.{
  ◌≡◌, refl, ap, ◌∙◌, some, List, [], ◌++◌, append-nil, append_assoc, Bytes, codes,
}
use esp32_music_server.Run.{
  ok, Out, Act, Ensures, Ensures-known, returns, Ensures-attempt, Ensures-weaken, Ensures-then_drop,
  Ensures-bind, out_then_drop, good, bad, ◌>>◌,
}
use esp32_music_server.Sdmmc.{RawDirectory, VolumeManager}
use esp32_music_server.FileManager.{DbError, db_dir}
use esp32_music_server.Database.{Row, TableId, DatabaseOps}
use esp32_music_server.Server.Writer.{ChunkWriter}
use esp32_music_server.Server.Page.{
  SentPart, SentSome, SendsPage, SentPart-refl, SentPart-quiet, SentPart-trans, SentSome-middle,
  SentSome-quiet, page_part,
}
use esp32_music_server.Server.List.{ListTexts, send_query, send_table, send_database, send_list}
use esp32_music_server.Server.List.Body.{
  items, ListBody, DatabaseOpened, TableFound, listed, no_rows, cut_off, no_table, no_database,
  no_directory, ListLaws,
}
use esp32_music_server.Server.List.Body.Rows.{
  message-SendsPage, send_rows-SendsPage, tail-SendsPage, items-front,
}

module _ {I S B : Type 0} {vm : VolumeManager S} {ops : DatabaseOps S B} {writer : ChunkWriter I S}
    (laws : ListLaws vm ops writer) (texts : ListTexts) (dir_name : Bytes) (root : RawDirectory)
    (s₀ : S) where
  -- A run that sends one of the bodies, whole, or a front of one before a write that fails.
  abbrev pub Lists : Out I S (Unit {0}) → Type 0
  Lists r =
      Ensures
        (λ _ s'.
          (body : Bytes) × ListBody laws texts dir_name root s₀ body
          × SentPart laws.view s₀ body s')
        (λ _ s'.
          (body : Bytes) × ListBody laws texts dir_name root s₀ body
          × SentSome laws.view s₀ body s')
        r

  lists :
      {body : Bytes} {r : Out I S (Unit {0})}
      → ListBody laws texts dir_name root s₀ body
      → SendsPage laws.view s₀ body r
      → Lists r
  lists {body} b h = Ensures-weaken h (λ _ _ g. (body, b, g)) (λ _ _ g. (body, b, g))

  after_drop :
      (close : Act I S (Unit {0})) {r : Out I S (Unit {0})}
      → ((s : S) → Ensures (λ _. SentPart laws.view s []) (λ _ _. ⊥) (close s))
      → Lists r
      → Lists (out_then_drop r close)
  after_drop close quiet h =
      Ensures-then_drop close h
        (λ _ s (body, b, g).
          Ensures-weaken (quiet s) (λ _ _ k. (body, b, SentPart-quiet body g k)) (λ _ _ k. k))
        (λ _ s (body, b, g).
          Ensures-weaken (quiet s) (λ _ _ k. (body, b, SentSome-quiet body g k)) (λ _ _ k. k))

  -- What is sent behind the rows.
  abbrev behind_rows : Act I S (Unit {0})
  behind_rows =
      writer.write_chunk (codes "</div>") >> (writer.write_chunk texts.list_page >> writer.finalize)

  rows-SendsPage :
      (found : List Row) (text : Bytes) (s : S)
      → items found ≡ some text
      → SentPart laws.view s₀ (codes "<div id=\"list\">") s
      → SendsPage laws.view s₀
          (codes "<div id=\"list\">" ++ (text ++ (codes "</div>" ++ texts.list_page)))
          ((send_query vm ops writer texts (good found) >> behind_rows) s)
  rows-SendsPage found text s parsed h =
      page_part s₀ _ (codes "<div id=\"list\">") text (codes "</div>" ++ texts.list_page) _ h
        (send_rows-SendsPage laws texts found text [] text s s (SentPart-refl s) parsed refl) refl
        (λ _ s' g.
          tail-SendsPage laws texts (codes "<div id=\"list\">" ++ text) _ g
            (append_assoc (codes "<div id=\"list\">") text _))

  empty-SendsPage :
      (e : DbError) (s : S)
      → SentPart laws.view s₀ (codes "<div id=\"list\">") s
      → SendsPage laws.view s₀
          (codes "<div id=\"list\">"
            ++ (codes "<i>table empty</i><br>" ++ (codes "</div>" ++ texts.list_page)))
          ((send_query vm ops writer texts (bad e) >> behind_rows) s)
  empty-SendsPage e s h =
      page_part s₀ _ (codes "<div id=\"list\">") (codes "<i>table empty</i><br>")
        (codes "</div>" ++ texts.list_page) _ h (laws.page.write_sends _ s) refl
        (λ _ s' g.
          tail-SendsPage laws texts (codes "<div id=\"list\">" ++ codes "<i>table empty</i><br>") _
            g (append_assoc (codes "<div id=\"list\">") (codes "<i>table empty</i><br>") _))

  module _ (text : Bytes)
      (parsed : items (laws.view.kept s₀ (laws.id_of dir_name)) ≡ some text) where
    send_table-Lists :
        (db : B) (t : TableId) (s : S)
        → TableFound laws texts dir_name root s₀ db t s
        → t ≡ laws.id_of dir_name
        → SentPart laws.view s₀ [] s
        → Lists (send_table vm ops writer texts db t s)
    unfolding send_table
    send_table-Lists db t s there t_is h =
        Ensures-bind
          {P = λ _ s₁.
            SentPart laws.view s₀ (codes "<div id=\"list\">") s₁
            × (writer.write_chunk (codes "<div id=\"list\">") s ≡ ok tt s₁)}
          _
          (Ensures-weaken (Ensures-known (laws.page.write_sends (codes "<div id=\"list\">") s))
            (λ _ _ (g, begun). (SentPart-trans [] _ h g, begun))
            (λ i s₁ (g, broken). (
              codes "<div id=\"list\">",
              cut_off db t s s₁ i there broken refl,
              SentSome-middle [] (codes "<div id=\"list\">") [] _ (append-nil _) h g,
            )))
          (λ _ s₁ (g, begun).
            Ensures-attempt _ (Ensures-known (laws.scan_finds db t s₁))
              (λ rows s₂ (((rest, split), k), given).
                let whole : rows ++ rest ≡ laws.view.kept s₀ (laws.id_of dir_name) =
                  split ∙ ap (λ k. k t) g.kept_is ∙ ap (laws.view.kept s₀) t_is in
                let (front, front_is) = items-front rows rest text (ap items whole ∙ parsed) in
                lists (listed db t s s₁ s₂ rows front there begun given (rest, whole) front_is refl)
                  (rows-SendsPage rows front s₂ front_is (SentPart-quiet _ g k)))
              (λ e s₂ (k, refused).
                lists (no_rows db t s s₁ s₂ e there begun refused refl)
                  (empty-SendsPage e s₂ (SentPart-quiet _ g k))))

    message-Lists :
        (body : Bytes) (s : S)
        → ListBody laws texts dir_name root s₀ body
        → SentPart laws.view s₀ [] s
        → Lists ((writer.write_chunk body >> writer.finalize) s)
    message-Lists body s b h = lists b (message-SendsPage laws texts body h)

    send_found-Lists :
        (db : B) (s : S)
        → DatabaseOpened laws texts dir_name root s₀ db s
        → SentPart laws.view s₀ [] s
        → Lists (send_database vm ops writer texts dir_name (good db) s)
    send_found-Lists db s there h =
        after_drop _ (λ t. returns (laws.drop_quiet db t))
          (Ensures-attempt _ (Ensures-known (laws.get_table_finds db dir_name s))
            (λ t s₁ ((t_is, g), found).
              send_table-Lists db t s₁
                (record { at_database = s; opened = there; table_found = found }) t_is
                (SentPart-quiet [] h g))
            (λ e s₁ (g, refused).
              message-Lists _ s₁ (no_table db s s₁ e there refused refl) (SentPart-quiet [] h g)))

    -- The list of a table whose rows each have a path, a name and a size neither panics nor waits for
    -- ever. It sends one body, whole, or a front of one before a write that fails. If the directory of
    -- the database, the database and the table are found and the query begins, the body is the items
    -- of the rows that the query gives, the first ones of the table, in their order, between the page's
    -- two ends; if one of these calls fails, it is the message for that call.
    pub send_list-Lists : Lists (send_list vm ops writer texts dir_name root s₀)
    unfolding send_list
    send_list-Lists =
        after_drop _
          (λ s.
            Ensures-attempt _ (laws.close_dir_quiet root s) (λ _ _ g. returns g)
              (λ _ _ g. returns g))
          (Ensures-attempt _ (Ensures-known (laws.open_dir_quiet root db_dir s₀))
            (λ d s (g, opened).
              Ensures-attempt _ (Ensures-known (laws.init_quiet d s))
                (λ db s₁ (k, begun).
                  send_found-Lists db s₁
                    (record { dir = d; at_dir = s; dir_opened = opened; database_opened = begun })
                    (SentPart-quiet [] g k))
                (λ e s₁ (k, refused).
                  message-Lists _ s₁ (no_database d s s₁ e opened refused refl)
                    (SentPart-quiet [] g k)))
            (λ e s (g, refused). message-Lists _ s (no_directory s e refused refl) g))
