-- ===== src/Server/Upload/Tables.antt =====
-- The tables of the database, as the creation of a file sees them.
use esp32_music_server.Prelude.{
  ◌⊎◌, inl, inr, ℕ, ◌+◌, ◌≡◌, ◌∙◌, ◌&&◌, none, some, ◌++◌, Bytes, codes, ◌==◌, same, if◌then◌else◌,
}
use esp32_music_server.Database.{TableId}
use esp32_music_server.Server.Upload.{NewQuery, actual_name, file_row, counter_row}
use esp32_music_server.Database.Tables.{Lookup, Same, Put}

module _ {V : Type 0} (look : Lookup V) (t m : TableId) (dir_name : Bytes) (query : NewQuery)
    (id : ℕ) (s : V) where
  -- The file was new, and its row and the counter's were put.
  abbrev pub Registered : V → Type 0
  Registered s' =
      (look s m (actual_name id query.ext) ≡ none)
      × ((t' : TableId) (k : Bytes)
          → look s' t' k ≡ (
              if (t == t') && same dir_name k
              then some (counter_row dir_name (id + 1))
              else if (m == t') && same (actual_name id query.ext) k
              then some (file_row id query)
              else look s t' k))

  -- No row changed, or the new file's row was put, where there was none.
  abbrev pub AtMostFile : V → Type 0
  AtMostFile s' =
      Same look s s'
      ⊎ ((look s m (actual_name id query.ext) ≡ none)
          × Put look m (actual_name id query.ext) (file_row id query) s s')

  abbrev pub Reply : Bytes → V → Type 0
  Reply reply s' = (reply ≡ codes "success: " ++ actual_name id query.ext) × Registered s'

  pub Reply-keep : (reply : Bytes) {s₁ s₂ : V} → Reply reply s₁ → Same look s₁ s₂ → Reply reply s₂
  Reply-keep reply (r, (absent, put)) g = (r, (absent, λ t' k. g t' k ∙ put t' k))

  pub AtMostFile-keep : {s₁ s₂ : V} → AtMostFile s₁ → Same look s₁ s₂ → AtMostFile s₂
  AtMostFile-keep (inl h) g = inl (λ t' k. g t' k ∙ h t' k)
  AtMostFile-keep (inr (absent, put)) g = inr (absent, λ t' k. g t' k ∙ put t' k)
