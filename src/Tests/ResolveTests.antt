-- ===== src/Tests/ResolveTests.antt =====
-- A path of a file on a card, of `resolve_path_iter`.
use esp32_music_server.Prelude.{◌≡◌, refl, [], ◌∷◌, codes}
use esp32_music_server.Run.{Out, Ensures, ok}
use esp32_music_server.Sdmmc.Store.{FullPath, Stores}
use esp32_music_server.FileManager.{FManError, FileType, file, CardState, active}
use esp32_music_server.FileManager.OnCard.{OnCard}
use esp32_music_server.FileManager.Resolve.{path_names, resolve_path_iter}
use esp32_music_server.FileManager.Resolve.Named.{onto, IsAt, resolve_path_iter-IsAt}
use esp32_music_server.Ram.Named.{Shelf, named, named-StoreLaws, path_of}
use esp32_music_server.Ram.Serves.{named-ReadLaws, named-PlaceLaws}

abbrev song_path : FullPath
song_path = codes "1.mp3" ∷ codes "music" ∷ []

abbrev with_song : Shelf
with_song = record {
  next = 0;
  open_dirs = [];
  open_files = [];
  texts = (song_path, codes "abc") ∷ [];
}

abbrev found_path : Out FManError (CardState (Unit {0}) Shelf) FileType → FullPath
found_path (ok (file entry f) (active s vol)) = path_of s f
found_path _ = []

song_found :
    found_path (resolve_path_iter named (codes "/music/1.mp3/") (active with_song 7)) ≡ song_path
unfolding resolve_path_iter
song_found = refl

resolve_path_iter-IsAt_example :
    Ensures {S = CardState (Unit {0}) Shelf}
      (λ ft. OnCard 7 (λ s'.
        IsAt named-StoreLaws.view (onto (path_names (codes "/music/1.mp3/")) []) ft s'
        × Stores named-StoreLaws.view with_song s'))
      (λ _. OnCard 7 (Stores named-StoreLaws.view with_song))
      (resolve_path_iter named (codes "/music/1.mp3/") (active with_song 7))
resolve_path_iter-IsAt_example =
    resolve_path_iter-IsAt named-StoreLaws named-ReadLaws named-PlaceLaws (codes "/music/1.mp3/")
      with_song 7
