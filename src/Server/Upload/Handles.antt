-- ===== src/Server/Upload/Handles.antt =====
-- The handles of `end`.
use esp32_music_server.Prelude.{◌∷◌, List, Bytes}
use esp32_music_server.Run.{Ensures, returns, fails, Ensures-bind, Ensures-map_err, Ensures-if}
use esp32_music_server.Sdmmc.{RawDirectory, RawFile, RawVolume, VolumeManager, read_write_append}
use esp32_music_server.Sdmmc.Handles.{Opens, HandleLaws}
use esp32_music_server.Sdmmc.Rules.{
  Leaves, rule_open_dir, rule_open_file, rule_scoped_dir, rule_scoped_file,
}
use esp32_music_server.FileManager.{CardState, active}
use esp32_music_server.FileManager.OnCard.{OnCard, Ensures-with_root_dir}
use esp32_music_server.Server.Range.Request.{invalid_dir}
use esp32_music_server.Server.Upload.{end, end_action}

module _ {V : Type 0} {vm : VolumeManager V} (laws : HandleLaws vm) {ds : List RawDirectory}
    {fs : List RawFile} where
  end_action-handles :
      (dir_name id : Bytes) (root : RawDirectory) (s : V)
      → Opens laws.tables s (root ∷ ds) fs
      → Leaves laws.tables ds fs (end_action vm dir_name id root s)
  unfolding end_action
  end_action-handles dir_name id root s h = rule_scoped_dir laws root (
      Ensures-if (invalid_dir dir_name) _ _ (fails h) (
        Ensures-bind _ (Ensures-map_err _ (rule_open_dir laws h root dir_name) (λ _ _ g. g))
          (λ music s₁ (h₁, _). rule_scoped_dir laws music (
            Ensures-bind _
              (Ensures-map_err _ (rule_open_file laws h₁ music id read_write_append) (λ _ _ g. g))
              (λ f s₂ (h₂, _). rule_scoped_file laws f (returns h₂))))))

-- The end of an upload, on an active card, neither panics nor waits for ever, and leaves exactly the
-- handles open that were open before, whatever the names and the errors on the way.
pub end-handles :
    {D V : Type 0} {vm : VolumeManager V} (laws : HandleLaws vm) (dir_name id : Bytes) (s : V)
    (vol : RawVolume)
    → Ensures {S = CardState D V}
        (λ _. OnCard vol (λ s'. Opens laws.tables s' (laws.tables.dirs s) (laws.tables.files s)))
        (λ _. OnCard vol (λ s'. Opens laws.tables s' (laws.tables.dirs s) (laws.tables.files s)))
        (end vm dir_name id (active s vol))
unfolding end
end-handles {vm} laws dir_name id s vol =
    Ensures-with_root_dir laws (end_action vm dir_name id) s vol (λ _ _ h. h)
      (λ root s' h. end_action-handles laws dir_name id root s' h)
