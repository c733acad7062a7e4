-- ===== src/Tests/FileTests.antt =====
-- file_manager/src/lib.rs at concrete inputs.
use esp32_music_server.Prelude.{◌≡◌, refl, ap, elem, some, [], ◌∷◌, codes}
use esp32_music_server.Run.{Ensures, returns, ok}
use esp32_music_server.Sdmmc.Handles.{Opens}
use esp32_music_server.FileManager.{CardState, no_card, active, dir, open_dir}
use esp32_music_server.FileManager.OnCard.{OnCard}
use esp32_music_server.FileManager.OpenDir.{Opened, Unopened, open_dir-handles}
use esp32_music_server.FileManager.Card.{mount, card_run}
use esp32_music_server.FileManager.Card.Mounting.{misused, is_processing, lost_iff_misused}
use esp32_music_server.FileManager.Resolve.{resolve_path_iter, path_names}
use esp32_music_server.FileManager.Resolve.Handles.{Holds, resolve_path_iter-handles}
use esp32_music_server.Ram.{Disk, ram, ram_device, disk_of}
use esp32_music_server.Ram.Meets.{ram-HandleLaws, ram-dirs}

lost_iff_misused_example :
    (c : CardState Disk Disk) × (card_run ram_device ram (mount ∷ mount ∷ []) (no_card (disk_of []))
      ≡ ok tt c)
    × (is_processing c ≡ misused ram_device ram (mount ∷ mount ∷ []) (no_card (disk_of [])))
unfolding is_processing
lost_iff_misused_example =
    lost_iff_misused ram_device ram (λ d. returns tt) (mount ∷ mount ∷ []) (no_card (disk_of []))
      refl

-- Slashes at the ends do not matter, and an empty piece between two slashes is a name.
names : path_names (codes "/music//a.mp3/") ≡ codes "music" ∷ [] ∷ codes "a.mp3" ∷ []
unfolding path_names
names = refl

no_names : path_names (codes "//") ≡ []
unfolding path_names
no_names = refl

resolved_root :
    resolve_path_iter {D = Unit {0}} ram (codes "/") (active (disk_of []) 7)
    ≡ ok (dir 0) (active (record (disk_of []) { dirs = 0 ∷ [] }) 7)
unfolding resolve_path_iter
resolved_root = refl

resolve_path_iter-handles_example :
    Ensures {S = CardState (Unit {0}) Disk}
      (λ ft. OnCard 7 (
        Holds ram-HandleLaws.tables ft
          (ram-HandleLaws.tables.dirs (disk_of []))
          (ram-HandleLaws.tables.files (disk_of []))))
      (λ _. OnCard 7 (λ s'.
        Opens ram-HandleLaws.tables s'
          (ram-HandleLaws.tables.dirs (disk_of []))
          (ram-HandleLaws.tables.files (disk_of []))))
      (resolve_path_iter ram (codes "music/a.mp3") (active (disk_of []) 7))
resolve_path_iter-handles_example =
    resolve_path_iter-handles ram-HandleLaws (codes "music/a.mp3") (disk_of []) 7

-- A directory of the same name is opened from an open directory.
abbrev one_open : Disk
one_open = record (disk_of []) { dirs = 5 ∷ [] }

open_dir-handles_example :
    Ensures {S = CardState (Unit {0}) Disk}
      (λ d. OnCard 7 (Opened ram-HandleLaws (codes "music") one_open 7 (some 5) d))
      (λ e. OnCard 7 (Unopened ram-HandleLaws (codes "music") one_open 7 (some 5) e))
      (open_dir ram (some 5) (codes "music") (active one_open 7))
open_dir-handles_example =
    open_dir-handles ram-HandleLaws (codes "music") one_open 7 (some 5)
      (ap (elem 5) (ram-dirs one_open))
