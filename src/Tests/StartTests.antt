-- ===== src/Tests/StartTests.antt =====
-- The loops that start the file system, on a disk in memory.
use esp32_music_server.Prelude.{◌≡◌, refl, Option, none, some, [], ◌∷◌, codes}
use esp32_music_server.Run.{err, hang, returns, fails}
use esp32_music_server.Sdmmc.{not_found, VolumeManager}
use esp32_music_server.FileManager.{CardState, no_card}
use esp32_music_server.FileManager.OnCard.{OnCard}
use esp32_music_server.FileManager.Init.Rows.{Grown}
use esp32_music_server.FileManager.Start.{OnceLock, start_embassy, start_tokio}
use esp32_music_server.FileManager.Start.Retries.{
  OnceLaws, start-unmounted, Starts, IsReady, start-Starts,
}
use esp32_music_server.FileManager.Start.Second.{start_tokio-again}
use esp32_music_server.Database.Tables.{Same}
use esp32_music_server.Server.Upload.{counter_row}
use esp32_music_server.Ram.{Disk, ram, disk_of, ram_device}
use esp32_music_server.Ram.Tables.{ram_db, ram-DatabaseLaws}

abbrev keep_first : {T : Type 0} → T → Option T → Option T
keep_first t none = some t
keep_first t (some u) = some u

abbrev once_lock : OnceLock (CardState Disk Disk)
once_lock = record { init = keep_first }

once_laws : OnceLaws once_lock
once_laws = record { init_sets = λ t. refl; init_keeps = λ t u. refl }

abbrev disk : Disk
disk = record (disk_of (codes "abc")) { rows = (0, counter_row (codes "music") 7) ∷ [] }

start-Starts_example :
    Starts {D = Disk}
      (OnCard 7 (IsReady ram-DatabaseLaws disk))
      (OnCard 7 (Grown ram-DatabaseLaws.look disk))
      (start_embassy ram_device ram ram_db once_lock (disk ∷ disk ∷ []) none)
start-Starts_example =
    start-Starts ram_device {once = once_lock} ram-DatabaseLaws once_laws (λ d. returns tt) disk 7
      disk refl (disk ∷ [])

-- A slot without a card.
abbrev empty_slot : VolumeManager Disk
empty_slot = record ram { open_raw_volume = λ i s. err not_found s }

start-unmounted_example :
    (start_embassy ram_device empty_slot ram_db once_lock (disk ∷ disk ∷ disk ∷ []) none
      ≡ hang (some (no_card disk)))
    × (start_tokio ram_device empty_slot ram_db disk 4 none ≡ hang (some (no_card disk)))
start-unmounted_example =
    start-unmounted ram_device empty_slot ram_db {once = once_lock} once_laws (λ d. fails tt) disk
      not_found disk refl (disk ∷ disk ∷ []) 4

-- A disk whose files are counted.
abbrev started_before : Disk
started_before = record (disk_of []) { rows = (0, counter_row (codes "files") 3) ∷ [] }

start_tokio-again_example :
    Starts {D = Disk}
      (λ _. ⊥)
      (OnCard 7 (Same ram-DatabaseLaws.look started_before))
      (start_tokio ram_device ram ram_db started_before 5 none)
start_tokio-again_example =
    start_tokio-again ram_device ram-DatabaseLaws started_before 7 started_before
      (counter_row (codes "files") 3) 5 refl refl
