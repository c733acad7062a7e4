-- ===== src/Server/Range/Request/Named.antt =====
-- The file that `handle_range_request` of server/src/range.rs answers with: the one of the name.
use esp32_music_server.Prelude.{
  ℕ, ◌+◌, ◌-◌, ◌≤◌, ◌<◌, min, ◌≡◌, refl, ap, ◌∙◌, List, [], ◌∷◌, Bytes, codes, length, leb,
  Bool-cases, true, inl, inr, arith,
}
use esp32_music_server.Run.{
  Out, Ensures, returns, fails, Ensures-bind, Ensures-map_err, Ensures-on_error, Ensures-weaken,
  Ensures-if_known, Ensures-attempt, ignore, out_map_err,
}
use esp32_music_server.Std.Decimal.{to_string}
use esp32_music_server.Sdmmc.{SdError, RawDirectory, RawFile, RawVolume, VolumeManager}
use esp32_music_server.Sdmmc.Store.{FullPath, Stores, StoreLaws, ReadLaws}
use esp32_music_server.FileManager.{
  FManError, sd_err, server_err, CardState, active, with_root_dir, root_dir,
}
use esp32_music_server.FileManager.OnCard.{OnCard, Ensures-on_card}
use esp32_music_server.Server.Range.Request.{
  Header, RangeReply, partial_content, internal_server_error, invalid_dir, chunk_size,
  content_range, range_end, range_len, plan, open_requested, range_action, respond,
  handle_range_request,
}
use esp32_music_server.Server.Range.Request.Window.{range-IsWindow}

-- The headers of a window of the given length from the start on.
abbrev pub window_headers : (start len total : ℕ) → List Header
window_headers start len total =
    (codes "Accept-Ranges", codes "bytes")
    ∷ (codes "Content-Length", to_string len)
    ∷ (codes "Content-Range", content_range start (start + len - 1) total)
    ∷ []

-- Why a request for a file by its name gets an error: the card fails, the name of the directory is
-- not one of the two, or what the handler looks at behind the opening.
pub data Refusal (dir : Bytes) (past : Type 0) : FManError → Type 0 where
  card_fails : (e : SdError) → Refusal dir past (sd_err e)
  no_such_dir : invalid_dir dir ≡ true → Refusal dir past (server_err (codes "invalid dir name"))
  behind_end : past → Refusal dir past (server_err (codes "range out of bounds"))

module _ {V : Type 0} {vm : VolumeManager V} (laws : StoreLaws vm) (dir : Bytes) (past : Type 0)
    (s : V) where
  -- An error has a reason, and no text has changed.
  abbrev pub Refused : FManError → V → Type 0
  Refused e s' = Refusal dir past e × Stores laws.view s s'

  drop_dir-Refused :
      (d : RawDirectory) (e : FManError) (a : V)
      → Refused e a
      → Ensures {E = FManError} (λ _. Refused e) (λ _ _. ⊥) (ignore (vm.close_dir d) a)
  drop_dir-Refused d e a (why, h) =
      Ensures-attempt _ (laws.close_dir_keeps d a) (λ _ _ g. returns (why, λ k. g k ∙ h k))
        (λ _ _ g. returns (why, λ k. g k ∙ h k))

module _ {V : Type 0} {vm : VolumeManager V} (laws : StoreLaws vm) (reads : ReadLaws laws) where
  -- The file of the name is open, and no text has changed.
  abbrev pub IsOpened : FullPath → V → RawFile → V → Type 0
  IsOpened k s f s' = (laws.view.path s' f ≡ k) × Stores laws.view s s'

  module _ (dir : Bytes) (past : Type 0) (s : V) where
    close_dir-IsOpened :
        (k : FullPath) (d : RawDirectory) (f : RawFile) (a : V)
        → IsOpened k s f a
        → Ensures
            (λ _. IsOpened k s f)
            (Refused laws dir past s)
            (out_map_err sd_err (vm.close_dir d a))
    close_dir-IsOpened k d f a (named, same_a) =
        Ensures-map_err sd_err
          (Ensures-weaken (reads.close_dir_reads d f a)
            (λ _ _ (same_path, g). (same_path ∙ named, λ j. g j ∙ same_a j))
            (λ _ _ g j. g j ∙ same_a j))
          (λ e _ g. (card_fails e, g))

    pub open_requested-IsOpened :
        (root : RawDirectory) (id : Bytes) (a : V)
        → laws.view.place a root ≡ []
        → Stores laws.view s a
        → Ensures
            (IsOpened (id ∷ dir ∷ []) s)
            (Refused laws dir past s)
            (open_requested vm root dir id a)
    unfolding open_requested
    open_requested-IsOpened root id a at_root same_a =
        let refused = Refused laws dir past s in
        let drop_root = drop_dir-Refused laws dir past s root in
        Ensures-if_known (invalid_dir dir) _ _
          (λ bad.
            Ensures-on_error {P = IsOpened (id ∷ dir ∷ []) s} {Q = refused} _
              (fails (no_such_dir bad, same_a)) drop_root)
          (λ good.
            Ensures-bind _
              (Ensures-on_error {Q = refused} _
                (Ensures-map_err sd_err (laws.open_dir_opens root dir a)
                  (λ e _ g. (card_fails e, λ j. g j ∙ same_a j)))
                drop_root)
              (λ music b (in_dir, same_b).
                Ensures-bind _
                  (Ensures-on_error {Q = refused} _
                    (Ensures-on_error {Q = refused} _
                      (Ensures-map_err sd_err (reads.open_file_reads music id b)
                        (λ e _ g. (card_fails e, λ j. g j ∙ same_b j ∙ same_a j)))
                      (drop_dir-Refused laws dir past s music))
                    drop_root)
                  (λ f c (named, same_c).
                    Ensures-bind _
                      (Ensures-on_error {Q = refused} _
                        (close_dir-IsOpened (id ∷ dir ∷ []) music f c (
                          named ∙ ap (λ q. id ∷ q) (in_dir ∙ ap (λ q. dir ∷ q) at_root),
                          λ j. same_c j ∙ same_b j ∙ same_a j,
                        ))
                        drop_root)
                      (λ _ d g.
                        Ensures-bind _ (close_dir-IsOpened (id ∷ dir ∷ []) root f d g)
                          (λ _ e h. returns h)))))

  -- The window of the reply lies in the file of the name, from the asked start on; its length and
  -- its headers are those of a window of 16 KiB, less at the file's end. No text has changed.
  abbrev pub Planned : Bytes → FullPath → ℕ → V → RangeReply → V → Type 0
  Planned dir k start s (partial_content state headers) s' =
      (laws.view.path s' state.raw_file ≡ k)
      × (state.start ≡ start)
      × (start < length (laws.view.stored s k))
      × (state.len ≡ min chunk_size (length (laws.view.stored s k) - start))
      × (headers ≡ window_headers start state.len (length (laws.view.stored s k)))
      × Stores laws.view s s'
  Planned dir k start s (internal_server_error e) s' =
      Refused laws dir (length (laws.view.stored s k) ≤ start) s e s'

  plan-Planned :
      (modulus : ℕ) (dir : Bytes) (k : FullPath) (f : RawFile) (start : ℕ) (s a : V)
      → length (laws.view.stored s k) + chunk_size ≤ modulus
      → IsOpened k s f a
      → Ensures
          (Planned dir k start s)
          (Refused laws dir (length (laws.view.stored s k) ≤ start) s)
          (plan modulus f start (length (laws.view.stored s k)) a)
  unfolding plan range_len range_end
  plan-Planned modulus dir k f start s a room (named, same_a) =
      let total = length (laws.view.stored s k) in
      elim (Bool-cases (leb total start)) [
        | inl past ↦ rw past (fails (behind_end (ground (arith, past)), same_a))
        | inr below ↦
            let inside : start < total = ground (arith, below) in
            let w = range-IsWindow modulus start total inside room in
            rw below (
              returns (
                named,
                refl,
                inside,
                w.len_is,
                ap
                    (λ end.
                      (codes "Accept-Ranges", codes "bytes")
                      ∷ (codes "Content-Length", to_string (range_len modulus start total))
                      ∷ (codes "Content-Range", content_range start end total)
                      ∷ [])
                    (omega (arith, w.end_is)),
                same_a,
              ))
      ]

  range_action-Planned :
      (modulus : ℕ) (dir id : Bytes) (start : ℕ) (root : RawDirectory) (s a : V)
      → length (laws.view.stored s (id ∷ dir ∷ [])) + chunk_size ≤ modulus
      → laws.view.place a root ≡ []
      → Stores laws.view s a
      → Ensures
          (Planned dir (id ∷ dir ∷ []) start s)
          (Refused laws dir (length (laws.view.stored s (id ∷ dir ∷ [])) ≤ start) s)
          (range_action vm modulus dir id start root a)
  unfolding range_action
  range_action-Planned modulus dir id start root s a room at_root same_a =
      let k : FullPath = id ∷ dir ∷ [] in
      Ensures-bind _ (open_requested-IsOpened dir _ s root id a at_root same_a)
        (λ f b (named, same_b).
          Ensures-bind _
            (Ensures-map_err sd_err (reads.length_reads f b)
              (λ e _ g. (card_fails e, λ j. g j ∙ same_b j)))
            (λ total c (total_is, same_path, same_c).
              rw (total_is ∙ ap length (ap (laws.view.stored b) named ∙ same_b k)) (
                plan-Planned modulus dir k f start s c room
                  (same_path ∙ named, λ j. same_c j ∙ same_b j))))

module _ {D V : Type 0} {vol : RawVolume} {P : RangeReply → V → Type 0} where
  respond-returns :
      {r : Out FManError (CardState D V) RangeReply}
      → Ensures (λ a. OnCard vol (P a)) (λ e. OnCard vol (P (internal_server_error e))) r
      → Ensures {E = FManError} (λ a. OnCard vol (P a)) (λ _ _. ⊥) (respond r)
  respond-returns (returns h) = returns h
  respond-returns (fails h) = returns h

-- A range request on an active card always gets a reply, and changes no text. It gets an error only if the
-- card fails, the directory is not one of the two, or the start is not inside the file.
pub handle_range_request-Planned :
    {D V : Type 0} {vm : VolumeManager V} (laws : StoreLaws vm) (reads : ReadLaws laws)
    (modulus : ℕ) (dir id : Bytes) (start : ℕ) (s : V) (vol : RawVolume)
    → length (laws.view.stored s (id ∷ dir ∷ [])) + chunk_size ≤ modulus
    → Ensures {S = CardState D V}
        (λ reply. OnCard vol (Planned laws reads dir (id ∷ dir ∷ []) start s reply))
        (λ _ _. ⊥)
        (handle_range_request vm modulus dir id start (active s vol))
unfolding handle_range_request with_root_dir root_dir
handle_range_request-Planned laws reads modulus dir id start s vol room =
    respond-returns {P = Planned laws reads dir (id ∷ dir ∷ []) start s} (
      Ensures-on_card vol (
        Ensures-bind _
          (Ensures-map_err sd_err (laws.open_root_opens vol s) (λ e _ g. (card_fails e, g)))
          (λ root a (at_root, same_a).
            range_action-Planned laws reads modulus dir id start root s a room at_root same_a)))
