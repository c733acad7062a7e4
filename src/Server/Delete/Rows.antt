-- ===== src/Server/Delete/Rows.antt =====
-- What the deletion of a file does to the tables and to the file.
use esp32_music_server.Prelude.{
  ◌≡◌, refl, ◌∙◌, ap, false, none, [], ◌∷◌, ◌&&◌, ◌==◌, same, Bytes, codes, if◌then◌else◌,
}
use esp32_music_server.Run.{
  Out, Act, bad, Ensures, returns, fails, Ensures-bind, Ensures-map_err, Ensures-attempt,
  Ensures-then_drop, Ensures-weaken, Ensures-if_known, out_then_drop, out_map_err, ok, ignore, pure,
  map_err, ◌>>=◌, ◌>>◌, both,
}
use esp32_music_server.Sdmmc.{
  SdError, not_found, dir_already_exists, other, RawDirectory, RawVolume, VolumeManager,
}
use esp32_music_server.FileManager.{
  FManError, sd_err, db_err, CardState, active, db_dir, with_root_dir_async,
}
use esp32_music_server.FileManager.OnCard.{OnCard, Ensures-on_card}
use esp32_music_server.FileManager.Init.Keeps.{Same-trans}
use esp32_music_server.Database.{chars, DatabaseOps}
use esp32_music_server.Database.Tables.{Same, SameAfter, Removed, DatabaseLaws}
use esp32_music_server.Database.Files.{FileLaws}
use esp32_music_server.Server.Delete.Laws.{DeletionLaws}
use esp32_music_server.Server.Range.Request.{invalid_dir}
use esp32_music_server.Server.Delete.{tolerate, delete_file, delete_music, handle_delete}

module _ {V B : Type 0} {vm : VolumeManager V} {ops : DatabaseOps V B} (laws : DatabaseLaws vm ops)
    (files : FileLaws vm ops) (deletes : DeletionLaws laws files) (dir_name name : Bytes)
    (s : V) where
  -- The row and the file are gone, and no other row has changed.
  abbrev pub Gone : V → Type 0
  Gone s' =
      Removed laws.look (laws.id_of dir_name) name s s'
      × (files.has s' (name ∷ dir_name ∷ []) ≡ false)

  -- The run ends with both gone, or fails with the tables as they were.
  abbrev Removes : Out FManError V Bytes → Type 0
  Removes r = Ensures (λ reply s'. (reply ≡ codes "success") × Gone s') (λ _. Same laws.look s) r

  Same-Removed :
      {a b : V}
      → Removed laws.look (laws.id_of dir_name) name s a
      → Same laws.look a b
      → Removed laws.look (laws.id_of dir_name) name s b
  Same-Removed r h t k = h t k ∙ r t k

  Removed-behind :
      {a b : V}
      → Same laws.look s a
      → Removed laws.look (laws.id_of dir_name) name a b
      → Removed laws.look (laws.id_of dir_name) name s b
  Removed-behind h r t k =
      r t k ∙ ap (λ o. if (laws.id_of dir_name == t) && same name k then none else o) (h t k)

  -- A call that leaves the tables as they were, and gives what the files rely on.
  then_call :
      {E A : Type 0} {P : A → V → Type 0} {a : V} (g : E → FManError) {r : Out E V A}
      → Same laws.look s a
      → SameAfter laws.look a r
      → Ensures P (λ _ _. Unit {0}) r
      → Ensures (λ x b. Same laws.look s b × P x b) (λ _. Same laws.look s) (out_map_err g r)
  then_call g h keeps gives =
      Ensures-map_err g
        (Ensures-weaken (both keeps gives) (λ _ _ (k, p). (Same-trans laws.look k h, p))
          (λ _ _ (k, _). Same-trans laws.look k h))
        (λ _ _ k. k)

  close_Removes :
      (d : RawDirectory) {r : Out FManError V Bytes}
      → Removes r
      → Removes (out_then_drop r (ignore (vm.close_dir d)))
  close_Removes d h =
      Ensures-then_drop _ h
        (λ _ a (reply, (r, gone)).
          Ensures-attempt _
            (both (laws.close_dir_keeps d a) (deletes.close_dir_makes_none d _ a gone))
            (λ _ _ (k, g). returns (reply, (Same-Removed r k, g)))
            (λ _ _ (k, g). returns (reply, (Same-Removed r k, g))))
        (λ _ a g.
          Ensures-attempt _ (laws.close_dir_keeps d a) (λ _ _ k. returns (Same-trans laws.look k g))
            (λ _ _ k. returns (Same-trans laws.look k g)))

  module _ (valid : invalid_dir dir_name ≡ false) where
    drop_db_Removes :
        (db : B) {r : Out FManError V Bytes}
        → Removes r
        → Removes (out_then_drop r (λ a. ok tt (ops.drop_db db a)))
    drop_db_Removes db h =
        Ensures-then_drop _ h
          (λ _ a (reply, (r, gone)). returns (
            reply,
            (
              Same-Removed r (laws.drop_keeps db a),
              deletes.drop_makes_none db name dir_name a valid gone,
            ),
          ))
          (λ _ a g. returns (Same-trans laws.look (laws.drop_keeps db a) g))

    -- A deletion that finds no file is as good as one that does.
    abbrev NoFile : Out FManError V (Unit {0}) → Type 0
    NoFile r =
        Ensures (λ _ b. Same laws.look s b × (files.has b (name ∷ dir_name ∷ []) ≡ false))
          (λ _. Same laws.look s) r

    tolerate-NoFile :
        (e : SdError) {b : V}
        → Same laws.look s b
        → (e ≡ not_found → files.has b (name ∷ dir_name ∷ []) ≡ false)
        → NoFile (tolerate (bad e) b)
    tolerate-NoFile not_found h gone = returns (h, gone refl)
    tolerate-NoFile dir_already_exists h gone = fails h
    tolerate-NoFile (other n) h gone = fails h

    delete_file-NoFile :
        (d : RawDirectory) {a : V}
        → Same laws.look s a
        → files.At a d (dir_name ∷ [])
        → NoFile (delete_file vm d name a)
    unfolding delete_file
    delete_file-NoFile d {a} h there =
        Ensures-attempt tolerate
          (both (deletes.delete_file_keeps d name dir_name a valid there)
            (deletes.delete_file_removes d name (dir_name ∷ []) a there))
          (λ x _ (g, gone). returns (Same-trans laws.look g h, gone))
          (λ e _ (g, gone). tolerate-NoFile e (Same-trans laws.look g h) gone)

    abbrev delete_both : B → RawDirectory → Act FManError V Bytes
    delete_both db music = do
      table ← map_err db_err (ops.get_table db dir_name)
      delete_file vm music name
      map_err db_err (ops.delete_from_table db table (chars name))
      pure (codes "success")

    delete_both-Removes :
        (db : B) (music : RawDirectory) (a : V)
        → Same laws.look s a
        → files.At a music (dir_name ∷ [])
        → Removes (delete_both db music a)
    delete_both-Removes db music a h there =
        Ensures-bind _
          (Ensures-map_err db_err
            (both (laws.get_table_finds db dir_name a)
              (files.get_table_at db dir_name music (dir_name ∷ []) a there))
            (λ _ _ (g, _). Same-trans laws.look g h))
          (λ table b ((table_is, g), still). rw table_is (
            Ensures-bind _ (delete_file-NoFile music (Same-trans laws.look g h) still)
              (λ _ c (hc, gone).
                Ensures-bind _
                  (Ensures-map_err db_err
                    (both (laws.delete_removes db (laws.id_of dir_name) name c) (
                      deletes.delete_row_makes_none db (laws.id_of dir_name) name name dir_name c
                        valid gone))
                    (λ _ _ (k, _). Same-trans laws.look k hc))
                  (λ _ z (r, gone'). returns (refl, (Removed-behind hc r, gone'))))))

  delete_music-Removes :
      (root : RawDirectory) (a : V)
      → Same laws.look s a
      → files.At a root []
      → Removes (delete_music vm ops dir_name name root a)
  unfolding delete_music
  delete_music-Removes root a h at_root = close_Removes root (
      Ensures-if_known (invalid_dir dir_name) _ _ (λ _. fails h)
        (λ valid.
          Ensures-bind _
            (then_call sd_err h (laws.open_dir_keeps root db_dir a)
              (files.open_dir_at root db_dir [] a at_root))
            (λ raw b (hb, (_, root_b)).
              Ensures-bind _
                (then_call sd_err hb (laws.open_dir_keeps root dir_name b)
                  (files.open_dir_at root dir_name [] b root_b))
                (λ music c (hc, (there, _)). close_Removes music (
                  Ensures-bind _
                    (then_call db_err hc (laws.init_keeps raw c)
                      (files.init_at raw music (dir_name ∷ []) c there))
                    (λ db d (hd, still).
                      drop_db_Removes valid db (delete_both-Removes valid db music d hd still)))))))

-- The deletion of a file, on an active card, neither panics nor waits for ever. Where it succeeds, the
-- reply is `success`, the row of that name is gone from the table of the directory, no other row
-- of any table has changed, and the directory has no file of that name. Where it fails, whatever the
-- error, no row has changed.
pub handle_delete-Removed :
    {D V B : Type 0} {vm : VolumeManager V} {ops : DatabaseOps V B} (laws : DatabaseLaws vm ops)
    (files : FileLaws vm ops) (deletes : DeletionLaws laws files) (dir_name name : Bytes) (s : V)
    (vol : RawVolume)
    → Ensures {S = CardState D V}
        (λ reply.
          OnCard vol (λ s'. (reply ≡ codes "success") × Gone laws files deletes dir_name name s s'))
        (λ _. OnCard vol (Same laws.look s))
        (handle_delete vm ops dir_name name (active s vol))
unfolding handle_delete with_root_dir_async
handle_delete-Removed {vm} {ops} laws files deletes dir_name name s vol = Ensures-on_card vol (
    Ensures-bind _
      (then_call laws files deletes dir_name name s sd_err (λ t k. refl)
        (laws.open_root_keeps vol s) (files.open_root_at vol s))
      (λ root a (h, at_root).
        delete_music-Removes laws files deletes dir_name name s root a h at_root))
