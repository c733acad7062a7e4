-- ===== src/Server/Writer.antt =====
-- The interface of picoserve's `ChunkWriter`, which is not part of the repository: the body of a
-- response, sent chunk by chunk. `W` is the state of the connection, `I` its error.
use esp32_music_server.Prelude.{Bytes, codes, if◌then◌else◌}
use esp32_music_server.Run.{
  Out, ok, err, panic, hang, Act, Result, good, bad, pure, fail, map_err, ◌>>=◌, ◌>>◌,
}
use esp32_music_server.Sdmmc.{RawDirectory, RawVolume, VolumeManager}
use esp32_music_server.Database.{DatabaseOps}
use esp32_music_server.FileManager.{
  FManError, sd_err, card_not_active, CardState, no_card, active, processing, is_card_active,
}

pub record ChunkWriter (I W : Type 0) : Type 0 where
  pub write_chunk : Bytes → Act I W (Unit {0})
  -- `write!`, with the text that the arguments make.
  pub write_fmt : Bytes → Act I W (Unit {0})
  pub finalize : Act I W (Unit {0})

-- A handler that streams works on two states, the volume manager's and the connection's.
abbrev pub beside : {E V W A : Type 0} → W → Out E V A → Out E (V × W) A
beside w (ok a v) = ok a (v, w)
beside w (err e v) = err e (v, w)
beside w (panic v) = panic (v, w)
beside w (hang v) = hang (v, w)

abbrev pub behind : {E V W A : Type 0} → V → Out E W A → Out E (V × W) A
behind v (ok a w) = ok a (v, w)
behind v (err e w) = err e (v, w)
behind v (panic w) = panic (v, w)
behind v (hang w) = hang (v, w)

abbrev pub on_volume : {E V W A : Type 0} → Act E V A → Act E (V × W) A
on_volume m s = beside s.1 (m s.0)

abbrev pub on_writer : {E V W A : Type 0} → Act E W A → Act E (V × W) A
on_writer m s = behind s.0 (m s.1)

abbrev pub lift_writer : {I V W : Type 0} → ChunkWriter I W → ChunkWriter I (V × W)
lift_writer writer = record {
  write_chunk = λ chunk. on_writer (writer.write_chunk chunk);
  write_fmt = λ text. on_writer (writer.write_fmt text);
  finalize = on_writer writer.finalize;
}

abbrev pub lift_vm : {V W : Type 0} → VolumeManager V → VolumeManager (V × W)
lift_vm vm = record {
  open_raw_volume = λ i. on_volume (vm.open_raw_volume i);
  open_root_dir = λ vol. on_volume (vm.open_root_dir vol);
  open_dir = λ d n. on_volume (vm.open_dir d n);
  close_dir = λ d. on_volume (vm.close_dir d);
  iterate_dir = λ d. on_volume (vm.iterate_dir d);
  find_directory_entry = λ d n. on_volume (vm.find_directory_entry d n);
  make_dir_in_dir = λ d n. on_volume (vm.make_dir_in_dir d n);
  delete_file_in_dir = λ d n. on_volume (vm.delete_file_in_dir d n);
  open_file_in_dir = λ d n m. on_volume (vm.open_file_in_dir d n m);
  close_file = λ f. on_volume (vm.close_file f);
  flush_file = λ f. on_volume (vm.flush_file f);
  file_length = λ f. on_volume (vm.file_length f);
  file_eof = λ f. on_volume (vm.file_eof f);
  seek_from_start = λ f n. on_volume (vm.seek_from_start f n);
  read = λ f n. on_volume (vm.read f n);
  write = λ f bs. on_volume (vm.write f bs);
}

abbrev pub lift_db : {V W B : Type 0} → DatabaseOps V B → DatabaseOps (V × W) B
lift_db ops = record {
  new_init = λ d. on_volume (ops.new_init d);
  new_table_begin = λ db n s. (ops.new_table_begin db n s.0, s.1);
  add_column = λ db c. on_volume (ops.add_column db c);
  create_table = λ db. on_volume (ops.create_table db);
  get_table = λ db n. on_volume (ops.get_table db n);
  insert_to_table = λ db t row. on_volume (ops.insert_to_table db t row);
  delete_from_table = λ db t v. on_volume (ops.delete_from_table db t v);
  update_row = λ db t v row. on_volume (ops.update_row db t v row);
  query = λ db t k. on_volume (ops.query db t k);
  drop_db = λ db s. (ops.drop_db db s.0, s.1);
}

abbrev pub on_session :
    {E D V W A : Type 0} → RawVolume → Out E (V × W) A → Out E (CardState D V × W) A
on_session vol (ok a s) = ok a (active s.0 vol, s.1)
on_session vol (err e s) = err e (active s.0 vol, s.1)
on_session vol (panic s) = panic (active s.0 vol, s.1)
on_session vol (hang s) = hang (active s.0 vol, s.1)

abbrev on_active :
    {D V W A : Type 0}
    → CardState D V
    → W
    → (RawVolume → Act FManError (V × W) A)
    → Out FManError (CardState D V × W) A
on_active (no_card device) w f = err card_not_active (no_card device, w)
on_active (active s vol) w f = on_session vol (f vol (s, w))
on_active processing w f = err card_not_active (processing, w)

-- `with_root_dir_async` for an action that has the connection beside the volume manager.
abbrev pub with_root_dir_writer :
    {D V W A : Type 0}
    → VolumeManager V
    → (RawDirectory → Act FManError (V × W) A)
    → Act FManError (CardState D V × W) A
with_root_dir_writer vm f s =
    on_active s.0 s.1 (λ vol. map_err sd_err ((lift_vm vm).open_root_dir vol) >>= f)

-- The match behind it in the `Chunks` of the handlers: an error is `unreachable!()`.
abbrev result_of : {I S : Type 0} → Result I (Unit {0}) → Act I S (Unit {0})
result_of (good x) = pure x
result_of (bad e) = fail e

abbrev pub unwrap_written :
    {I S : Type 0} → Out FManError S (Result I (Unit {0})) → Out I S (Unit {0})
unwrap_written (ok r s) = result_of r s
unwrap_written (err e s) = panic s
unwrap_written (panic s) = panic s
unwrap_written (hang s) = hang s

-- `write_chunks` of the handlers: the action on an active card, and a message otherwise.
abbrev pub write_if_active :
    {I D V W : Type 0}
    → VolumeManager V
    → ChunkWriter I W
    → (RawDirectory → Act FManError (V × W) (Result I (Unit {0})))
    → Act I (CardState D V × W) (Unit {0})
write_if_active vm writer f s =
    if is_card_active s.0
    then unwrap_written (with_root_dir_writer vm f s)
    else (let io = lift_writer writer in
        (io.write_chunk (codes "SD Card not active") >> io.finalize) s)
