-- ===== src/Server/Range/Request/Opening.antt =====
-- The handles that a range request leaves open.
use esp32_music_server.Prelude.{
  ℕ, length, ap, arith, ◌≢◌, ◌⊎◌, inl, inr, List, ◌∷◌, Bytes, codes, leb,
}
use esp32_music_server.Run.{
  Out, Ensures, returns, fails, Ensures-bind, Ensures-map_err, Ensures-on_error, Ensures-weaken,
  Ensures-if, and_then, out_on_error, out_map_err, map_err, ignore, pure, ◌>>◌,
}
use esp32_music_server.Sdmmc.{SdError, RawDirectory, RawFile, RawVolume, VolumeManager, read_only}
use esp32_music_server.Sdmmc.Handles.{Tables, Opens, HandleLaws}
use esp32_music_server.Sdmmc.Rules.{
  rule_open_dir, rule_open_file, rule-Keeps, drop_head_dir, close_head_dir,
}
use esp32_music_server.FileManager.{FManError, sd_err, server_err, CardState, active}
use esp32_music_server.FileManager.OnCard.{OnCard, Ensures-with_root_dir}
use esp32_music_server.Server.Range.Request.{
  RangeReply, partial_content, internal_server_error, invalid_dir, plan, open_requested,
  range_action, respond, handle_range_request,
}

abbrev pub out_of_bounds : FManError
out_of_bounds = server_err (codes "range out of bounds")

sd_ne : (e : SdError) → sd_err e ≢ out_of_bounds
sd_ne e h = cc

abbrev message_length : FManError → ℕ
message_length (server_err m) = length m
message_length _ = 0

invalid_ne : server_err (codes "invalid dir name") ≢ out_of_bounds
invalid_ne e = omega (arith, ap message_length e)

-- Before the file is open.
abbrev Early : {V : Type 0} → Tables V → List RawDirectory → List RawFile → FManError → V → Type 0
Early t ds fs e s = (e ≢ out_of_bounds) × Opens t s ds fs

-- Behind an error: what was open before, or the requested file besides, and always that file
-- where the range was out of bounds.
abbrev pub AfterError :
    {V : Type 0} → Tables V → List RawDirectory → List RawFile → FManError → V → Type 0
AfterError t ds fs e s =
    ((e ≢ out_of_bounds) × Opens t s ds fs) ⊎ ((f : RawFile) × Opens t s ds (f ∷ fs))

module _ {V : Type 0} {vm : VolumeManager V} (laws : HandleLaws vm) {ds : List RawDirectory}
    {fs : List RawFile} where
  closing-handles :
      (root music : RawDirectory) (f : RawFile) {s : V}
      → Opens laws.tables s (music ∷ root ∷ ds) (f ∷ fs)
      → Ensures
          (λ f' s'. Opens laws.tables s' ds (f' ∷ fs))
          (AfterError laws.tables ds fs)
          (and_then
            (out_on_error (out_map_err sd_err (vm.close_dir music s)) (ignore (vm.close_dir root)))
            (λ _. map_err sd_err (vm.close_dir root) >> pure f))
  closing-handles root music f h =
      Ensures-bind _
        (Ensures-on_error _ (Ensures-map_err sd_err (close_head_dir laws music h) (λ _ _ g. g))
          (λ _ _ g. Ensures-weaken (drop_head_dir laws root g) (λ _ _ d. inr (f, d)) (λ _ _ d. d)))
        (λ _ s₁ h₁.
          Ensures-bind _
            (Ensures-map_err sd_err (close_head_dir laws root h₁) (λ _ _ g. inr (f, g)))
            (λ _ s₂ h₂. returns h₂))

  -- The root is closed on every path, and only the requested file can stay open.
  pub open_requested-handles :
      (root : RawDirectory) (dir_name id : Bytes) {s : V}
      → Opens laws.tables s (root ∷ ds) fs
      → Ensures
          (λ f s'. Opens laws.tables s' ds (f ∷ fs))
          (AfterError laws.tables ds fs)
          (open_requested vm root dir_name id s)
  unfolding open_requested
  open_requested-handles root dir_name id {s} h =
      Ensures-if (invalid_dir dir_name) _ _
        (Ensures-on_error {P = λ f s'. Opens laws.tables s' ds (f ∷ fs)}
          {Q = Early laws.tables (root ∷ ds) fs} _ (fails (invalid_ne, h))
          (λ e _ (ne, g). without e ne (drop_head_dir laws root g)))
        (Ensures-bind _
          (Ensures-on_error {Q = Early laws.tables (root ∷ ds) fs} _
            (Ensures-map_err sd_err (rule_open_dir laws h root dir_name) (λ e _ g. (sd_ne e, g)))
            (λ e _ (ne, g). without e ne (drop_head_dir laws root g)))
          (λ music s₁ (h₁, _).
            Ensures-bind _
              (Ensures-on_error {Q = Early laws.tables (root ∷ ds) fs} _
                (Ensures-on_error {Q = Early laws.tables (music ∷ root ∷ ds) fs} _
                  (Ensures-map_err sd_err (rule_open_file laws h₁ music id read_only)
                    (λ e _ g. (sd_ne e, g)))
                  (λ e _ (ne, g).
                    Ensures-weaken (drop_head_dir laws music g) (λ _ _ d. (ne, d)) (λ _ _ d. d)))
                (λ e _ (ne, g). without e ne (drop_head_dir laws root g)))
              (λ f s₂ (h₂, _). closing-handles root music f h₂)))
    where
      without :
          (e : FManError) {r : Out FManError V (Unit {0})}
          → e ≢ out_of_bounds
          → Ensures (λ _ s'. Opens laws.tables s' ds fs) (λ _ _. ⊥) r
          → Ensures (λ _ s'. AfterError laws.tables ds fs e s') (λ _ _. ⊥) r
      without e ne d = Ensures-weaken d (λ _ _ g. inl (ne, g)) (λ _ _ g. g)

-- The tables behind the reply: the file of the window, or those behind the error.
abbrev pub AfterReply :
    {V : Type 0} → Tables V → List RawDirectory → List RawFile → RangeReply → V → Type 0
AfterReply t ds fs (partial_content state headers) s = Opens t s ds (state.raw_file ∷ fs)
AfterReply t ds fs (internal_server_error e) s = AfterError t ds fs e s

module _ {V : Type 0} {vm : VolumeManager V} (laws : HandleLaws vm) (modulus : ℕ)
    (ds : List RawDirectory) (fs : List RawFile) where
  plan-handles :
      (f : RawFile) (start total : ℕ) {s : V}
      → Opens laws.tables s ds (f ∷ fs)
      → Ensures
          (AfterReply laws.tables ds fs)
          (AfterError laws.tables ds fs)
          (plan modulus f start total s)
  unfolding plan
  plan-handles f start total h = Ensures-if (leb total start) _ _ (fails (inr (f, h))) (returns h)

  range_action-handles :
      (dir_name id : Bytes) (start : ℕ) (root : RawDirectory) (s : V)
      → Opens laws.tables s (root ∷ ds) fs
      → Ensures
          (AfterReply laws.tables ds fs)
          (AfterError laws.tables ds fs)
          (range_action vm modulus dir_name id start root s)
  unfolding range_action
  range_action-handles dir_name id start root s h =
      Ensures-bind _ (open_requested-handles laws root dir_name id h) (λ f s₁ h₁.
        Ensures-bind _
          (Ensures-map_err sd_err (rule-Keeps laws h₁ (vm.file_length f) (laws.length_keeps f))
            (λ _ _ g. inr (f, g)))
          (λ total s₂ h₂. plan-handles f start total h₂))

Ensures-respond :
    {D V : Type 0} {vol : RawVolume} {t : Tables V} {ds : List RawDirectory} {fs : List RawFile}
    {r : Out FManError (CardState D V) RangeReply}
    → Ensures (λ a. OnCard vol (AfterReply t ds fs a)) (λ e. OnCard vol (AfterError t ds fs e)) r
    → Ensures {E = FManError} (λ a. OnCard vol (AfterReply t ds fs a)) (λ _ _. ⊥) (respond r)
Ensures-respond (returns h) = returns h
Ensures-respond (fails h) = returns h

-- A range request on an active card always gets a reply. Behind a window, exactly the file of the
-- window is open besides what was open before. Behind an error no directory is, and at most one
-- file; behind `range out of bounds` one file always stays open.
pub handle_range_request-handles :
    {D V : Type 0} {vm : VolumeManager V} (laws : HandleLaws vm) (modulus : ℕ) (dir_name id : Bytes)
    (start : ℕ) (s : V) (vol : RawVolume)
    → Ensures {S = CardState D V}
        (λ reply.
          OnCard vol (AfterReply laws.tables (laws.tables.dirs s) (laws.tables.files s) reply))
        (λ _ _. ⊥)
        (handle_range_request vm modulus dir_name id start (active s vol))
unfolding handle_range_request
handle_range_request-handles {vm} laws modulus dir_name id start s vol =
    let ds = laws.tables.dirs s in
    let fs = laws.tables.files s in
    Ensures-respond (
      Ensures-with_root_dir {P = AfterReply laws.tables ds fs} {Q = AfterError laws.tables ds fs}
        laws (range_action vm modulus dir_name id start) s vol (λ e _ h. inl (sd_ne e, h))
        (λ root s' h. range_action-handles laws modulus ds fs dir_name id start root s' h))
