-- ===== src/Ram/Named.antt =====
-- A volume manager in memory whose files have names: concrete functions for the interface of
-- embedded_sdmmc, which meet the laws on files by their names.
use esp32_music_server.Prelude.{
  ℕ, suc, ◌+◌, ◌≤◌, ◌≡◌, refl, ap, Bool, true, false, ◌&&◌, ◌||◌, List, [], ◌∷◌, Bytes, length,
  take, drop, leb, same, same_refl, ◌==◌, ==-refl, Bool-cases, inl, inr, ◌⊎◌, if◌then◌else◌, arith,
}
use esp32_music_server.Run.{Ensures, returns, fails, ok, err}
use esp32_music_server.Sdmmc.{Sd, DirEntry, VolumeManager, not_found, other}
use esp32_music_server.Sdmmc.Contents.{overwrite}
use esp32_music_server.Sdmmc.Store.{FullPath, StoreView, Stores, StoreLaws}

abbrev same_path : FullPath → FullPath → Bool
same_path [] [] = true
same_path [] (y ∷ ys) = false
same_path (x ∷ xs) [] = false
same_path (x ∷ xs) (y ∷ ys) = same x y && same_path xs ys

pub same_path_refl : (p : FullPath) → same_path p p ≡ true
same_path_refl [] = refl
same_path_refl (x ∷ xs) = ground (arith, same_refl x, same_path_refl xs)

-- The latest entry of a handle or of a name counts.
pub record Shelf : Type 0 where
  pub next : ℕ
  pub open_dirs : List (ℕ × FullPath)
  pub open_files : List (ℕ × (FullPath × ℕ))
  pub texts : List (FullPath × Bytes)

abbrev pub dir_at : List (ℕ × FullPath) → ℕ → FullPath
dir_at [] d = []
dir_at ((d', p) ∷ dirs) d = if d' == d then p else dir_at dirs d

abbrev file_at : List (ℕ × (FullPath × ℕ)) → ℕ → FullPath × ℕ
file_at [] f = ([], 0)
file_at ((f', p) ∷ files) f = if f' == f then p else file_at files f

abbrev pub text_at : List (FullPath × Bytes) → FullPath → Bytes
text_at [] k = []
text_at ((k', bs) ∷ texts) k = if same_path k' k then bs else text_at texts k

abbrev opened_dir : FullPath → Sd Shelf ℕ
opened_dir p s = ok s.next (record s { next = suc s.next; open_dirs = (s.next, p) ∷ s.open_dirs })

-- A directory gets another handle than the one it is opened from.
abbrev pub handle_behind : Shelf → ℕ → ℕ
handle_behind s d = suc (d + s.next)

abbrev opened_in : ℕ → FullPath → Sd Shelf ℕ
opened_in d p s =
    ok (handle_behind s d) (record s {
      next = suc (handle_behind s d);
      open_dirs = (handle_behind s d, p) ∷ s.open_dirs;
    })

-- Is the path that of a text, or one above it?
abbrev is_above : FullPath → FullPath → Bool
is_above k [] = false
is_above k (x ∷ xs) = same_path xs k || is_above k xs

abbrev pub has_text : List (FullPath × Bytes) → FullPath → Bool
has_text [] k = false
has_text ((k', bs) ∷ texts) k = same_path k' k || has_text texts k

abbrev pub has_below : List (FullPath × Bytes) → FullPath → Bool
has_below [] k = false
has_below ((k', bs) ∷ texts) k = is_above k k' || has_below texts k

abbrev pub entry_at : Bytes → ℕ → Bool → DirEntry
entry_at n size is_dir = record {
  base_name = n;
  extension = [];
  size = size;
  is_directory = is_dir;
  is_volume = false;
}

abbrev pub found_at : FullPath → Bytes → Sd Shelf DirEntry
found_at k n s =
    (if has_text s.texts k
        then ok (entry_at n (length (text_at s.texts k)) false)
        else if has_below s.texts k
        then ok (entry_at n 0 true)
        else err not_found)
      s

abbrev opened_file : FullPath → Sd Shelf ℕ
opened_file p s =
    ok s.next (record s { next = suc s.next; open_files = (s.next, (p, 0)) ∷ s.open_files })

abbrev pub path_of : Shelf → ℕ → FullPath
path_of s f = (file_at s.open_files f).0

abbrev pub cursor_of : Shelf → ℕ → ℕ
cursor_of s f = (file_at s.open_files f).1

abbrev pub text_of : Shelf → ℕ → Bytes
text_of s f = text_at s.texts (path_of s f)

abbrev moved_to : ℕ → ℕ → Sd Shelf (Unit {0})
moved_to f n s = ok tt (record s { open_files = (f, (path_of s f, n)) ∷ s.open_files })

abbrev read_some : ℕ → Bytes → Sd Shelf Bytes
read_some f bs s =
    ok bs (record s { open_files = (f, (path_of s f, cursor_of s f + length bs)) ∷ s.open_files })

abbrev pub named : VolumeManager Shelf
named = record {
  open_raw_volume = λ i s. ok 7 s;
  open_root_dir = λ vol. opened_dir [];
  open_dir = λ d n s. opened_in d (n ∷ dir_at s.open_dirs d) s;
  close_dir = λ d s. ok tt s;
  iterate_dir = λ d s. ok [] s;
  find_directory_entry = λ d n s. found_at (n ∷ dir_at s.open_dirs d) n s;
  make_dir_in_dir = λ d n s. ok tt s;
  delete_file_in_dir = λ d n. err not_found;
  open_file_in_dir = λ d n m s. opened_file (n ∷ dir_at s.open_dirs d) s;
  close_file = λ f s. ok tt s;
  flush_file = λ f s. ok tt s;
  file_length = λ f s. ok (length (text_of s f)) s;
  file_eof = λ f s. ok (leb (length (text_of s f)) (cursor_of s f)) s;
  seek_from_start =
      λ f n s. (if leb n (length (text_of s f)) then moved_to f n else err (other 1)) s;
  read = λ f n s. read_some f (take n (drop (cursor_of s f) (text_of s f))) s;
  write = λ f bs s. ok tt (record s {
    texts = (path_of s f, overwrite (cursor_of s f) bs (text_of s f)) ∷ s.texts;
    open_files = (f, (path_of s f, cursor_of s f + length bs)) ∷ s.open_files;
  });
}

abbrev pub named_view : StoreView Shelf
named_view = record {
  stored = λ s k. text_at s.texts k;
  place = λ s d. dir_at s.open_dirs d;
  path = path_of;
  cursor = cursor_of;
}

pub file_at-head :
    (f : ℕ) (p : FullPath × ℕ) (files : List (ℕ × (FullPath × ℕ))) → file_at ((f, p) ∷ files) f ≡ p
file_at-head f p files = rw (==-refl f) refl

pub seeks :
    (f n : ℕ) (s : Shelf)
    (b : (leb n (length (text_of s f)) ≡ true) ⊎ (leb n (length (text_of s f)) ≡ false))
    → Ensures
        (λ _ s'.
          (cursor_of s' f ≡ n)
          × (n ≤ length (text_of s f))
          × (path_of s' f ≡ path_of s f)
          × Stores named_view s s')
        (λ _. Stores named_view s)
        (named.seek_from_start f n s)
seeks f n s (inl inside) = rw inside (
    returns (
      ap (λ p. p.1) (file_at-head f (path_of s f, n) s.open_files),
      ground (arith, inside),
      ap (λ p. p.0) (file_at-head f (path_of s f, n) s.open_files),
      λ k. refl,
    ))
seeks f n s (inr past) = rw past (fails (λ k. refl))

abbrev pub named-StoreLaws : StoreLaws named
named-StoreLaws = record {
  view = named_view;
  open_root_opens = λ vol s. returns (rw (==-refl s.next) refl, λ k. refl);
  open_dir_opens = λ d n s. returns (rw (==-refl (handle_behind s d)) refl, λ k. refl);
  open_file_opens = λ d n s. returns (rw (==-refl s.next) refl, λ k. refl);
  seek_moves = λ f n s. seeks f n s (Bool-cases (leb n (length (text_of s f))));
  write_stores = λ f bs s.
      returns (rw (same_path_refl (path_of s f)) refl, rw (==-refl f) refl, rw (==-refl f) refl);
  flush_keeps = λ f s. returns (λ k. refl);
  close_file_keeps = λ f s. returns (λ k. refl);
  close_dir_keeps = λ d s. returns (λ k. refl);
}
