-- ===== src/Ram/Changes.antt =====
-- The volume manager in memory meets the laws on writing and on deletion.
use esp32_music_server.Prelude.{
  ℕ, zero, suc, ◌+◌, ◌≡◌, refl, ap, Bool, true, false, not, ◌||◌, [], ◌∷◌, ◌++◌, append-nil, Bytes,
  length, take, drop, drop-nil, ◌∙◌, same, ◌⊎◌, inl, inr, Bool-cases, if◌then◌else◌, arith,
}
use esp32_music_server.Run.{Ensures, returns, fails}
use esp32_music_server.Sdmmc.{not_found}
use esp32_music_server.Sdmmc.Contents.{Contents, WriteLaws, overwrite}
use esp32_music_server.Server.Delete.Order.{DeleteLaws}
use esp32_music_server.Ram.{Disk, ram, is_gone, is_missing, mem}

pub overwrite_cut :
    (p q : ℕ) (bs c : Bytes) → q ≡ p + length bs → take p c ++ (bs ++ drop q c) ≡ overwrite p bs c
unfolding overwrite
overwrite_cut zero q bs c h = let e : q ≡ length bs = omega arith in ap (λ n. bs ++ drop n c) e
overwrite_cut (suc p) q bs [] h = ap (λ t. bs ++ t) (drop-nil q) ∙ append-nil bs
overwrite_cut (suc p) zero bs (x ∷ c) h = absurd (omega arith)
overwrite_cut (suc p) (suc q) bs (x ∷ c) h = ap (λ r. x ∷ r) (overwrite_cut p q bs c (omega arith))

abbrev ram_contents : Contents Disk
ram_contents = record { content = λ s f. s.text; cursor = λ s f. s.cursor }

abbrev pub ram-WriteLaws : WriteLaws ram
ram-WriteLaws = record {
  contents = ram_contents;
  write_writes = λ f bs s. returns (record {
    content_is = overwrite_cut s.cursor (s.cursor + length bs) bs s.text refl;
    cursor_is = refl;
  });
}

abbrev is_present : Disk → ℕ → Bytes → Bool
is_present s d n = not (is_gone s n)

one_more : (a b c : Bool) → not (a || (b || c)) ≡ (if b then false else not (a || c))
one_more true true c = refl
one_more true false c = refl
one_more false true c = refl
one_more false false c = refl

delete_ram :
    (d : ℕ) (n : Bytes) (s : Disk)
    → (is_gone s n ≡ true) ⊎ (is_gone s n ≡ false)
    → Ensures
        (λ _ s'. (m : Bytes) → is_present s' d m ≡ (if same n m then false else is_present s d m))
        (λ e s'.
          (e ≡ not_found → not (is_gone s n) ≡ false)
          × ((m : Bytes) → is_present s' d m ≡ is_present s d m))
        (ram.delete_file_in_dir d n s)
delete_ram d n s (inl absent) = rw absent (fails ((λ _. refl), λ m. refl))
delete_ram d n s (inr there) =
    rw there (returns (λ m. one_more (is_missing m) (same n m) (mem m s.gone)))

pub ram-DeleteLaws : DeleteLaws ram
ram-DeleteLaws = record {
  present = is_present;
  delete_deletes = λ d n s. delete_ram d n s (Bool-cases (is_gone s n));
}
