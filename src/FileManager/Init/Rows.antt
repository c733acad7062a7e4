-- ===== src/FileManager/Init/Rows.antt =====
-- What a tolerated insert does to a table.
use esp32_music_server.Prelude.{
  ◌≡◌, ◌≢◌, refl, sym, ap, ◌∙◌, Bool, true, false, ◌&&◌, Option, none, some, Bytes, ◌==◌, ==_iff,
  same, same_sound, ◌∷◌, if◌then◌else◌, ◌⊎◌, inl, inr, Bool-cases, Option-cases, arith,
}
use esp32_music_server.Run.{Ensures, returns, fails, bad, Ensures-attempt}
use esp32_music_server.Sdmmc.{VolumeManager}
use esp32_music_server.FileManager.{DbError, duplicate_key, other}
use esp32_music_server.FileManager.Init.{allow_duplicate, ensure_row}
use esp32_music_server.Database.{chars, Row, TableId, DatabaseOps}
use esp32_music_server.Database.Tables.{Lookup, Same, DatabaseLaws}

abbrev pub row_or : Option Row → Row → Row
row_or none row = row
row_or (some old) row = old

-- The row is under its key, if there was none.
abbrev pub Ensured : {V : Type 0} → Lookup V → TableId → Bytes → Row → V → V → Type 0
Ensured look t k row s s' =
    (t' : TableId) (k' : Bytes)
    → look s' t' k'
      ≡ (if (t == t') && same k k' then some (row_or (look s t k) row) else look s t' k')

-- Every row that was there is there.
abbrev pub Grown : {V : Type 0} → Lookup V → V → V → Type 0
Grown look s s' =
    (t : TableId) (k : Bytes) (row : Row) → look s t k ≡ some row → look s' t k ≡ some row

pub and_left : (a b : Bool) → a && b ≡ true → a ≡ true
and_left true b h = refl
and_left false b h = h

pub and_right : (a b : Bool) → a && b ≡ true → b ≡ true
and_right true b h = h
and_right false b h = absurd (ground (h, arith))

module _ {V : Type 0} (look : Lookup V) (t : TableId) (k : Bytes) (s : V) where
  pub both_same :
      (t' : TableId) (k' : Bytes) → (t == t') && same k k' ≡ true → look s t' k' ≡ look s t k
  both_same t' k' h =
      let here : t ≡ t' = (==_iff t t').0 (and_left (t == t') (same k k') h) in
      let there : k ≡ k' = same_sound k k' (and_right (t == t') (same k k') h) in
      ap (λ x. look s x k') (sym here) ∙ ap (look s t) (sym there)

  row_there :
      (row old : Row) (s' : V) → look s t k ≡ some old → Same look s s' → Ensured look t k row s s'
  row_there row old s' there g t' k' = elim (Bool-cases ((t == t') && same k k')) [
    | inl e ↦ rw e (g t' k' ∙ both_same t' k' e ∙ there ∙ ap (λ o. some (row_or o row)) (sym there))
    | inr e ↦ rw e (g t' k')
  ]

  pub Ensured-Grown : (row : Row) (s' : V) → Ensured look t k row s s' → Grown look s s'
  Ensured-Grown row s' g t' k' old there = elim (Bool-cases ((t == t') && same k k')) [
    | inl e ↦ g t' k' ∙ rw e (ap (λ o. some (row_or o row)) (sym (both_same t' k' e) ∙ there))
    | inr e ↦ g t' k' ∙ rw e there
  ]

module _ {V B : Type 0} {vm : VolumeManager V} {ops : DatabaseOps V B} (laws : DatabaseLaws vm ops)
    (t : TableId) (k : Bytes) (row : Row) where
  refused :
      (e : DbError) (s s' : V)
      (o : (laws.look s t k ≡ none) ⊎ ((old : Row) × (laws.look s t k ≡ some old)))
      → (e ≡ duplicate_key → laws.look s t k ≢ none)
      → Same laws.look s s'
      → Ensures
          (λ _. Ensured laws.look t k (chars k ∷ row) s)
          (λ _. Same laws.look s)
          (allow_duplicate tt (bad e) s')
  refused duplicate_key s s' (inl absent) there g = absurd (there refl absent)
  refused duplicate_key s s' (inr (old, here)) there g =
      returns (row_there laws.look t k s (chars k ∷ row) old s' here g)
  refused (other n) s s' o there g = fails g

  pub ensure_row-Ensured :
      (db : B) (s : V)
      → Ensures
          (λ _. Ensured laws.look t k (chars k ∷ row) s)
          (λ _. Same laws.look s)
          (ensure_row vm ops db t (chars k ∷ row) s)
  unfolding ensure_row
  ensure_row-Ensured db s =
      Ensures-attempt (allow_duplicate tt) (laws.insert_puts db t k row s)
        (λ _ s' (absent, put). returns (λ t' k'.
          put t' k'
          ∙ ap
              (λ o.
                if (t == t') && same k k'
                then some (row_or o (chars k ∷ row))
                else laws.look s t' k')
              (sym absent)))
        (λ e s' (there, g). refused e s s' (Option-cases (laws.look s t k)) there g)
