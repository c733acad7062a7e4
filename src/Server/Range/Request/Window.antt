-- ===== src/Server/Range/Request/Window.antt =====
-- The window that a range request is answered with.
use native.Mathlib.Nat.{mod-eq_of_lt}
use esp32_music_server.Prelude.{
  ℕ, zero, suc, ◌+◌, ◌-◌, ◌≤◌, ◌<◌, min, ◌≡◌, refl, ap, sym, ◌∙◌, Bool-cases, inl, inr, [], ◌++◌,
  Bytes, length, take, drop, drop_all, drop-drop, take-append-drop, ltb, ltb→lt, if◌then◌else◌,
  arith,
}
use esp32_music_server.Std.Usize.{add_usize, sub_usize}
use esp32_music_server.Server.Range.Request.{chunk_size, range_end, range_len}

-- The window ends inside the file, and holds `chunk_size` bytes or all that is left.
pub record IsWindow (start end len total : ℕ) : Type 0 where
  pub end_is : end + 1 ≡ start + len
  pub len_is : len ≡ min chunk_size (total - start)
  pub inside : start + len ≤ total

add_fits : (modulus a b : ℕ) → a + b < modulus → add_usize modulus a b ≡ a + b
add_fits modulus a b h = grind (arith, mod-eq_of_lt)

sub_fits : (modulus a b : ℕ) → b ≤ a → a < modulus → sub_usize modulus a b ≡ a - b
sub_fits modulus a b h k = grind (arith, mod-eq_of_lt)

module _ (modulus start total : ℕ) (below : start < total)
    (room : total + chunk_size ≤ modulus) where
  end_lem : range_end modulus start total ≡ min (start + chunk_size - 1) (total - 1)
  unfolding range_end
  end_lem =
      rw (add_fits modulus start chunk_size (omega arith))
        (rw (sub_fits modulus (start + chunk_size) 1 (omega arith) (omega arith)) refl)

  len_lem : range_len modulus start total ≡ range_end modulus start total - start + 1
  unfolding range_len
  len_lem =
      rw
        (sub_fits modulus (range_end modulus start total) start (omega (arith, end_lem))
          (omega (arith, end_lem)))
        (add_fits modulus (range_end modulus start total - start) 1 (omega (arith, end_lem)))

  -- A start inside the file gives a window, where file and chunk fit a `usize` together.
  pub range-IsWindow :
      IsWindow start (range_end modulus start total) (range_len modulus start total) total
  range-IsWindow = record {
    end_is = omega (arith, end_lem, len_lem);
    len_is = omega (arith, end_lem, len_lem);
    inside = omega (arith, end_lem, len_lem);
  }

-- A client that asks for the bytes behind the last window, until the file's end.
pub fetch : ℕ → ℕ → ℕ → Bytes → Bytes
fetch modulus zero start c = []
fetch modulus (suc rounds) start c =
    let rest = fetch modulus rounds (range_end modulus start (length c) + 1) c in
    if ltb start (length c)
    then take (range_len modulus start (length c)) (drop start c) ++ rest
    else []

-- The windows of consecutive requests, put together, are the file from the first start on. File and
-- chunk fit a `usize` together, and the client asks often enough: more rounds than bytes are left.
pub fetch-all :
    (modulus rounds start : ℕ) (c : Bytes)
    → length c + chunk_size ≤ modulus
    → length c < start + rounds
    → fetch modulus rounds start c ≡ drop start c
unfolding fetch
fetch-all modulus zero start c room enough = sym (drop_all start c (omega arith))
fetch-all modulus (suc rounds) start c room enough = elim (Bool-cases (ltb start (length c))) [
  | inr past ↦ rw past (sym (drop_all start c (ground arith)))
  | inl below ↦
      let inside : start < length c = ltb→lt _ _ below in
      let w = range-IsWindow modulus start (length c) inside room in
      let len = range_len modulus start (length c) in
      let next = range_end modulus start (length c) + 1 in
      rw below (
        ap (λ t. take len (drop start c) ++ t)
          (fetch-all modulus rounds next c room (omega (arith, w.end_is, w.len_is))
            ∙ sym (drop-drop start len next c w.end_is))
        ∙ take-append-drop len (drop start c))
]
