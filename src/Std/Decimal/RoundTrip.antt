-- ===== src/Std/Decimal/RoundTrip.antt =====
-- A number is read back from its decimal print.
use esp32_music_server.Prelude.{
  ℕ, zero, suc, ◌+◌, ◌-◌, ◌*◌, ◌/◌, ◌%◌, ◌≤◌, ◌<◌, ◌≡◌, some, [], ◌∷◌, ◌++◌, Bytes, ltb, ltb→lt,
  Bool-cases, inl, inr, append_assoc, append-nil, arith, ap, sym, ◌∙◌,
}
use esp32_music_server.Std.Decimal.{digits, to_string, scan, parse_usize}
use esp32_music_server.Std.Text.{All, All-append}

abbrev pub IsDigit : ℕ → Type 0
IsDigit c = (b'0' ≤ c) × (c ≤ b'9')

pub digits-IsDigit : (k n : ℕ) → All IsDigit (digits k n)
unfolding digits
digits-IsDigit zero n = tt
digits-IsDigit (suc k) n = elim (Bool-cases (ltb n 10)) [
  | inl small ↦ rw small (omega (arith, ltb→lt n 10 small), tt)
  | inr large ↦ rw large (
      All-append IsDigit (digits k (n / 10)) ((b'0' + n % 10) ∷ []) (digits-IsDigit k (n / 10))
        (omega arith, tt))
]

-- Reading the last digit behind the digits before it gives the number.
scan_digit :
    (max n m d : ℕ) (t : Bytes)
    → n ≤ max
    → d < 10
    → n ≡ m * 10 + d
    → scan max ((b'0' + d) ∷ t) m ≡ scan max t n
unfolding scan
scan_digit max n m d t fits small e =
    let e' : m * 10 + (b'0' + d - b'0') ≡ n = omega arith in rw e' (ground arith)

pub scan-digits :
    (max k n : ℕ) (t : Bytes) → n < k → n ≤ max → scan max (digits k n ++ t) 0 ≡ scan max t n
unfolding digits
scan-digits max zero n t h fits = elim h [ ]
scan-digits max (suc k) n t h fits = elim (Bool-cases (ltb n 10)) [
  | inl small ↦ rw small (scan_digit max n 0 n t fits (ltb→lt n 10 small) (omega arith))
  | inr large ↦
      let front : n / 10 < k = ground arith in
      rw (large, append_assoc, scan-digits max k (n / 10) ((b'0' + n % 10) ∷ t) front (omega arith))
        (scan_digit max n (n / 10) (n % 10) t fits (omega arith) (omega arith))
]

digits-cons : (k n : ℕ) → n < k → (c : ℕ) × (s : Bytes) × (digits k n ≡ c ∷ s) × IsDigit c
unfolding digits
digits-cons zero n h = elim h [ ]
digits-cons (suc k) n h = elim (Bool-cases (ltb n 10)) [
  | inl small ↦ (b'0' + n, [], rw small, (omega (arith, ltb→lt n 10 small)))
  | inr large ↦
      let front : n / 10 < k = ground arith in
      let (c, s, e, d) = digits-cons k (n / 10) front in
      (c, s ++ (b'0' + n % 10) ∷ [], rw (large, e), d)
]

parse-scan : (max c : ℕ) (s : Bytes) → IsDigit c → parse_usize max (c ∷ s) ≡ scan max (c ∷ s) 0
unfolding parse_usize
parse-scan max c [] h = ground arith
parse-scan max c (d ∷ s) h = ground arith

scan_self : (max n : ℕ) → n ≤ max → scan max (digits (suc n) n) 0 ≡ some n
unfolding scan
scan_self max n h =
    ap (λ t. scan max t 0) (sym (append-nil (digits (suc n) n)))
    ∙ scan-digits max (suc n) n [] (omega arith) h

-- Every `usize` is read back from its decimal print.
pub parse_usize-to_string : (max n : ℕ) → n ≤ max → parse_usize max (to_string n) ≡ some n
unfolding to_string
parse_usize-to_string max n h =
    let (c, s, e, d) = digits-cons (suc n) n (omega arith) in
    ap (parse_usize max) e
    ∙ parse-scan max c s d
    ∙ ap (λ t. scan max t 0) (sym e)
    ∙ scan_self max n h
