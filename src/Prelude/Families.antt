-- ===== src/Prelude/Families.antt =====
-- Families indexed by a number: a change at one index, and sums over the first members.
use Prim.Native.Nat.{ℕ, zero, suc, ◌+◌, ◌≤◌, ◌<◌}
use mathlib.Core.Path.{◌≡◌, refl}
use mathlib.Core.Logic.{◌≢◌, inl, inr}
use native.Mathlib.Omega.{arith}
use esp32_music_server.Prelude.Tests.{◌==◌, ==_iff, if◌then◌else◌, Bool-cases, ltb, ltb→lt}

abbrev pub set_at {ℓ} : {A : Type ℓ} → (ℕ → A) → ℕ → A → ℕ → A
set_at f i a j = if i == j then a else f j

module _ {ℓ} {A : Type ℓ} (w : A → ℕ) where
  abbrev pub total : ℕ → (ℕ → A) → ℕ
  total zero f = 0
  total (suc n) f = total n f + w (f n)

  total-set_above : (n i : ℕ) (f : ℕ → A) (a : A) → n ≤ i → total n (set_at f i a) ≡ total n f
  total-set_above zero i f a h = refl
  total-set_above (suc n) i f a h = ground (arith, total-set_above n i f a)

  pub total-set_at :
      (n i : ℕ) (f : ℕ → A) (a : A) → i < n → total n (set_at f i a) + w (f i) ≡ total n f + w a
  total-set_at zero i f a h = absurd (omega arith)
  total-set_at (suc n) i f a h = elim (Bool-cases (i == n)) [
    | inl last ↦ let here : i ≡ n = (==_iff i n).0 last in ground (arith, total-set_above n i f a)
    | inr before ↦ ground (arith, total-set_at n i f a)
  ]

  pub total_covers : (n i : ℕ) (f : ℕ → A) → i < n → w (f i) ≤ total n f
  total_covers zero i f h = absurd (omega arith)
  total_covers (suc n) i f h = elim (Bool-cases (i == n)) [
    | inl last ↦ let here : i ≡ n = (==_iff i n).0 last in ground arith
    | inr before ↦ ground (arith, total_covers n i f)
  ]

  -- A sum that is not zero has a member that is not.
  pub total_member : (n : ℕ) (f : ℕ → A) → 0 < total n f → (i : ℕ) × (i < n) × (0 < w (f i))
  total_member zero f h = absurd (omega arith)
  total_member (suc n) f h = elim (Bool-cases (ltb 0 (w (f n)))) [
    | inl last ↦ (n, omega arith, ltb→lt _ _ last)
    | inr before ↦
        let (i, below, here) = total_member n f (ground (arith, before, h)) in
        (i, omega (arith, below), here)
  ]

  -- Two members add up to the sum at most.
  pub total_covers_two :
      (n i j : ℕ) (f : ℕ → A) → i < n → j < n → i ≢ j → w (f i) + w (f j) ≤ total n f
  total_covers_two zero i j f h k ne = absurd (omega arith)
  total_covers_two (suc n) i j f h k ne = elim (Bool-cases (i == n)) [
    | inl a ↦
        let last : i ≡ n = (==_iff i n).0 a in
        let below : j < n = j_below last in ground (arith, total_covers n j f below)
    | inr a ↦ elim (Bool-cases (j == n)) [
      | inl b ↦
          let last : j ≡ n = (==_iff j n).0 b in
          let below : i < n = ground (arith, a) in ground (arith, total_covers n i f below)
      | inr b ↦ ground (arith, total_covers_two n i j f (ground (arith, a)) (ground (arith, b)) ne)
    ]
  ]
    where
      j_below : i ≡ n → j < n
      j_below last = elim (Bool-cases (j == n)) [
        | inl b ↦ absurd (ne (omega (arith, last, (==_iff j n).0 b)))
        | inr b ↦ ground (arith, b)
      ]

  pub total_zero : (n : ℕ) (f : ℕ → A) → ((i : ℕ) → i < n → w (f i) ≡ 0) → total n f ≡ 0
  total_zero zero f h = refl
  total_zero (suc n) f h =
      omega (arith, h n (omega arith), total_zero n f (λ i k. h i (omega (arith, k))))
