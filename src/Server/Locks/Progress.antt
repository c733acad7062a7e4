-- ===== src/Server/Locks/Progress.antt =====
-- While a task has something left to do, one of the tasks can go on.
use esp32_music_server.Prelude.{
  ℕ, ◌<◌, ◌≡◌, refl, ap, ◌∙◌, true, false, List, [], ◌∷◌, length, ◌==◌, total_member, Bool-cases,
  inl, inr, arith,
}
use esp32_music_server.Runtime.Mutex.{InnerMutex}
use esp32_music_server.Server.Locks.{
  Lock, card_state, buf, buf2, index, LockOp, lock, unlock, work, Tasks, guards, LockWork, locks,
  unlocks, runs,
}
use esp32_music_server.Server.Locks.Order.{
  is_above, is_ordered_done, is_ordered-lock, is_ordered-unlock,
}
use esp32_music_server.Server.Locks.Guarded.{one_if, now, IsGuarded}

is_above-guards :
    (l l' : Lock) (hs : List Lock) → is_above l hs ≡ true → 0 < guards l' hs → index l' < index l
is_above-guards l l' [] h k = absurd (omega arith)
is_above-guards l l' (x ∷ hs) h k = elim (Bool-cases (index x == index l')) [
  | inl same ↦ ground (arith, h, same)
  | inr other ↦ is_above-guards l l' hs (ground (arith, h)) (ground (arith, k, other))
]

-- No lock behind those that the task holds is taken.
abbrev Free : {M : Type 0} → InnerMutex M → Tasks M → List Lock → Type 0
Free inner s held =
    (l : Lock) → is_above l held ≡ true → inner.is_locked (s.mutexes (index l)) ≡ false

module _ {M : Type 0} {inner : InnerMutex M} {n : ℕ} (s : Tasks M) (g : IsGuarded inner n s) where
  -- Then the task can go on.
  goes_on :
      (i : ℕ) (ops : List LockOp)
      → i < n
      → (s.tasks i).ops ≡ ops
      → 0 < length ops
      → Free inner s (s.tasks i).held
      → (t : Tasks M) × LockWork inner n s t
  goes_on i [] below front some free = absurd (omega arith)
  goes_on i (lock l ∷ ops) below front some free =
      let (above, rest) = is_ordered-lock _ l ops (now i _ front g below) in
      (_, locks i l ops below front (free l above) refl)
  goes_on i (unlock l ∷ ops) below front some free =
      let (rest, top) = is_ordered-unlock _ l ops (now i _ front g below) in
      (_, unlocks i l ops rest below front top refl)
  goes_on i (work ∷ ops) below front some free = (_, runs i ops below front refl)

  -- The holder of a lock has something left to do.
  pub holder :
      (l : Lock)
      → inner.is_locked (s.mutexes (index l)) ≡ true
      → (i : ℕ) × (i < n) × (0 < guards l (s.tasks i).held) × (0 < length (s.tasks i).ops)
  holder l taken =
      let one = g.counted l ∙ ap one_if taken in
      let (i, below, holds) = total_member (λ t. guards l t.held) n s.tasks (omega (arith, one)) in
      (i, below, holds, busy i below holds (s.tasks i).ops refl)
    where
      busy :
          (i : ℕ)
          → i < n
          → 0 < guards l (s.tasks i).held
          → (ops : List LockOp) → (s.tasks i).ops ≡ ops
          → 0 < length (s.tasks i).ops
      busy i below holds [] front =
          let none = ap (guards l) (is_ordered_done _ (now i [] front g below)) in
          absurd (omega (arith, none, holds))
      busy i below holds (o ∷ ops) front = omega (arith, ap length front)

  -- Where a lock is taken and those behind it are free, a step can be made.
  holder_goes_on :
      (l : Lock)
      → inner.is_locked (s.mutexes (index l)) ≡ true
      → ((l' : Lock) → index l < index l' → inner.is_locked (s.mutexes (index l')) ≡ false)
      → (t : Tasks M) × LockWork inner n s t
  holder_goes_on l taken free =
      let (i, below, holds, busy) = holder l taken in
      goes_on i (s.tasks i).ops below refl busy
        (λ l' above. free l' (is_above-guards l' l _ above holds))

  abbrev IsFree : Lock → Type 0
  IsFree l = inner.is_locked (s.mutexes (index l)) ≡ false

  behind_card-IsFree : IsFree buf → IsFree buf2 → (l : Lock) → 0 < index l → IsFree l
  behind_card-IsFree f f2 card_state h = absurd (omega arith)
  behind_card-IsFree f f2 buf h = f
  behind_card-IsFree f f2 buf2 h = f2

  behind_buf-IsFree : IsFree buf2 → (l : Lock) → 1 < index l → IsFree l
  behind_buf-IsFree f2 card_state h = absurd (omega arith)
  behind_buf-IsFree f2 buf h = absurd (omega arith)
  behind_buf-IsFree f2 buf2 h = f2

  behind_all-IsFree : (l : Lock) → 2 < index l → IsFree l
  behind_all-IsFree card_state h = absurd (omega arith)
  behind_all-IsFree buf h = absurd (omega arith)
  behind_all-IsFree buf2 h = absurd (omega arith)

  any-IsFree : IsFree card_state → IsFree buf → IsFree buf2 → (l : Lock) → IsFree l
  any-IsFree f f1 f2 card_state = f
  any-IsFree f f1 f2 buf = f1
  any-IsFree f f1 f2 buf2 = f2

  -- While a task has something left to do, a step can be made.
  pub progress : (i : ℕ) → i < n → 0 < length (s.tasks i).ops → (t : Tasks M) × LockWork inner n s t
  progress i below some = elim (Bool-cases (inner.is_locked (s.mutexes 2))) [
    | inl taken ↦ holder_goes_on buf2 taken behind_all-IsFree
    | inr free2 ↦ elim (Bool-cases (inner.is_locked (s.mutexes 1))) [
      | inl taken ↦ holder_goes_on buf taken (behind_buf-IsFree free2)
      | inr free1 ↦ elim (Bool-cases (inner.is_locked (s.mutexes 0))) [
        | inl taken ↦ holder_goes_on card_state taken (behind_card-IsFree free1 free2)
        | inr free0 ↦
            goes_on i (s.tasks i).ops below refl some (λ l above. any-IsFree free0 free1 free2 l)
      ]
    ]
  ]
