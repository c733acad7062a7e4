-- ===== src/Server/Locks/Done.antt =====
-- No task waits for a lock for ever, and no lock has two holders.
use esp32_music_server.Prelude.{
  ℕ, zero, suc, ◌≤◌, ◌<◌, ◌≡◌, refl, sym, ap, ◌∙◌, false, List, [], ◌∷◌, length, ltb, total,
  total-set_at, total_covers, total_member, total_zero, ltb→lt, Bool-cases, inl, inr, arith,
}
use esp32_music_server.Steps.{Reach, Inevitably, already, soon}
use esp32_music_server.Runtime.Mutex.{InnerMutex, MutexLaws}
use esp32_music_server.Server.Locks.{
  Lock, index, LockOp, LockTask, Tasks, guards, LockWork, locks, unlocks, runs, LockStep,
}
use esp32_music_server.Server.Locks.Order.{is_ordered}
use esp32_music_server.Server.Locks.Guarded.{one_if, IsGuarded, Work-IsGuarded, Reach-IsGuarded}
use esp32_music_server.Server.Locks.Progress.{holder, progress}

-- Nothing is left to do.
abbrev pub IsIdle : {M : Type 0} → ℕ → Tasks M → Type 0
IsIdle n s = (i : ℕ) → i < n → (s.tasks i).ops ≡ []

abbrev pub AllFree : {M : Type 0} → InnerMutex M → Tasks M → Type 0
AllFree inner s = (l : Lock) → inner.is_locked (s.mutexes (index l)) ≡ false

-- The tasks before the first request.
pub record IsAtRest {M : Type 0} (inner : InnerMutex M) (n : ℕ) (s : Tasks M) : Type 0 where
  pub idle : IsIdle n s
  pub holds_nothing : (i : ℕ) → i < n → (s.tasks i).held ≡ []
  pub all_free : AllFree inner s

module _ {M : Type 0} {inner : InnerMutex M} {n : ℕ} {s : Tasks M} where
  pub IsAtRest-IsGuarded : IsAtRest inner n s → IsGuarded inner n s
  unfolding is_ordered
  IsAtRest-IsGuarded rest = record {
    counted = λ l.
        total_zero (λ t. guards l t.held) n s.tasks (λ i h. ap (guards l) (rest.holds_nothing i h))
        ∙ ap one_if (sym (rest.all_free l));
    ordered = λ i h. rw (rest.holds_nothing i h) (rw (rest.idle i h) refl);
  }

  IsIdle-AllFree : IsGuarded inner n s → IsIdle n s → AllFree inner s
  IsIdle-AllFree g idle l = elim (Bool-cases (inner.is_locked (s.mutexes (index l)))) [
    | inl taken ↦
        let (i, below, holds, busy) = holder s g l taken in
        absurd (omega (arith, busy, ap length (idle i below)))
    | inr free ↦ free
  ]

abbrev ops_left : LockTask → ℕ
ops_left t = length t.ops

pub Work-ops_left :
    {M : Type 0} {inner : InnerMutex M} {n : ℕ} {s t : Tasks M}
    → LockWork inner n s t
    → total ops_left n t.tasks < total ops_left n s.tasks
Work-ops_left {n = n} {s} (locks i l ops below front free e) = rw e (
    omega (
      arith,
      total-set_at ops_left n i s.tasks (record { ops = ops; held = l ∷ (s.tasks i).held }) below,
      ap length front,
    ))
Work-ops_left {n = n} {s} (unlocks i l ops held below front top e) = rw e (
    omega (
      arith,
      total-set_at ops_left n i s.tasks (record { ops = ops; held = held }) below,
      ap length front,
    ))
Work-ops_left {n = n} {s} (runs i ops below front e) = rw e (
    omega (
      arith,
      total-set_at ops_left n i s.tasks (record { ops = ops; held = (s.tasks i).held }) below,
      ap length front,
    ))

nothing_left : (ops : List LockOp) → length ops ≡ 0 → ops ≡ []
nothing_left [] h = refl
nothing_left (o ∷ ops) h = absurd (omega arith)

-- All tasks are done, and all locks free.
abbrev pub IsDone : {M : Type 0} → InnerMutex M → ℕ → Tasks M → Type 0
IsDone inner n s = IsIdle n s × AllFree inner s

finished :
    {M : Type 0} {inner : InnerMutex M} {n : ℕ} (s : Tasks M)
    → IsGuarded inner n s
    → total ops_left n s.tasks ≤ 0
    → IsDone inner n s
finished {n = n} s g none =
    let idle : IsIdle n s = λ i below.
      nothing_left (s.tasks i).ops (omega (arith, none, total_covers ops_left n i s.tasks below)) in
    (idle, IsIdle-AllFree g idle)

module _ {M : Type 0} {inner : InnerMutex M} (laws : MutexLaws inner) {n : ℕ} where
  ends :
      (k : ℕ) (s : Tasks M)
      → total ops_left n s.tasks ≤ k
      → IsGuarded inner n s
      → Inevitably (LockWork inner n) (IsDone inner n) s
  ends zero s enough g = already (finished s g enough)
  ends (suc k) s enough g = elim (Bool-cases (ltb 0 (total ops_left n s.tasks))) [
    | inr none ↦ already (finished s g (ground (arith, none)))
    | inl some ↦
        let (i, below, busy) = total_member ops_left n s.tasks (ltb→lt _ _ some) in
        let (t, w) = progress s g i below busy in
        soon t w
          (λ u v. ends k u (omega (arith, enough, Work-ops_left v)) (Work-IsGuarded laws v g))
  ]

  -- No request waits for a lock for ever: in any state that the tasks reach from rest, however
  -- requests arrived, left early and interleaved, and however the work in progress goes on without
  -- new requests, all tasks come to be done and all locks free. A task can always do what lies
  -- between two locks.
  pub Reach-IsDone :
      {start s : Tasks M}
      → IsAtRest inner n start
      → Reach (LockStep inner n) start s
      → Inevitably (LockWork inner n) (IsDone inner n) s
  Reach-IsDone {s = s} rest reach =
      ends (total ops_left n s.tasks) s (omega arith)
        (Reach-IsGuarded laws (IsAtRest-IsGuarded rest) reach)
