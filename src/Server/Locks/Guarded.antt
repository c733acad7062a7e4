-- ===== src/Server/Locks/Guarded.antt =====
-- Every lock that is taken has one guard, and the tasks take the locks in one order.
use esp32_music_server.Prelude.{
  ℕ, ◌+◌, ◌≤◌, ◌<◌, ◌≡◌, refl, sym, ap, ◌∙◌, Bool, true, false, List, [], ◌∷◌, ltb, ◌==◌, ==_iff,
  set_at, total, total-set_at, total_covers, ltb→lt, if◌then◌else◌, Bool-cases, inl, inr, arith,
}
use esp32_music_server.Runtime.Mutex.{InnerMutex, MutexLaws}
use esp32_music_server.Server.Locks.{
  Lock, index, LockOp, unlock, request_locks, LockTask, Tasks, guards, dropped, LockWork, locks,
  unlocks, runs, LockStep, works, arrives, leaves,
}
use esp32_music_server.Server.Locks.Order.{
  is_ordered, is_ordered_done, is_ordered-lock, is_ordered_behind, is_ordered-work,
  request_locks-is_ordered,
}
use esp32_music_server.Steps.{Reach, here, next}

abbrev pub one_if : Bool → ℕ
one_if true = 1
one_if false = 0

one_if_le : (b : Bool) → one_if b ≤ 1
one_if_le true = omega arith
one_if_le false = omega arith

pub record IsGuarded {M : Type 0} (inner : InnerMutex M) (n : ℕ) (s : Tasks M) : Type 0 where
  pub counted :
      (l : Lock)
      → total (λ t. guards l t.held) n s.tasks ≡ one_if (inner.is_locked (s.mutexes (index l)))
  pub ordered : (i : ℕ) → i < n → is_ordered (s.tasks i).held (s.tasks i).ops ≡ true

-- Only the changed task needs to be ordered anew.
set_at-ordered :
    (n i : ℕ) (f : ℕ → LockTask) (t : LockTask)
    → is_ordered t.held t.ops ≡ true
    → ((j : ℕ) → j < n → is_ordered (f j).held (f j).ops ≡ true)
    → (j : ℕ) → j < n
    → is_ordered (set_at f i t j).held (set_at f i t j).ops ≡ true
set_at-ordered n i f t h k j below = elim (Bool-cases (i == j)) [
  | inl same ↦ rw same h
  | inr other ↦ rw other (k j below)
]

-- The sum over the tasks, where one of them has changed what it holds and one mutex has changed with
-- it.
guards-tail :
    (l l' : Lock) (hs : List Lock)
    → (index l == index l') ≡ true
    → guards l' (l ∷ hs) ≡ 1 + guards l' hs
guards-tail l l' hs same = rw same refl

guards-other :
    (l l' : Lock) (hs : List Lock)
    → (index l == index l') ≡ false
    → guards l' (l ∷ hs) ≡ guards l' hs
guards-other l l' hs other = rw other refl

same_either : (b : Bool) → false ≡ (if b then false else false)
same_either true = refl
same_either false = refl

module _ {M : Type 0} {inner : InnerMutex M} {n : ℕ} where
  -- What is ordered, of what the task has left.
  pub now :
      (i : ℕ) (ops : List LockOp) {s : Tasks M}
      → (s.tasks i).ops ≡ ops
      → IsGuarded inner n s
      → i < n
      → is_ordered (s.tasks i).held ops ≡ true
  now i ops {s} front g below = ap (is_ordered (s.tasks i).held) (sym front) ∙ g.ordered i below

module _ {M : Type 0} {inner : InnerMutex M} (laws : MutexLaws inner) where
  -- A task that leaves drops what it holds.
  dropped-is_locked :
      (l : Lock) (held : List Lock) (mutexes : ℕ → M)
      → inner.is_locked (dropped inner held mutexes (index l))
        ≡ (if ltb 0 (guards l held) then false else inner.is_locked (mutexes (index l)))
  dropped-is_locked l [] mutexes = refl
  dropped-is_locked l (h ∷ hs) mutexes =
      dropped-is_locked l hs (set_at mutexes (index h) (inner.drop_guard (mutexes (index h))))
      ∙ elim (Bool-cases (index h == index l)) [
        | inl same ↦ rw same (rw (laws.drop_guard_frees (mutexes (index h))) (ground (arith)))
        | inr other ↦ rw other refl
      ]

module _ {M : Type 0} {inner : InnerMutex M} (laws : MutexLaws inner) {n : ℕ} where
  lock-counted :
      (i : ℕ) (l l' : Lock) (ops : List LockOp) (s : Tasks M)
      → i < n
      → inner.is_locked (s.mutexes (index l)) ≡ false
      → IsGuarded inner n s
      → total
          (λ t. guards l' t.held)
          n
          (set_at s.tasks i (record { ops = ops; held = l ∷ (s.tasks i).held }))
        ≡ one_if (
            inner.is_locked
              (set_at s.mutexes (index l) (inner.lock (s.mutexes (index l))) (index l')))
  lock-counted i l l' ops s below free g =
      let t : LockTask = record { ops = ops; held = l ∷ (s.tasks i).held } in
      let moved = total-set_at (λ t. guards l' t.held) n i s.tasks t below in
      elim (Bool-cases (index l == index l')) [
        | inl same ↦
            let here : index l ≡ index l' = (==_iff (index l) (index l')).0 same in
            let was =
              g.counted l'
              ∙ ap (λ k. one_if (inner.is_locked (s.mutexes k))) (sym here)
              ∙ ap one_if free in
            rw same (
              rw (laws.lock_locks (s.mutexes (index l)))
                (omega (arith, moved, was, guards-tail l l' (s.tasks i).held same)))
        | inr other ↦ rw other (
            rw (sym (g.counted l'))
              (omega (arith, moved, guards-other l l' (s.tasks i).held other)))
      ]

  unlock-counted :
      (i : ℕ) (l l' : Lock) (ops : List LockOp) (held : List Lock) (s : Tasks M)
      → i < n
      → (s.tasks i).held ≡ l ∷ held
      → IsGuarded inner n s
      → total (λ t. guards l' t.held) n (set_at s.tasks i (record { ops = ops; held = held }))
        ≡ one_if (
            inner.is_locked
              (set_at s.mutexes (index l) (inner.drop_guard (s.mutexes (index l))) (index l')))
  unlock-counted i l l' ops held s below front g =
      let t : LockTask = record { ops = ops; held = held } in
      let moved = total-set_at (λ t. guards l' t.held) n i s.tasks t below in
      let before = ap (guards l') front in
      elim (Bool-cases (index l == index l')) [
        | inl same ↦
            let bound = one_if_le (inner.is_locked (s.mutexes (index l'))) in
            rw same (
              rw (laws.drop_guard_frees (s.mutexes (index l)))
                (omega (arith, moved, before, g.counted l', bound, guards-tail l l' held same)))
        | inr other ↦
            rw other
              (rw (sym (g.counted l')) (omega (arith, moved, before, guards-other l l' held other)))
      ]

  pub Work-IsGuarded :
      {s t : Tasks M} → LockWork inner n s t → IsGuarded inner n s → IsGuarded inner n t
  unfolding is_ordered
  Work-IsGuarded {s} (locks i l ops below front free e) g = rw e (record {
    counted = λ l'. lock-counted i l l' ops s below free g;
    ordered =
        set_at-ordered n i s.tasks _ ((is_ordered-lock _ l ops (now i _ front g below)).1)
          g.ordered;
  })
  Work-IsGuarded {s} (unlocks i l ops held below front top e) g = rw e (record {
    counted = λ l'. unlock-counted i l l' ops held s below top g;
    ordered =
        set_at-ordered n i s.tasks _
          (is_ordered_behind l held l ops
            (ap (λ h. is_ordered h (unlock l ∷ ops)) (sym top) ∙ now i _ front g below))
          g.ordered;
  })
  Work-IsGuarded {s} (runs i ops below front e) g = rw e (record {
    counted = λ l'. omega (
      arith,
      g.counted l',
      total-set_at (λ t. guards l' t.held) n i s.tasks
          (record { ops = ops; held = (s.tasks i).held }) below,
    );
    ordered =
        set_at-ordered n i s.tasks _ (is_ordered-work _ ops (now i _ front g below)) g.ordered;
  })

  leave-counted :
      (i : ℕ) (l : Lock) (s : Tasks M)
      → i < n
      → IsGuarded inner n s
      → total (λ t. guards l t.held) n (set_at s.tasks i (record { ops = []; held = [] }))
        ≡ one_if (inner.is_locked (dropped inner (s.tasks i).held s.mutexes (index l)))
  leave-counted i l s below g =
      let count : LockTask → ℕ = λ t. guards l t.held in
      let moved = total-set_at count n i s.tasks (record { ops = []; held = [] }) below in
      let covered = total_covers count n i s.tasks below in
      let bound = one_if_le (inner.is_locked (s.mutexes (index l))) in
      rw (dropped-is_locked laws l (s.tasks i).held s.mutexes)
        (elim (Bool-cases (ltb 0 (guards l (s.tasks i).held))) [
          | inl some ↦ rw some (omega (arith, moved, covered, bound, g.counted l, ltb→lt _ _ some))
          | inr none ↦ rw none (rw (sym (g.counted l)) (ground (arith, moved, none)))
        ])

  pub Step-IsGuarded :
      {s t : Tasks M} → LockStep inner n s t → IsGuarded inner n s → IsGuarded inner n t
  unfolding is_ordered
  Step-IsGuarded (works w) g = Work-IsGuarded w g
  Step-IsGuarded {s} (arrives i r below idle e) g =
      let free : (s.tasks i).held ≡ [] = is_ordered_done _ (now i [] idle g below) in
      rw e (record {
        counted = λ l. omega (
          arith,
          g.counted l,
          total-set_at (λ t. guards l t.held) n i s.tasks
              (record { ops = request_locks r; held = (s.tasks i).held }) below,
        );
        ordered =
            set_at-ordered n i s.tasks _
              (ap (λ h. is_ordered h (request_locks r)) free ∙ request_locks-is_ordered r)
              g.ordered;
      })
  Step-IsGuarded {s} (leaves i below e) g = rw e (record {
    counted = λ l. leave-counted i l s below g;
    ordered = set_at-ordered n i s.tasks _ refl g.ordered;
  })

  pub Reach-IsGuarded :
      {s t : Tasks M} → IsGuarded inner n s → Reach (LockStep inner n) s t → IsGuarded inner n t
  Reach-IsGuarded g here = g
  Reach-IsGuarded g (next r st) = Step-IsGuarded st (Reach-IsGuarded g r)
