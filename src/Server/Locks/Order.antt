-- ===== src/Server/Locks/Order.antt =====
-- The order in which the handlers take the locks.
use esp32_music_server.Prelude.{
  ◌≡◌, refl, ap, Bool, true, false, ◌&&◌, List, [], ◌∷◌, ltb, ◌==◌, ==_iff, arith,
}
use esp32_music_server.Server.Locks.{
  Lock, card_state, buf, buf2, index, LockOp, lock, unlock, work, ServerRequest, request_locks,
}

-- Is the lock behind all of these in the order of the locks?
abbrev pub is_above : Lock → List Lock → Bool
is_above l [] = true
is_above l (h ∷ hs) = ltb (index h) (index l) && is_above l hs

-- Does a task with these guards take locks in their order, and drop each guard, the latest first?
unfoldable pub is_ordered : List Lock → List LockOp → Bool
is_ordered [] [] = true
is_ordered (h ∷ hs) [] = false
is_ordered hs (lock l ∷ ops) = is_above l hs && is_ordered (l ∷ hs) ops
is_ordered [] (unlock l ∷ ops) = false
is_ordered (h ∷ hs) (unlock l ∷ ops) = (index h == index l) && is_ordered hs ops
is_ordered hs (work ∷ ops) = is_ordered hs ops

pub request_locks-is_ordered : (r : ServerRequest) → is_ordered [] (request_locks r) ≡ true
unfolding is_ordered request_locks
request_locks-is_ordered ServerRequest.delete = refl
request_locks-is_ordered ServerRequest.list = refl
request_locks-is_ordered ServerRequest.stream = refl
request_locks-is_ordered ServerRequest.upload_new = refl
request_locks-is_ordered ServerRequest.upload_chunk = refl
request_locks-is_ordered ServerRequest.upload_end = refl
request_locks-is_ordered ServerRequest.delete_db = refl
request_locks-is_ordered ServerRequest.fs_music_delete = refl
request_locks-is_ordered ServerRequest.fs_dir = refl
request_locks-is_ordered ServerRequest.fs_file = refl
request_locks-is_ordered ServerRequest.get_chunk = refl

-- A task that is done holds nothing.
pub is_ordered_done : (held : List Lock) → is_ordered held [] ≡ true → held ≡ []
unfolding is_ordered
is_ordered_done [] h = refl
is_ordered_done (l ∷ hs) h = absurd (ground (arith, h))

pub is_ordered-lock :
    (hs : List Lock) (l : Lock) (ops : List LockOp)
    → is_ordered hs (lock l ∷ ops) ≡ true
    → (is_above l hs ≡ true) × (is_ordered (l ∷ hs) ops ≡ true)
unfolding is_ordered
is_ordered-lock [] l ops h = (refl, h)
is_ordered-lock (h' ∷ hs) l ops h = (ground (arith, h), ground (arith, h))

index_injective : (a b : Lock) → index a ≡ index b → a ≡ b
index_injective card_state card_state h = refl
index_injective card_state buf h = absurd (omega (arith, h))
index_injective card_state buf2 h = absurd (omega (arith, h))
index_injective buf card_state h = absurd (omega (arith, h))
index_injective buf buf h = refl
index_injective buf buf2 h = absurd (omega (arith, h))
index_injective buf2 card_state h = absurd (omega (arith, h))
index_injective buf2 buf h = absurd (omega (arith, h))
index_injective buf2 buf2 h = refl

pub is_ordered-unlock :
    (hs : List Lock) (l : Lock) (ops : List LockOp)
    → is_ordered hs (unlock l ∷ ops) ≡ true
    → (rest : List Lock) × (hs ≡ l ∷ rest)
unfolding is_ordered
is_ordered-unlock [] l ops h = absurd (ground (arith, h))
is_ordered-unlock (h' ∷ hs) l ops h = (
  hs,
  ap (λ x. x ∷ hs) (index_injective h' l ((==_iff (index h') (index l)).0 (ground (arith, h)))),
)

pub is_ordered_behind :
    (h : Lock) (hs : List Lock) (l : Lock) (ops : List LockOp)
    → is_ordered (h ∷ hs) (unlock l ∷ ops) ≡ true
    → is_ordered hs ops ≡ true
unfolding is_ordered
is_ordered_behind h hs l ops k = ground (arith, k)

pub is_ordered-work :
    (hs : List Lock) (ops : List LockOp)
    → is_ordered hs (work ∷ ops) ≡ true
    → is_ordered hs ops ≡ true
unfolding is_ordered
is_ordered-work [] ops h = h
is_ordered-work (l ∷ hs) ops h = h
