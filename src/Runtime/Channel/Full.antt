-- ===== src/Runtime/Channel/Full.antt =====
-- What `is_full` answers in the two runtimes.
use esp32_music_server.Prelude.{
  ℕ, ◌+◌, ◌-◌, ◌≤◌, ◌≡◌, ◌↔◌, Bool, true, false, ◌==◌, length, ap, arith,
}
use esp32_music_server.Run.{Out, ok, err, panic, hang}
use esp32_music_server.Runtime.Channel.Laws.{MpscLaws, EmbassyLaws}
use esp32_music_server.Runtime.Channel.{Mpsc, EmbassyChannel, tokio_channel, embassy_channel}

half_test : (n bound : ℕ) → n ≤ bound → ((n == bound - n) ≡ true) ↔ (n + n ≡ bound)
half_test n bound h = ground arith

full_test : (n bound : ℕ) → ((n == bound) ≡ true) ↔ (n ≡ bound)
full_test n bound = ground arith

abbrev answer : {C : Type 0} → Out ⊥ C Bool → Bool
answer (ok b s) = b
answer (err e s) = false
answer (panic s) = false
answer (hang s) = false

-- Where the channel over embassy says that it is full, its queue has as many messages as it takes.
-- Over tokio the same method says so where the queue is half full: where twice its length is the
-- bound. The two numbers are taken as they are: neither channel changes.
pub is_full_iff :
    {T C E : Type 0} (bound : ℕ) (tokio : Mpsc T C) (embassy : EmbassyChannel T E)
    (laws : MpscLaws bound tokio) (laws' : EmbassyLaws bound embassy) (s : C) (s' : E)
    → (((tokio_channel tokio).is_full s ≡ ok true s)
        ↔ (length (laws.queue s) + length (laws.queue s) ≡ bound))
      × (((embassy_channel embassy).is_full s' ≡ ok true s') ↔ (length (laws'.queue s') ≡ bound))
unfolding tokio_channel embassy_channel
is_full_iff bound tokio embassy laws laws' s s' =
    let half = half_test (length (laws.queue s)) bound (laws.queue_fits s) in
    let full = full_test (length (laws'.queue s')) bound in
    rw (laws.len_is s) (
      rw (laws.capacity_is s) (
        rw (laws'.len_is s') (
          rw (laws'.capacity_is s') (
            ((λ e. half.0 (ap answer e)), λ e. ap (λ b. ok b s) (half.1 e)),
            ((λ e. full.0 (ap answer e)), λ e. ap (λ b. ok b s') (full.1 e)),
          ))))
