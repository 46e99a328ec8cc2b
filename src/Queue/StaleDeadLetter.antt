-- ===== src/Queue/StaleDeadLetter.antt =====
-- A dead letter from a caller that has lost the lease.
use celsian.Base.{
  ◌+◌, ◌≤◌, ◌≡◌, refl, ==_refl, true, Option, some, [], ◌∷◌, ◌++◌, arith, Text, text_eq, length,
  length-append,
}
use celsian.Map
use celsian.Queue.Types.{DeadLetterEntry, InFlightEntry, MemoryQueue}
use celsian.Queue.{dead_letter, push_dead, release_held, is_stale}
use celsian.Queue.Reclaim.{keep_newest_short}
use celsian.Queue.Times.{times-map-append, times-map-one}
use celsian.Queue.Conservation.{tally}

module _ {I : Type 0} where
  release_held_stale :
      (id : Text) (t : Option Text) (entry : InFlightEntry I) (q : MemoryQueue I)
      → Map.get id q.in_flight ≡ some entry
      → is_stale t entry.lease_token ≡ true
      → release_held id t q ≡ q
  unfolding release_held
  release_held_stale id t entry q e stale = rw (e, release_held) (rw stale refl)

  -- Where the lease belongs to another, `deadLetter` buries the job and leaves the lease: the job
  -- stands in the queue once more than before, if there is room for a dead letter.
  pub tally-dead_letter_stale :
      (d : DeadLetterEntry I) (t : Option Text) (entry : InFlightEntry I) (q : MemoryQueue I)
      → Map.get d.message.id q.in_flight ≡ some entry
      → is_stale t entry.lease_token ≡ true
      → length q.dead + 1 ≤ q.max_dead_letters
      → tally d.message.id (dead_letter d t q) ≡ tally d.message.id q + 1
  unfolding dead_letter push_dead
  tally-dead_letter_stale d t entry q e stale room =
      let fits : length (q.dead ++ d ∷ []) ≤ q.max_dead_letters =
        omega (arith, room, length-append q.dead (d ∷ [])) in
      rw (release_held_stale d.message.id t entry q e stale) (
        rw (keep_newest_short q.max_dead_letters (q.dead ++ d ∷ []) fits) (
          ground (
            arith,
            times-map-append (λ (x : DeadLetterEntry I). x.message.id) d.message.id q.dead (d ∷ []),
            times-map-one (λ (x : DeadLetterEntry I). x.message.id) d.message.id d,
            ==_refl d.message.id,
          )))
