-- ===== src/Queue/Conservation.antt =====
-- No job is lost or doubled: the number of times that an id stands in the queue, waiting, leased or
-- dead, under the operations that neither add nor finish a job.
use celsian.Base.{
  ℕ, ◌+◌, ◌≤◌, ◌≡◌, ==_refl, refl, ◌∙◌, inl, inr, false, Option, some, List, [], ◌∷◌, ◌++◌, map,
  arith, Text, ◌==◌, text_eq, leb, All, length, length-append, take, min, Bool-cases, Option-cases,
  if◌then◌else◌,
}
use celsian.Map
use celsian.Map.{Map, keys}
use celsian.Map.Laws.{All-get, length-delete_present}
use celsian.Queue.Types.{TaskFailure, QueueMessage, DeadLetterEntry, InFlightEntry, MemoryQueue}
use celsian.Queue.{
  QueueOp, push_op, pop_op, ack_op, nack_op, extend_op, dead_letter_op, redrive_op, redrive_many_op,
  purge_op, step, pop, nack, extend, dead_letter, redrive_dead_letter, redrive_dead_letters,
  push_dead, lease_next, deliver, splice_first, is_stale, release_held, or_else, expire, dead_entry,
  retry, reset_for_redrive, redrive_all,
}
use celsian.Queue.Validity.{IsValid, IsKeyed}
use celsian.Queue.Reclaim.{
  live, requeued, buried, reclaimed, reclaim_expired_lem, keep_newest_short,
}
use celsian.Queue.Times.{
  times, times-map-append, times-map-one, times-splice_first, times-take-drop, times-keys-delete,
  times-keys-set_new, times-keys-set_old,
}

module _ {I : Type 0} where
  abbrev message_id : QueueMessage I → Text
  message_id m = m.id

  abbrev dead_id : DeadLetterEntry I → Text
  dead_id d = d.message.id

  -- How often a job stands in the queue: waiting, leased or dead.
  abbrev pub tally : Text → MemoryQueue I → ℕ
  tally k q =
      times k (map message_id q.messages)
      + times k (keys q.in_flight)
      + times k (map dead_id q.dead)

  -- Room for every leased job among the dead letters.
  abbrev pub HasRoom : MemoryQueue I → Type 0
  HasRoom q = length q.dead + length q.in_flight ≤ q.max_dead_letters

  times-reclaimed :
      (k : Text) (timeout now : ℕ) (m : Map Text (InFlightEntry I))
      → All IsKeyed m
      → times k (keys m)
        ≡ times k (keys (live now m))
          + times k (map message_id (requeued timeout now m))
          + times k (map dead_id (buried timeout now m))
  unfolding times live requeued buried expire dead_entry
  times-reclaimed k timeout now [] h = omega arith
  times-reclaimed k timeout now ((id, x) ∷ m) h =
      ground (arith, times-reclaimed k timeout now m h.1)

  length-buried-le :
      (timeout now : ℕ) (m : Map Text (InFlightEntry I)) → length (buried timeout now m) ≤ length m
  unfolding buried
  length-buried-le timeout now [] = omega arith
  length-buried-le timeout now ((id, x) ∷ m) = ground (arith, length-buried-le timeout now m)

  tally-reclaimed :
      (k : Text) (now : ℕ) (q : MemoryQueue I)
      → IsValid q
      → HasRoom q
      → tally k (reclaimed now q.in_flight q) ≡ tally k q
  tally-reclaimed k now q v room =
      let dead' = buried q.visibility_timeout_ms now q.in_flight in
      let fits : length (q.dead ++ dead') ≤ q.max_dead_letters = omega (
        arith,
        room,
        length-append q.dead dead',
        length-buried-le q.visibility_timeout_ms now q.in_flight,
      ) in
      rw (keep_newest_short q.max_dead_letters (q.dead ++ dead') fits) (
        omega (
          arith,
          times-reclaimed k q.visibility_timeout_ms now q.in_flight v.keyed,
          times-map-append message_id k q.messages
              (requeued q.visibility_timeout_ms now q.in_flight),
          times-map-append dead_id k q.dead dead',
        ))

  tally-lease_next :
      (k : Text) (now : ℕ) (t : Text) (q : MemoryQueue I)
      → ((j : Text) → tally j q ≤ 1)
      → tally k (lease_next now t q).0 ≡ tally k q
  unfolding lease_next
  tally-lease_next k now t q unique =
      elim (Option-cases
        (splice_first (λ (m : QueueMessage I). leb m.available_at now) q.messages)) [
          | inl e ↦ rw (e, lease_next)
          | inr ((m, rest), e) ↦
              let here = times-splice_first message_id m.id _ q.messages e in
              let free : times m.id (keys q.in_flight) ≡ 0 =
                omega (arith, unique m.id, rw (==_refl m.id) at here) in
              rw (e, lease_next)
                (omega (
                  arith,
                  times-splice_first message_id k _ q.messages e,
                  times-keys-set_new k m.id
                      (record {
                        message = deliver t m;
                        lease_token = t;
                        expires_at = now + q.visibility_timeout_ms;
                      })
                      q.in_flight free,
                ))
        ]

  tally-pop :
      (k : Text) (r now : ℕ) (t : Text) (q : MemoryQueue I)
      → IsValid q
      → HasRoom q
      → ((j : Text) → tally j q ≤ 1)
      → tally k (pop r now t q).0 ≡ tally k q
  unfolding pop
  tally-pop k r now t q v room unique = rw (reclaim_expired_lem r q v) (
      tally-lease_next k now t _ (λ j. rw (tally-reclaimed j r q v room) (unique j))
      ∙ tally-reclaimed k r q v room)

  -- The entry under an id, and what taking it out leaves.
  times-keys-found :
      (k id : Text) (entry : InFlightEntry I) (m : Map Text (InFlightEntry I))
      → Map.get id m ≡ some entry
      → times k (keys m) ≡ times k (keys (Map.delete id m)) + (if id == k then 1 else 0)
  times-keys-found k id entry m e = times-keys-delete k id m (λ n. cc)

  tally-nack :
      (k : Text) (n : ℕ) (id : Text) (d : Option ℕ) (t : Option Text) (f : Option TaskFailure)
      (q : MemoryQueue I)
      → IsValid q
      → tally k (nack n id d t f q) ≡ tally k q
  unfolding nack
  tally-nack k n id d t f q v = elim (Option-cases (Map.get id q.in_flight)) [
    | inl e ↦ rw (e, nack)
    | inr (entry, e) ↦ elim (Bool-cases (is_stale t entry.lease_token)) [
      | inl stale ↦ rw (e, nack) (rw stale)
      | inr own ↦
          let m' = retry n (or_else d 1000) f entry.message in
          let name : m'.id ≡ id =
            unfold retry in (All-get IsKeyed id entry q.in_flight e v.keyed).0 in
          rw (e, nack)
            (rw own (
              ground (
                arith,
                name,
                times-keys-found k id entry q.in_flight e,
                times-map-append message_id k q.messages (m' ∷ []),
                times-map-one message_id k m',
              )))
    ]
  ]

  tally-extend :
      (k : Text) (n : ℕ) (id t : Text) (x : Option ℕ) (q : MemoryQueue I)
      → tally k (extend n id t x q).0 ≡ tally k q
  unfolding extend
  tally-extend k n id t x q = elim (Option-cases (Map.get id q.in_flight)) [
    | inl e ↦ rw (e, extend)
    | inr (entry, e) ↦ elim (Bool-cases (entry.lease_token == t)) [
      | inl own ↦
          rw (e, extend)
            (rw own (
              omega (
                arith,
                times-keys-set_old k id
                    (record entry { expires_at = n + or_else x q.visibility_timeout_ms })
                    q.in_flight (λ missing. cc),
              )))
      | inr stale ↦ rw (e, extend) (rw stale)
    ]
  ]

  reset-id : (n : ℕ) (m : QueueMessage I) → (reset_for_redrive n m).id ≡ m.id
  unfolding reset_for_redrive
  reset-id n m = refl

  tally-redrive :
      (k : Text) (n : ℕ) (id : Text) (q : MemoryQueue I)
      → tally k (redrive_dead_letter n id q).0 ≡ tally k q
  unfolding redrive_dead_letter
  tally-redrive k n id q =
      elim (Option-cases (splice_first (λ (d : DeadLetterEntry I). d.message.id == id) q.dead)) [
        | inl e ↦ rw (e, redrive_dead_letter)
        | inr ((d, rest), e) ↦
            rw (e, redrive_dead_letter)
              (ground (
                arith,
                times-splice_first dead_id k _ q.dead e,
                times-map-append message_id k q.messages (reset_for_redrive n d.message ∷ []),
                times-map-one message_id k (reset_for_redrive n d.message),
                reset-id n d.message,
              ))
      ]

  times-redrive_all :
      (k : Text) (n : ℕ) (ds : List (DeadLetterEntry I)) (ms : List (QueueMessage I))
      → times k (map message_id (redrive_all n ds ms))
        ≡ times k (map message_id ms) + times k (map dead_id ds)
  unfolding redrive_all times
  times-redrive_all k n [] ms = omega arith
  times-redrive_all k n (d ∷ ds) ms = ground (
    arith,
    times-redrive_all k n ds (ms ++ reset_for_redrive n d.message ∷ []),
    times-map-append message_id k ms (reset_for_redrive n d.message ∷ []),
    reset-id n d.message,
  )

  tally-redrive_many :
      (k : Text) (n : ℕ) (l : Option ℕ) (q : MemoryQueue I)
      → tally k (redrive_dead_letters n l q).0 ≡ tally k q
  unfolding redrive_dead_letters
  tally-redrive_many k n l q =
      let j = min (length q.dead) (or_else l (length q.dead)) in
      omega (
        arith,
        times-redrive_all k n (take j q.dead) q.messages,
        times-take-drop dead_id k j q.dead,
      )

  release_held_own :
      (id : Text) (t : Option Text) (entry : InFlightEntry I) (q : MemoryQueue I)
      → Map.get id q.in_flight ≡ some entry
      → is_stale t entry.lease_token ≡ false
      → release_held id t q ≡ record q { in_flight = Map.delete id q.in_flight }
  unfolding release_held
  release_held_own id t entry q e own = rw (e, release_held) (rw own)

  tally-dead_letter :
      (k : Text) (d : DeadLetterEntry I) (t : Option Text) (entry : InFlightEntry I)
      (q : MemoryQueue I)
      → HasRoom q
      → Map.get d.message.id q.in_flight ≡ some entry
      → is_stale t entry.lease_token ≡ false
      → tally k (dead_letter d t q) ≡ tally k q
  unfolding dead_letter push_dead
  tally-dead_letter k d t entry q room e own =
      let rest = Map.delete d.message.id q.in_flight in
      let fits : length (q.dead ++ d ∷ []) ≤ q.max_dead_letters = omega (
        arith,
        room,
        length-append q.dead (d ∷ []),
        length-delete_present d.message.id q.in_flight (λ missing. cc),
      ) in
      rw (release_held_own d.message.id t entry q e own) (
        rw (keep_newest_short q.max_dead_letters (q.dead ++ d ∷ []) fits) (
          omega (
            arith,
            times-keys-found k d.message.id entry q.in_flight e,
            times-map-append dead_id k q.dead (d ∷ []),
            times-map-one dead_id k d,
          )))

  -- The operations that neither bring in a job nor finish or discard one. A dead letter counts when
  -- its caller owns the message.
  abbrev pub Retains : MemoryQueue I → QueueOp I → Type 0
  Retains q (pop_op r n t) = Unit
  Retains q (nack_op n id d t f) = Unit
  Retains q (extend_op n id t x) = Unit
  Retains q (redrive_op n id) = Unit
  Retains q (redrive_many_op n l) = Unit
  Retains q (dead_letter_op d t) =
      (entry : InFlightEntry I) × (Map.get d.message.id q.in_flight ≡ some entry)
      × (is_stale t entry.lease_token ≡ false)
  Retains q (push_op m) = ⊥
  Retains q (ack_op id t) = ⊥
  Retains q purge_op = ⊥

  -- No job is lost or doubled by a pop, with the reclaiming of expired leases in it, a nack, an
  -- extension, a re-drive or an owner's dead letter, in a well-formed queue where no job stands
  -- twice and the dead letters have room for all that is leased.
  pub step-tally :
      (op : QueueOp I) (k : Text) (q : MemoryQueue I)
      → IsValid q
      → HasRoom q
      → ((j : Text) → tally j q ≤ 1)
      → Retains q op
      → tally k (step op q) ≡ tally k q
  unfolding step
  step-tally (pop_op r n t) k q v room unique h = tally-pop k r n t q v room unique
  step-tally (nack_op n id d t f) k q v room unique h = tally-nack k n id d t f q v
  step-tally (extend_op n id t x) k q v room unique h = tally-extend k n id t x q
  step-tally (redrive_op n id) k q v room unique h = tally-redrive k n id q
  step-tally (redrive_many_op n l) k q v room unique h = tally-redrive_many k n l q
  step-tally (dead_letter_op d t) k q v room unique (entry, e, own) =
      tally-dead_letter k d t entry q room e own
  step-tally (push_op m) k q v room unique h = absurd h
  step-tally (ack_op id t) k q v room unique h = absurd h
  step-tally purge_op k q v room unique h = absurd h
