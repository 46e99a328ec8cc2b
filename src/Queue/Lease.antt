-- ===== src/Queue/Lease.antt =====
-- Who can take a lease away: its owner, or time.
use celsian.Base.{
  ℕ, ◌+◌, ◌<◌, ◌≡◌, subst, ◌≢◌, ◌⊎◌, inl, inr, Bool, true, Option, some, List, [], ◌∷◌, arith, Text,
  ◌==◌, text_eq, text_beq_iff, ltb, leb, All, All-append, Bool-cases, Option-cases,
}
use celsian.Map
use celsian.Map.{Map}
use celsian.Map.Laws.{Distinct, Absent, get-delete, get-set}
use celsian.Queue.Types.{QueueMessage, InFlightEntry, MemoryQueue}
use celsian.Queue.{
  QueueOp, push_op, pop_op, ack_op, nack_op, extend_op, dead_letter_op, redrive_op, redrive_many_op,
  purge_op, step, push, pop, ack, nack, extend, dead_letter, redrive_dead_letter,
  redrive_dead_letters, purge_dead_letters, push_dead, lease_next, splice_first, is_stale,
  release_held, or_else, expire,
}
use celsian.Queue.Validity.{IsValid, IsKeyed}
use celsian.Queue.Reclaim.{live, requeued, reclaim_expired_lem}

pub All-splice_first {ℓ κ} :
    {A : Type ℓ} (P : A → Type κ) (p : A → Bool) (xs : List A) {y : A} {ys : List A}
    → splice_first p xs ≡ some (y, ys)
    → All P xs
    → P y × All P ys
unfolding splice_first
All-splice_first P p [] e h = cc
All-splice_first P p (x ∷ xs) e h = elim (Bool-cases (p x)) [
  | inl hit ↦ ground arith
  | inr miss ↦ elim (Option-cases (splice_first p xs)) [
    | inl n ↦ ground arith
    | inr ((z, zs), f) ↦ ground (arith, All-splice_first P p xs f h.1)
  ]
]

-- A call on another message, or one that carries another token.
abbrev pub IsForeign : Text → Text → Text → Option Text → Type 0
IsForeign id token id' token' =
    (id' ≢ id) ⊎ ((other : Text) × (token' ≡ some other) × (other ≢ token))

IsForeign-is_stale :
    (id token id' : Text) (token' : Option Text)
    → IsForeign id token id' token'
    → id' ≡ id
    → is_stale token' token ≡ true
IsForeign-is_stale id token id' token' (inl n) e = absurd (n e)
IsForeign-is_stale id token id' token' (inr (other, given, n)) e =
    ground (arith, text_beq_iff token other)

module _ {I : Type 0} where
  -- The operations that leave the lease of `id` under `entry` alone: all but those of its owner,
  -- and a `pop` that reads the clock once the lease has run out.
  abbrev pub Spares : Text → InFlightEntry I → QueueOp I → Type 0
  Spares id entry (push_op m) = Unit
  Spares id entry (pop_op reclaim_at now t) = reclaim_at < entry.expires_at
  Spares id entry (ack_op id' t) = IsForeign id entry.lease_token id' t
  Spares id entry (nack_op n id' d t f) = IsForeign id entry.lease_token id' t
  Spares id entry (extend_op n id' t x) = IsForeign id entry.lease_token id' (some t)
  Spares id entry (dead_letter_op d t) = IsForeign id entry.lease_token d.message.id t
  Spares id entry (redrive_op n id') = Unit
  Spares id entry (redrive_many_op n l) = Unit
  Spares id entry purge_op = Unit

  get-live :
      (now : ℕ) (id : Text) (entry : InFlightEntry I) (m : Map Text (InFlightEntry I))
      → now < entry.expires_at
      → Map.get id m ≡ some entry
      → Map.get id (live now m) ≡ some entry
  unfolding live Map.get
  get-live now id entry [] h g = cc
  get-live now id entry ((j, x) ∷ m) h g = ground (arith, get-live now id entry m h)

  requeued_other :
      (timeout now : ℕ) (id : Text) (m : Map Text (InFlightEntry I))
      → Absent id m
      → All IsKeyed m
      → All (λ (x : QueueMessage I). x.id ≢ id) (requeued timeout now m)
  unfolding requeued expire
  requeued_other timeout now id [] h k = tt
  requeued_other timeout now id ((j, x) ∷ m) h k =
      ground (arith, requeued_other timeout now id m h.1 k.1)

  -- A message whose lease still runs is not queued again.
  requeued_held :
      (timeout now : ℕ) (id : Text) (entry : InFlightEntry I) (m : Map Text (InFlightEntry I))
      → Distinct m
      → All IsKeyed m
      → now < entry.expires_at
      → Map.get id m ≡ some entry
      → All (λ (x : QueueMessage I). x.id ≢ id) (requeued timeout now m)
  unfolding requeued expire Map.get
  requeued_held timeout now id entry [] d k h g = tt
  requeued_held timeout now id entry ((j, x) ∷ m) d k h g = elim (Bool-cases (j == id)) [
    | inl same ↦
        let here : ltb now x.expires_at ≡ true = ground arith in
        rw here (
          subst (λ z. All (λ (y : QueueMessage I). y.id ≢ z) (requeued timeout now m))
            ((text_beq_iff j id).0 same) (requeued_other timeout now j m d.0 k.1))
    | inr other ↦
        ground
          (arith, text_beq_iff j id, requeued_held timeout now id entry m d.1 k.1 h (rw other at g))
  ]

  lease_next-get_held :
      (n : ℕ) (t id : Text) (entry : InFlightEntry I) (q : MemoryQueue I)
      → All (λ (m : QueueMessage I). m.id ≢ id) q.messages
      → Map.get id q.in_flight ≡ some entry
      → Map.get id (lease_next n t q).0.in_flight ≡ some entry
  unfolding lease_next
  lease_next-get_held n t id entry q u g =
      elim (Option-cases (splice_first (λ (m : QueueMessage I). leb m.available_at n) q.messages)) [
        | inl e ↦ rw (e, lease_next) g
        | inr ((m, rest), e) ↦
            let other = (All-splice_first (λ (x : QueueMessage I). x.id ≢ id) _ q.messages e u).0 in
            rw (e, lease_next) (rw get-set (ground (arith, text_beq_iff m.id id)))
      ]

  extend-get_held :
      (n : ℕ) (id' t : Text) (x : Option ℕ) (id : Text) (entry : InFlightEntry I)
      (q : MemoryQueue I)
      → Map.get id q.in_flight ≡ some entry
      → IsForeign id entry.lease_token id' (some t)
      → Map.get id (extend n id' t x q).0.in_flight ≡ some entry
  unfolding extend
  extend-get_held n id' t x id entry q g s = elim (Option-cases (Map.get id' q.in_flight)) [
    | inl e ↦ rw (e, extend) g
    | inr (found, e) ↦
        rw (e, extend)
          (ground (
            arith,
            get-set id' id (record found { expires_at = n + or_else x q.visibility_timeout_ms })
                q.in_flight,
            text_beq_iff id' id,
            λ (p : id' ≡ id). IsForeign-is_stale id entry.lease_token id' (some t) s p,
          ))
  ]

  pop-get_held :
      (r n : ℕ) (t id : Text) (entry : InFlightEntry I) (q : MemoryQueue I)
      → IsValid q
      → All (λ (m : QueueMessage I). m.id ≢ id) q.messages
      → Map.get id q.in_flight ≡ some entry
      → r < entry.expires_at
      → Map.get id (pop r n t q).0.in_flight ≡ some entry
  unfolding pop
  pop-get_held r n t id entry q v u g h =
      let found = get-live r id entry q.in_flight h g in
      let others =
        All-append _ q.messages (requeued q.visibility_timeout_ms r q.in_flight) u
          (requeued_held q.visibility_timeout_ms r id entry q.in_flight v.distinct v.keyed h g) in
      rw (reclaim_expired_lem r q v) (lease_next-get_held n t id entry _ others found)

  -- A lease is lost in no other way: whatever another caller does, with another token or on another
  -- message, the entry of a message that is not also waiting in the queue stays exactly as it is,
  -- and so it does in a `pop` before the lease has run out.
  pub step-get_held :
      (op : QueueOp I) (id : Text) (entry : InFlightEntry I) (q : MemoryQueue I)
      → IsValid q
      → All (λ (m : QueueMessage I). m.id ≢ id) q.messages
      → Map.get id q.in_flight ≡ some entry
      → Spares id entry op
      → Map.get id (step op q).in_flight ≡ some entry
  unfolding step
  step-get_held (push_op m) id entry q v u g s = unfold push in g
  step-get_held (pop_op r n t) id entry q v u g s = pop-get_held r n t id entry q v u g s
  step-get_held (ack_op id' t) id entry q v u g s =
      unfold ack in
      ground (
        arith,
        get-delete id' id q.in_flight v.distinct,
        text_beq_iff id' id,
        λ (p : id' ≡ id). IsForeign-is_stale id entry.lease_token id' t s p,
      )
  step-get_held (nack_op n id' d t f) id entry q v u g s =
      unfold nack in
      ground (
        arith,
        get-delete id' id q.in_flight v.distinct,
        text_beq_iff id' id,
        λ (p : id' ≡ id). IsForeign-is_stale id entry.lease_token id' t s p,
      )
  step-get_held (extend_op n id' t x) id entry q v u g s = extend-get_held n id' t x id entry q g s
  step-get_held (dead_letter_op d t) id entry q v u g s =
      unfold dead_letter release_held push_dead in
      ground (
        arith,
        get-delete d.message.id id q.in_flight v.distinct,
        text_beq_iff d.message.id id,
        λ (p : d.message.id ≡ id). IsForeign-is_stale id entry.lease_token d.message.id t s p,
      )
  step-get_held (redrive_op n id') id entry q v u g s = unfold redrive_dead_letter in ground arith
  step-get_held (redrive_many_op n l) id entry q v u g s = unfold redrive_dead_letters in g
  step-get_held purge_op id entry q v u g s = unfold purge_dead_letters in g
