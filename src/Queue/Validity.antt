-- ===== src/Queue/Validity.antt =====
-- The well-formedness of the queue, kept by every operation: the in-flight map has one entry to an
-- id, each under its own message's id and token, and the two history lists are within their caps.
use celsian.Base.{
  ℕ, ◌+◌, ◌-◌, ◌≤◌, ◌≡◌, refl, Bool, Option, some, List, [], ◌∷◌, ◌++◌, inl, inr, arith, Text, ◌==◌,
  text_eq, ltb, leb, All, length, length-drop, Bool-cases, Option-cases, min,
}
use celsian.Map
use celsian.Map.{Map}
use celsian.Map.Laws.{Distinct, delete-Distinct, set-Distinct, All-delete, All-set, All-get}
use celsian.Queue.Types.{
  TaskFailure, QueueMessage, DeadLetterEntry, InFlightEntry, MemoryQueueOptions, MemoryQueue,
}
use celsian.Queue.{
  QueueOp, push_op, pop_op, ack_op, nack_op, extend_op, dead_letter_op, redrive_op, redrive_many_op,
  purge_op, step, run, init, push, pop, ack, nack, extend, dead_letter, redrive_dead_letter,
  redrive_dead_letters, purge_dead_letters, keep_newest, push_dead, settle, dead_entry,
  reclaim_entry, reclaim_loop, reclaim_expired, lease_next, deliver, splice_first, release_held,
  or_else,
}

pub length-keep_newest {ℓ} :
    {A : Type ℓ} (limit : ℕ) (xs : List A) → length (keep_newest limit xs) ≤ limit
unfolding keep_newest
length-keep_newest limit xs = ground (arith, length-drop (length xs - limit) xs)

pub length-splice_first {ℓ} :
    {A : Type ℓ} (p : A → Bool) (xs : List A) {y : A} {ys : List A}
    → splice_first p xs ≡ some (y, ys)
    → length ys + 1 ≡ length xs
unfolding splice_first
length-splice_first p [] e = cc
length-splice_first p (x ∷ xs) e = elim (Bool-cases (p x)) [
  | inl hit ↦ ground arith
  | inr miss ↦ elim (Option-cases (splice_first p xs)) [
    | inl n ↦ ground arith
    | inr ((z, zs), f) ↦ ground (arith, length-splice_first p xs f)
  ]
]

module _ {I : Type 0} where
  -- An entry of the in-flight map under its message's id, with its message's token.
  abbrev pub IsKeyed : Text × InFlightEntry I → Type 0
  IsKeyed (id, entry) =
      (entry.message.id ≡ id) × (entry.message.lease_token ≡ some entry.lease_token)

  pub record IsValid (q : MemoryQueue I) : Type 0 where
    pub distinct : Distinct q.in_flight
    pub keyed : All IsKeyed q.in_flight
    pub completed_bounded : length q.completed ≤ q.max_completed_jobs
    pub dead_bounded : length q.dead ≤ q.max_dead_letters

  init-IsValid : (o : MemoryQueueOptions) → IsValid (init o)
  unfolding init
  init-IsValid o = ground arith

  push_dead-IsValid :
      (d : DeadLetterEntry I) (q : MemoryQueue I) → IsValid q → IsValid (push_dead d q)
  unfolding push_dead
  push_dead-IsValid d q v = ground (arith, length-keep_newest q.max_dead_letters (q.dead ++ d ∷ []))

  delete-IsValid :
      (id : Text) (q : MemoryQueue I)
      → IsValid q
      → IsValid (record q { in_flight = Map.delete id q.in_flight })
  delete-IsValid id q v = record {
    distinct = delete-Distinct id q.in_flight v.distinct;
    keyed = All-delete IsKeyed id q.in_flight v.keyed;
    completed_bounded = v.completed_bounded;
    dead_bounded = v.dead_bounded;
  }

  settle-IsValid :
      (now : ℕ) (m : QueueMessage I) (q : MemoryQueue I) → IsValid q → IsValid (settle now m q)
  unfolding settle
  settle-IsValid now m q v =
      ground (arith, push_dead-IsValid (dead_entry q.visibility_timeout_ms now m) q v)

  reclaim_loop-IsValid :
      (now : ℕ) (entries : Map Text (InFlightEntry I)) (q : MemoryQueue I)
      → IsValid q
      → IsValid (reclaim_loop now entries q)
  unfolding reclaim_loop
  reclaim_loop-IsValid now [] q v = v
  reclaim_loop-IsValid now ((id, entry) ∷ rest) q v =
      reclaim_loop-IsValid now rest (reclaim_entry now id entry q) here
    where
      here : IsValid (reclaim_entry now id entry q)
      here =
          unfold reclaim_entry in
          elim (Bool-cases (ltb now entry.expires_at)) [
            | inl live ↦ rw live v
            | inr over ↦ rw over (settle-IsValid now _ _ (delete-IsValid id q v))
          ]

  lease_next-IsValid :
      (now : ℕ) (t : Text) (q : MemoryQueue I) → IsValid q → IsValid (lease_next now t q).0
  unfolding lease_next
  lease_next-IsValid now t q v =
      elim (Option-cases
        (splice_first (λ (m : QueueMessage I). leb m.available_at now) q.messages)) [
          | inl e ↦ rw (e, lease_next) v
          | inr ((m, rest), e) ↦
              rw (e, lease_next)
                (record {
                  distinct = set-Distinct m.id _ q.in_flight v.distinct;
                  keyed =
                      All-set IsKeyed m.id _ q.in_flight (unfold deliver in (refl, refl)) v.keyed;
                  completed_bounded = v.completed_bounded;
                  dead_bounded = v.dead_bounded;
                })
        ]

  release_held-IsValid :
      (id : Text) (t : Option Text) (q : MemoryQueue I) → IsValid q → IsValid (release_held id t q)
  unfolding release_held
  release_held-IsValid id t q v = ground (arith, delete-IsValid id q v)

  ack-IsValid : (id : Text) (t : Option Text) (q : MemoryQueue I) → IsValid q → IsValid (ack id t q)
  unfolding ack
  ack-IsValid id t q v = ground (
    arith,
    delete-IsValid id q v,
    length-keep_newest q.max_completed_jobs (q.completed ++ id ∷ []),
  )

  nack-IsValid :
      (now : ℕ) (id : Text) (d : Option ℕ) (t : Option Text) (f : Option TaskFailure)
      (q : MemoryQueue I)
      → IsValid q
      → IsValid (nack now id d t f q)
  unfolding nack
  nack-IsValid now id d t f q v = ground (arith, delete-IsValid id q v)

  extend-IsValid :
      (now : ℕ) (id t : Text) (x : Option ℕ) (q : MemoryQueue I)
      → IsValid q
      → IsValid (extend now id t x q).0
  unfolding extend
  extend-IsValid now id t x q v = elim (Option-cases (Map.get id q.in_flight)) [
    | inl e ↦ rw (e, extend) v
    | inr (entry, e) ↦ elim (Bool-cases (entry.lease_token == t)) [
      | inl own ↦
          rw (e, extend)
            (rw own (record {
              distinct = set-Distinct id _ q.in_flight v.distinct;
              keyed =
                  All-set IsKeyed id _ q.in_flight (All-get IsKeyed id entry q.in_flight e v.keyed)
                    v.keyed;
              completed_bounded = v.completed_bounded;
              dead_bounded = v.dead_bounded;
            }))
      | inr other ↦ rw (e, extend) (rw other v)
    ]
  ]

  dead_letter-IsValid :
      (d : DeadLetterEntry I) (t : Option Text) (q : MemoryQueue I)
      → IsValid q
      → IsValid (dead_letter d t q)
  unfolding dead_letter
  dead_letter-IsValid d t q v = push_dead-IsValid d _ (release_held-IsValid d.message.id t q v)

  redrive-IsValid :
      (now : ℕ) (id : Text) (q : MemoryQueue I)
      → IsValid q
      → IsValid (redrive_dead_letter now id q).0
  unfolding redrive_dead_letter
  redrive-IsValid now id q v =
      elim (Option-cases (splice_first (λ (d : DeadLetterEntry I). d.message.id == id) q.dead)) [
        | inl e ↦ rw (e, redrive_dead_letter) v
        | inr ((d, rest), e) ↦
            rw (e, redrive_dead_letter)
              (record {
                distinct = v.distinct;
                keyed = v.keyed;
                completed_bounded = v.completed_bounded;
                dead_bounded = omega (arith, v, length-splice_first _ q.dead e);
              })
      ]

  redrive_many-IsValid :
      (now : ℕ) (l : Option ℕ) (q : MemoryQueue I)
      → IsValid q
      → IsValid (redrive_dead_letters now l q).0
  unfolding redrive_dead_letters
  redrive_many-IsValid now l q v = record {
    distinct = v.distinct;
    keyed = v.keyed;
    completed_bounded = v.completed_bounded;
    dead_bounded =
        omega (arith, v, length-drop (min (length q.dead) (or_else l (length q.dead))) q.dead);
  }

  -- Every operation keeps the queue well formed: one in-flight entry to an id, under its own
  -- message's id and lease token, and both history lists within their caps.
  pub step-IsValid : (op : QueueOp I) (q : MemoryQueue I) → IsValid q → IsValid (step op q)
  unfolding step
  step-IsValid (push_op m) q v = unfold push in ground arith
  step-IsValid (pop_op r n t) q v =
      unfold pop reclaim_expired in
      lease_next-IsValid n t _ (reclaim_loop-IsValid r q.in_flight q v)
  step-IsValid (ack_op id t) q v = ack-IsValid id t q v
  step-IsValid (nack_op n id d t f) q v = nack-IsValid n id d t f q v
  step-IsValid (extend_op n id t x) q v = extend-IsValid n id t x q v
  step-IsValid (dead_letter_op e t) q v = dead_letter-IsValid e t q v
  step-IsValid (redrive_op n id) q v = redrive-IsValid n id q v
  step-IsValid (redrive_many_op n l) q v = redrive_many-IsValid n l q v
  step-IsValid purge_op q v = unfold purge_dead_letters in ground arith

  run_from-IsValid : (ops : List (QueueOp I)) (q : MemoryQueue I) → IsValid q → IsValid (run ops q)
  unfolding run
  run_from-IsValid [] q v = v
  run_from-IsValid (op ∷ ops) q v = run_from-IsValid ops (step op q) (step-IsValid op q v)

  -- After any sequence of operations on a new queue, the in-flight map has one entry to an id, each
  -- under its message's id and lease token, and the completed and dead lists are within their caps.
  pub run-IsValid : (o : MemoryQueueOptions) (ops : List (QueueOp I)) → IsValid (run ops (init o))
  run-IsValid o ops = run_from-IsValid ops (init o) (init-IsValid o)
