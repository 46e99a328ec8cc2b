-- ===== src/Queue/Delivery.antt =====
-- What `pop` hands out, and the lease that comes with it.
use celsian.Base.{
  ℕ, ◌+◌, ◌<◌, ◌≡◌, refl, ◌↔◌, inl, inr, Bool, true, false, none, some, List, [], ◌∷◌, ◌++◌, arith,
  Text, text_eq, ==_refl, leb, All, Bool-cases, Option-cases,
}
use celsian.Map
use celsian.Map.Laws.{get-set}
use celsian.Queue.Types.{QueueMessage, InFlightEntry, MemoryQueue}
use celsian.Queue.{pop, lease_next, deliver, splice_first}
use celsian.Queue.Validity.{IsValid}
use celsian.Queue.Reclaim.{requeued, reclaimed, reclaim_expired_lem}

module _ {ℓ} {A : Type ℓ} (p : A → Bool) where
  -- The first element that passes the test, with what stands before and behind it.
  pub record IsFirst (xs : List A) (y : A) (ys : List A) : Type ℓ where
    pub before : List A
    pub after : List A
    pub skipped : All (λ x. p x ≡ false) before
    pub chosen : p y ≡ true
    pub whole : xs ≡ before ++ y ∷ after
    pub others : ys ≡ before ++ after

  pub splice_first-IsFirst :
      (xs : List A) {y : A} {ys : List A} → splice_first p xs ≡ some (y, ys) → IsFirst xs y ys
  unfolding splice_first
  splice_first-IsFirst [] e = cc
  splice_first-IsFirst (x ∷ xs) e = elim (Bool-cases (p x)) [
    | inl hit ↦ record {
      before = [];
      after = xs;
      skipped = tt;
      chosen = ground arith;
      whole = ground arith;
      others = ground arith;
    }
    | inr miss ↦ elim (Option-cases (splice_first p xs)) [
      | inl n ↦ ground arith
      | inr ((z, zs), f) ↦
          let rest = splice_first-IsFirst xs f in
          record {
            before = x ∷ rest.before;
            after = rest.after;
            skipped = (miss, rest.skipped);
            chosen = ground (arith, rest.chosen);
            whole = ground (arith, rest.whole);
            others = ground (arith, rest.others);
          }
    ]
  ]

  pub splice_first-none : (xs : List A) → splice_first p xs ≡ none → All (λ x. p x ≡ false) xs
  unfolding splice_first
  splice_first-none [] e = tt
  splice_first-none (x ∷ xs) e = elim (Option-cases (splice_first p xs)) [
    | inl n ↦ ground (arith, splice_first-none xs n)
    | inr ((z, zs), f) ↦ ground arith
  ]

module _ {I : Type 0} where
  abbrev available : ℕ → QueueMessage I → Bool
  available now m = leb m.available_at now

  -- What waits once the expired leases are reclaimed.
  abbrev pub waiting : ℕ → MemoryQueue I → List (QueueMessage I)
  waiting reclaim_at q = q.messages ++ requeued q.visibility_timeout_ms reclaim_at q.in_flight

  -- A message `m` handed out from `xs`, leaving the state `q` with its lease.
  pub record IsDelivered (now : ℕ) (token : Text) (xs : List (QueueMessage I)) (q : MemoryQueue I)
      (m : QueueMessage I) : Type 0 where
    pub source : QueueMessage I
    pub first : IsFirst (available now) xs source q.messages
    pub copy : m ≡ deliver token source
    pub lease : InFlightEntry I
    pub held : Map.get source.id q.in_flight ≡ some lease
    pub under : lease.lease_token ≡ token
    pub message : lease.message ≡ m
    pub until : lease.expires_at ≡ now + q.visibility_timeout_ms

  lease_next_lem :
      (now : ℕ) (token : Text) (q : MemoryQueue I) {m : QueueMessage I}
      → (lease_next now token q).1 ≡ some m
      → IsDelivered now token q.messages (lease_next now token q).0 m
  unfolding lease_next
  lease_next_lem now token q e =
      elim (Option-cases
        (splice_first (λ (m : QueueMessage I). leb m.available_at now) q.messages)) [
          | inl n ↦ absurd (ground arith)
          | inr ((source, rest), f) ↦
              let lease : InFlightEntry I = record {
                message = deliver token source;
                lease_token = token;
                expires_at = now + q.visibility_timeout_ms;
              } in
              rw (f, lease_next)
                (record {
                  source = source;
                  first = splice_first-IsFirst _ q.messages f;
                  copy = ground arith;
                  lease = lease;
                  held = rw get-set (rw ==_refl);
                  under = refl;
                  message = ground arith;
                  until = refl;
                })
        ]

  unavailable_iff :
      (now : ℕ) (xs : List (QueueMessage I))
      → All (λ m. available now m ≡ false) xs ↔ All (λ m. now < m.available_at) xs
  unavailable_iff now [] = (λ h. tt, λ h. tt)
  unavailable_iff now (x ∷ xs) =
      let (to, from) = unavailable_iff now xs in
      (λ h. (ground arith, to h.1), λ h. (ground arith, from h.1))

  splice_first-none_of :
      (p : QueueMessage I → Bool) (xs : List (QueueMessage I))
      → All (λ x. p x ≡ false) xs
      → splice_first p xs ≡ none
  unfolding splice_first
  splice_first-none_of p [] h = refl
  splice_first-none_of p (x ∷ xs) h = ground (arith, splice_first-none_of p xs h.1)

  lease_next-none_iff :
      (now : ℕ) (token : Text) (q : MemoryQueue I)
      → ((lease_next now token q).1 ≡ none) ↔ All (λ m. now < m.available_at) q.messages
  unfolding lease_next
  lease_next-none_iff now token q = (
    λ e. (unavailable_iff now q.messages).0 (splice_first-none _ q.messages (ground arith)),
    λ h. rw (
      splice_first-none_of (available now) q.messages ((unavailable_iff now q.messages).1 h),
      lease_next,
    ),
  )

  -- In a well-formed queue, a message that `pop` returns is the first one available of those that wait, counting those whose
  -- lease has just run out. It is removed from them and leased, for the visibility timeout, under
  -- the token that the caller is given, with its deliveries counted.
  pub pop-IsDelivered :
      (r now : ℕ) (token : Text) (q : MemoryQueue I) {m : QueueMessage I}
      → IsValid q
      → (pop r now token q).1 ≡ some m
      → IsDelivered now token (waiting r q) (pop r now token q).0 m
  unfolding pop
  pop-IsDelivered r now token q v e =
      let same = reclaim_expired_lem r q v in
      rw same (lease_next_lem now token (reclaimed r q.in_flight q) (rw same at e))

  -- In a well-formed queue, `pop` returns nothing exactly when nothing that waits is available yet, those whose lease has
  -- just run out included.
  pub pop-none_iff :
      (r now : ℕ) (token : Text) (q : MemoryQueue I)
      → IsValid q
      → ((pop r now token q).1 ≡ none) ↔ All (λ m. now < m.available_at) (waiting r q)
  unfolding pop
  pop-none_iff r now token q v =
      rw (reclaim_expired_lem r q v) (lease_next-none_iff now token (reclaimed r q.in_flight q))
