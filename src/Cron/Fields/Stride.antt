-- ===== src/Cron/Fields/Stride.antt =====
-- The loops of `parseField`: the values that a stride adds, by arithmetic.
use native.Mathlib.Nat.{mod-eq_of_lt, mod-eq-sub-mod, zero-mod}
use celsian.Base.{
  ℕ, zero, suc, ◌+◌, ◌-◌, ◌%◌, ◌≤◌, ◌<◌, ◌≡◌, refl, ap, subst, ◌∙◌, inl, inr, Bool, true, false,
  ◌&&◌, ◌||◌, ◌⊎◌, List, [], ◌∷◌, ◌++◌, Text, codes, text_beq, arith, nat_beq, nat_beq_iff, ltb,
  leb, Bool-cases,
}
use celsian.Base.Int.{ℤ, pos, negsuc}
use celsian.Cron.Fields.{
  CronError, Result, ok, err, member, add, stride, in_range, checked, step_start, positive_step,
  parse_int_strict,
}

pub data Shape : Type 0 where
  every : Shape
  stepped : (start step : ℕ) → Shape
  range : (start end : ℕ) → Shape
  value : ℕ → Shape

-- The values of a shape, in a field from `lo` to `hi`, by arithmetic alone.
unfoldable pub covers : (lo hi : ℕ) → Shape → ℕ → Bool
covers lo hi every v = leb lo v && leb v hi
covers lo hi (stepped start step) v = leb start v && (leb v hi && nat_beq ((v - start) % step) 0)
covers lo hi (range start end) v = leb start v && leb v end
covers lo hi (value n) v = nat_beq n v

pub Result-cases :
    {A : Type 0} (r : Result A) → ((e : CronError) × (r ≡ err e)) ⊎ ((a : A) × (r ≡ ok a))
Result-cases (ok a) = inr (a, refl)
Result-cases (err e) = inl (e, refl)

pub or_false : (b : Bool) → b ≡ (b || false)
or_false true = refl
or_false false = refl

pub or_assoc : (a b c : Bool) → ((a || b) || c) ≡ (a || (b || c))
or_assoc true b c = refl
or_assoc false b c = refl

member-append : (v : ℕ) (xs ys : List ℕ) → member v (xs ++ ys) ≡ (member v xs || member v ys)
member-append v [] ys = refl
member-append v (x ∷ xs) ys = ground (arith, member-append v xs ys)

pub member-add :
    (v n : ℕ) (values : List ℕ) → member v (add n values) ≡ (member v values || nat_beq n v)
unfolding add
member-add v n values = elim (Bool-cases (member n values)) [
  | inl old ↦ rw old (elim (Bool-cases (nat_beq n v)) [
    | inl same ↦
        let here : member v values ≡ true =
          subst (λ z. member z values ≡ true) ((nat_beq_iff n v).0 same) old in
        rw here
    | inr other ↦ ground arith
  ])
  | inr new ↦ rw new (ground (arith, member-append v values (n ∷ [])))
]

-- One round of a stride, by arithmetic.
covers_round :
    (i stop step v : ℕ)
    → 0 < step
    → i ≤ stop
    → (nat_beq i v || covers 0 stop (stepped (i + step) step) v) ≡ covers 0 stop (stepped i step) v
unfolding covers
covers_round i stop step v s h = elim (Bool-cases (ltb v i)) [
  | inl below ↦ ground arith
  | inr reached ↦ elim (Bool-cases (nat_beq i v)) [
    | inl start ↦
        let gap : v - i ≡ 0 = ground arith in
        let rest : (v - i) % step ≡ 0 = rw gap (zero-mod step) in ground (arith, rest)
    | inr later ↦ elim (Bool-cases (leb (i + step) v)) [
      | inl next ↦
          let shift : v - i - step ≡ v - (i + step) = omega arith in
          let rest : (v - i) % step ≡ (v - (i + step)) % step =
            mod-eq-sub-mod (ground arith) ∙ ap (λ t. t % step) shift in
          ground (arith, rest)
      | inr between ↦
          let rest : (v - i) % step ≡ v - i = mod-eq_of_lt (ground arith) in ground (arith, rest)
    ]
  ]
]

covers_past : (i stop step v : ℕ) → stop < i → covers 0 stop (stepped i step) v ≡ false
unfolding covers
covers_past i stop step v h = ground arith

pub stride_lem :
    (fuel : ℕ) (check : ℕ → Result ℕ) (i stop step : ℕ) (values : List ℕ)
    → ((j : ℕ) → i ≤ j → j ≤ stop → check j ≡ ok j)
    → 0 < step
    → stop < i + fuel
    → (vs : List ℕ) × (stride fuel check i stop step values ≡ ok vs)
      × ((v : ℕ) → member v vs ≡ (member v values || covers 0 stop (stepped i step) v))
unfolding stride
stride_lem zero check i stop step values good s h =
    (values, refl, λ v. rw (covers_past i stop step v (omega arith)) (or_false _))
stride_lem (suc fuel) check i stop step values good s h = elim (Bool-cases (leb i stop)) [
  | inl more ↦
      let (vs, runs, has) =
        stride_lem fuel check (i + step) stop step (add i values)
          (λ j from to. good j (omega arith) to) s (omega arith) in
      (
        vs,
        rw (more, good i (omega arith) (ground arith)) runs,
        λ v.
            has v
            ∙ ap (λ b. b || covers 0 stop (stepped (i + step) step) v) (member-add v i values)
            ∙ or_assoc (member v values) (nat_beq i v) (covers 0 stop (stepped (i + step) step) v)
            ∙ ap (◌||◌ (member v values)) (covers_round i stop step v s (ground arith)),
      )
  | inr done ↦ (values, rw done, λ v. rw (covers_past i stop step v (ground arith)) (or_false _))
]

pub unit_step : (a b v : ℕ) → covers 0 b (stepped a 1) v ≡ (leb a v && leb v b)
unfolding covers
unit_step a b v = ground arith

-- The same with the check of a field.
pub checked-eq-ok : (lo hi j : ℕ) → lo ≤ j → j ≤ hi → checked lo hi j ≡ ok j
unfolding in_range
checked-eq-ok lo hi j a b = ground arith

pub in_range-eq-ok : (lo hi : ℕ) (a : ℤ) {n : ℕ} → in_range lo hi a ≡ ok n → (lo ≤ n) × (n ≤ hi)
unfolding in_range
in_range-eq-ok lo hi (pos m) h = ground arith
in_range-eq-ok lo hi (negsuc m) h = cc

pub step_start_bounds : (lo hi : ℕ) (t : Text) {n : ℕ} → step_start lo hi t ≡ ok n → lo ≤ n
unfolding step_start
step_start_bounds lo hi t h = elim (Bool-cases (text_beq t (codes "*"))) [
  | inl star ↦ ground arith
  | inr other ↦ elim (Result-cases (parse_int_strict t)) [
    | inl (e, f) ↦ ground arith
    | inr (a, f) ↦ (in_range-eq-ok lo hi a (ground arith)).0
  ]
]

pub positive_step_pos : (a : ℤ) {n : ℕ} → positive_step a ≡ ok n → 0 < n
unfolding positive_step
positive_step_pos (negsuc m) h = cc
positive_step_pos (pos zero) h = cc
positive_step_pos (pos (suc m)) h = ground arith
