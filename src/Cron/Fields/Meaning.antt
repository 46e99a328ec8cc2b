-- ===== src/Cron/Fields/Meaning.antt =====
-- What a field means: each part is read on its own as one of four shapes, and the field stands for
-- the union of the values of its shapes.
use celsian.Base.{
  split_on, ℕ, suc, ◌≤◌, ◌≡◌, refl, ap, ◌∙◌, inl, inr, ◌||◌, List, [], ◌∷◌, Text, codes, text_beq,
  arith, any, Bool-cases, if◌then◌else◌,
}
use celsian.Cron.Words.{includes}
use celsian.Cron.Fields.{
  Result, ok, err, ◌>>=◌, member, add, stride, in_range, checked, part_at, step_start,
  positive_step, parse_int_strict, parse_every, parse_stepped, parse_range, parse_value, parse_part,
  parse_parts, parse_field,
}
use celsian.Cron.Fields.Stride.{
  Shape, every, stepped, range, value, covers, Result-cases, or_false, or_assoc, member-add,
  stride_lem, unit_step, checked-eq-ok, in_range-eq-ok, step_start_bounds, positive_step_pos,
}

module _ (lo hi : ℕ) where
  read_stepped : Text → Result Shape
  read_stepped part = do
    n ← parse_int_strict (part_at 1 (split_on b'/' part))
    step ← positive_step n
    start ← step_start lo hi (part_at 0 (split_on b'/' part))
    ok (stepped start step)

  read_range : Text → Result Shape
  read_range part = do
    a ← parse_int_strict (part_at 0 (split_on b'-' part))
    start ← in_range lo hi a
    b ← parse_int_strict (part_at 1 (split_on b'-' part))
    end ← in_range lo hi b
    ok (range start end)

  read_value : Text → Result Shape
  read_value part = do a ← parse_int_strict part; n ← in_range lo hi a; ok (value n)

  -- The shape of a part.
  pub read_part : Text → Result Shape
  read_part part =
      if text_beq part (codes "*")
      then ok every
      else if includes b'/' part
      then read_stepped part
      else if includes b'-' part
      then read_range part
      else read_value part

  pub read_parts : List Text → Result (List Shape)
  read_parts [] = ok []
  read_parts (part ∷ parts) =
      read_part part >>= λ shape. read_parts parts >>= λ shapes. ok (shape ∷ shapes)

  -- A parser's result that agrees with the shapes: the same error, or the old values and theirs.
  pub Agrees : List ℕ → Result (List Shape) → Result (List ℕ) → Type 0
  Agrees old (err e) r = r ≡ err e
  Agrees old (ok shapes) r =
      (vs : List ℕ) × (r ≡ ok vs)
      × ((v : ℕ) → member v vs ≡ (member v old || any (λ s. covers lo hi s v) shapes))

module _ (lo hi : ℕ) where
  -- `Agrees` for one shape.
  abbrev AgreesOne : List ℕ → Result Shape → Result (List ℕ) → Type 0
  AgreesOne old (err e) r = r ≡ err e
  AgreesOne old (ok shape) r =
      (vs : List ℕ) × (r ≡ ok vs) × ((v : ℕ) → member v vs ≡ (member v old || covers lo hi shape v))

  every_agrees : (old : List ℕ) → AgreesOne old (ok every) (parse_every lo hi old)
  unfolding parse_every covers
  every_agrees old =
      let (vs, runs, has) =
        stride_lem (suc hi) ok lo hi 1 old (λ j a b. refl) (omega arith) (omega arith) in
      (vs, runs, λ v. has v ∙ ap (◌||◌ (member v old)) (unit_step lo hi v))

  stepped_agrees :
      (part : Text) (old : List ℕ)
      → AgreesOne old (read_stepped lo hi part) (parse_stepped lo hi part old)
  unfolding parse_stepped read_stepped covers
  stepped_agrees part old =
      elim (Result-cases (parse_int_strict (part_at 1 (split_on b'/' part)))) [
        | inl (e, f) ↦ rw f refl
        | inr (n, f) ↦ rw f (elim (Result-cases (positive_step n)) [
          | inl (e, g) ↦ rw g refl
          | inr (step, g) ↦
              rw g (elim (Result-cases (step_start lo hi (part_at 0 (split_on b'/' part)))) [
                | inl (e, h) ↦ rw h refl
                | inr (start, h) ↦ rw h (
                    stride_lem (suc hi) (checked lo hi) start hi step old
                      (λ j a b.
                        checked-eq-ok lo hi j (omega (arith, step_start_bounds lo hi _ h)) b)
                      (positive_step_pos n g) (omega arith))
              ])
        ])
      ]

  range_agrees :
      (part : Text) (old : List ℕ)
      → AgreesOne old (read_range lo hi part) (parse_range lo hi part old)
  unfolding parse_range read_range covers
  range_agrees part old = elim (Result-cases (parse_int_strict (part_at 0 (split_on b'-' part)))) [
    | inl (e, f) ↦ rw f refl
    | inr (a, f) ↦ rw f (elim (Result-cases (in_range lo hi a)) [
      | inl (e, g) ↦ rw g refl
      | inr (start, g) ↦
          rw g (elim (Result-cases (parse_int_strict (part_at 1 (split_on b'-' part)))) [
            | inl (e, h) ↦ rw h refl
            | inr (b, h) ↦ rw h (elim (Result-cases (in_range lo hi b)) [
              | inl (e, k) ↦ rw k refl
              | inr (end, k) ↦
                  rw k (between start end (in_range-eq-ok lo hi a g).0 (in_range-eq-ok lo hi b k).1)
            ])
          ])
    ])
  ]
    where
      between :
          (start end : ℕ)
          → lo ≤ start
          → end ≤ hi
          → AgreesOne old (ok (range start end)) (stride (suc hi) (checked lo hi) start end 1 old)
      between start end from to =
          let (vs, runs, has) =
            stride_lem (suc hi) (checked lo hi) start end 1 old
              (λ j a b. checked-eq-ok lo hi j (omega arith) (omega arith)) (omega arith)
              (omega arith) in
          (vs, runs, λ v. has v ∙ ap (◌||◌ (member v old)) (unit_step start end v))

  value_agrees :
      (part : Text) (old : List ℕ)
      → AgreesOne old (read_value lo hi part) (parse_value lo hi part old)
  unfolding parse_value read_value covers
  value_agrees part old = elim (Result-cases (parse_int_strict part)) [
    | inl (e, f) ↦ rw f refl
    | inr (a, f) ↦ rw f (elim (Result-cases (in_range lo hi a)) [
      | inl (e, g) ↦ rw g refl
      | inr (n, g) ↦ rw g (add n old, refl, λ v. member-add v n old)
    ])
  ]

  part_agrees :
      (part : Text) (old : List ℕ)
      → AgreesOne old (read_part lo hi part) (parse_part lo hi part old)
  unfolding parse_part read_part
  part_agrees part old = elim (Bool-cases (text_beq part (codes "*"))) [
    | inl star ↦ rw star (every_agrees old)
    | inr other ↦ rw other (elim (Bool-cases (includes b'/' part)) [
      | inl slash ↦ rw slash (stepped_agrees part old)
      | inr plain ↦ rw plain (elim (Bool-cases (includes b'-' part)) [
        | inl dash ↦ rw dash (range_agrees part old)
        | inr single ↦ rw single (value_agrees part old)
      ])
    ])
  ]

  -- The values of the first part, then those of the others.
  more_agree :
      (old vs : List ℕ) (shape : Shape) (shapes : Result (List Shape)) (r : Result (List ℕ))
      → ((v : ℕ) → member v vs ≡ (member v old || covers lo hi shape v))
      → Agrees lo hi vs shapes r
      → Agrees lo hi old (shapes >>= λ more. ok (shape ∷ more)) r
  unfolding Agrees
  more_agree old vs shape (err e) r has a = a
  more_agree old vs shape (ok more) r has (ws, runs, has') = (
    ws,
    runs,
    λ v.
        has' v
        ∙ ap (λ b. b || any (λ s. covers lo hi s v) more) (has v)
        ∙ or_assoc (member v old) (covers lo hi shape v) (any (λ s. covers lo hi s v) more),
  )

  parts_agree :
      (parts : List Text) (old : List ℕ)
      → Agrees lo hi old (read_parts lo hi parts) (parse_parts lo hi parts old)
  unfolding read_parts parse_parts Agrees
  parts_agree [] old = (old, refl, λ v. or_false _)
  parts_agree (part ∷ parts) old = elim (Result-cases (read_part lo hi part)) [
    | inl (e, f) ↦
        let fails : parse_part lo hi part old ≡ err e = rw f at (part_agrees part old) in
        rw (f, fails) refl
    | inr (shape, f) ↦
        let (vs, runs, has) = one shape f in
        rw (f, runs) (more_agree old vs shape (read_parts lo hi parts) _ has (parts_agree parts vs))
  ]
    where
      one :
          (shape : Shape)
          → read_part lo hi part ≡ ok shape
          → AgreesOne old (ok shape) (parse_part lo hi part old)
      one shape f = rw f at (part_agrees part old)

  -- A list of numbers, or the first error, in a field from `lo` to `hi`: `parseField` fails exactly
  -- where some part cannot be read, with the first part's error, and otherwise returns the values
  -- of the shapes of its parts and no others.
  pub parse_field-Agrees :
      (field : Text)
      → Agrees lo hi [] (read_parts lo hi (split_on b',' field)) (parse_field lo hi field)
  unfolding parse_field
  parse_field-Agrees field = parts_agree (split_on b',' field) []
