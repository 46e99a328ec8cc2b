-- ===== src/Encapsulation/Visits.antt =====
-- packages/core/src/context.ts: `collectTransparent` reaches all that it should.
use celsian.Base.{
  ◌≡◌, ◌⊎◌, inl, inr, ℕ, zero, suc, ◌+◌, ◌≤◌, ◌<◌, true, not, ◌||◌, some, List, [], ◌∷◌, ◌++◌,
  nat_beq, any, All, Bool-cases, arith,
}
use celsian.Encapsulation.Types.{Context}
use celsian.Encapsulation.Scopes.{collect_transparent}

abbrev pub Has : ℕ → List ℕ → Type 0
Has x xs = any (nat_beq x) xs ≡ true

pub Has-self : (x : ℕ) (xs : List ℕ) → Has x (x ∷ xs)
Has-self x xs = ground arith

pub Has-later : (x y : ℕ) (xs : List ℕ) → Has x xs → Has x (y ∷ xs)
Has-later x y xs h = ground arith

pub Has-cons : (x y : ℕ) (xs : List ℕ) → Has x (y ∷ xs) → (x ≡ y) ⊎ Has x xs
Has-cons x y xs h = elim (Bool-cases (nat_beq x y)) [
  | inl is ↦ inl (ground arith)
  | inr other ↦ inr (ground arith)
]

pub Has-append : (x : ℕ) (xs ys : List ℕ) → Has x xs → Has x (xs ++ ys)
Has-append x [] ys h = cc
Has-append x (y ∷ xs) ys h = elim (Has-cons x y xs h) [
  | inl is ↦ ground arith
  | inr there ↦ Has-later x y (xs ++ ys) (Has-append x xs ys there)
]

pub Has-last : (x : ℕ) (xs : List ℕ) → Has x (xs ++ x ∷ [])
Has-last x [] = Has-self x []
Has-last x (y ∷ xs) = Has-later x y (xs ++ x ∷ []) (Has-last x xs)

pub Has-append_cases : (x : ℕ) (xs : List ℕ) (y : ℕ) → Has x (xs ++ y ∷ []) → Has x xs ⊎ (x ≡ y)
Has-append_cases x [] y h = elim (Has-cons x y [] h) [ inl is ↦ inr is | inr nowhere ↦ inl nowhere ]
Has-append_cases x (z ∷ xs) y h = elim (Has-cons x z (xs ++ y ∷ []) h) [
  | inl is ↦ inl (ground arith)
  | inr there ↦ elim (Has-append_cases x xs y there) [
    | inl before ↦ inl (Has-later x z xs before)
    | inr last ↦ inr last
  ]
]

pub All-Has : (P : ℕ → Type 0) (xs : List ℕ) (x : ℕ) → All P xs → Has x xs → P x
All-Has P [] x h e = cc
All-Has P (y ∷ xs) x (p, h) e = elim (Has-cons x y xs e) [
  | inl is ↦ rw is p
  | inr there ↦ All-Has P xs x h there
]

pub All-from : {P : ℕ → Type 0} (xs : List ℕ) → ((x : ℕ) → Has x xs → P x) → All P xs
All-from [] h = tt
All-from (x ∷ xs) h = (h x (Has-self x xs), All-from xs λ y there. h y (Has-later y x xs there))

module _ {H V : Type 0} (contexts : ℕ → Context H V) (size : ℕ) where
  -- The contexts are a tree: children are made after their parents, and all are within the heap.
  pub record IsTree : Type 0 where
    pub child_after : (c d : ℕ) → Has d (contexts c).children → (c < d) × (d < size)
    pub parent_before : (c p : ℕ) → (contexts c).parent ≡ some p → p < c

  abbrev pub Closed : ℕ → List ℕ → Type 0
  Closed c seen =
      (d : ℕ) → Has d (contexts c).children → (contexts d).transparent ≡ true → Has d seen

  -- What a visit of `cs` makes of what is seen and what is listed.
  pub record Visited (cs : List ℕ) (st st' : List ℕ × List ℕ) : Type 0 where
    pub keeps : (y : ℕ) → Has y st.0 → Has y st'.0
    pub covers : All (λ d. (contexts d).transparent ≡ true → Has d st'.0) cs
    pub closes : (y : ℕ) → Has y st'.0 → Has y st.0 ⊎ Closed y st'.0
    pub lists : (y : ℕ) → Has y st'.0 → Has y st.0 ⊎ Has y st'.1
    pub keeps_list : (y : ℕ) → Has y st.1 → Has y st'.1

  Visited-none : (st : List ℕ × List ℕ) → Visited [] st st
  Visited-none st = record {
    keeps = λ y h. h;
    covers = tt;
    closes = λ y h. inl h;
    lists = λ y h. inl h;
    keeps_list = λ y h. h;
  }

  Visited-cons :
      (c : ℕ) (cs : List ℕ) (s t u : List ℕ × List ℕ)
      → Visited (c ∷ []) s t
      → Visited cs t u
      → Visited (c ∷ cs) s u
  Visited-cons c cs s t u one rest = record {
    keeps = λ y h. rest.keeps y (one.keeps y h);
    covers = (λ clear. rest.keeps c (one.covers.0 clear), rest.covers);
    closes = λ y h. elim (rest.closes y h) [
      | inr closed ↦ inr closed
      | inl before ↦ elim (one.closes y before) [
        | inl first ↦ inl first
        | inr closed ↦ inr (λ d child clear. rest.keeps d (closed d child clear))
      ]
    ];
    lists = λ y h. elim (rest.lists y h) [
      | inr listed ↦ inr listed
      | inl before ↦ elim (one.lists y before) [
        | inl first ↦ inl first
        | inr listed ↦ inr (rest.keeps_list y listed)
      ]
    ];
    keeps_list = λ y h. rest.keeps_list y (one.keeps_list y h);
  }

  Visited-skip :
      (c : ℕ) (seen out : List ℕ)
      → not (contexts c).transparent || any (nat_beq c) seen ≡ true
      → Visited (c ∷ []) (seen, out) (seen, out)
  Visited-skip c seen out skip = record {
    keeps = λ y h. h;
    covers = (λ clear. ground arith, tt);
    closes = λ y h. inl h;
    lists = λ y h. inl h;
    keeps_list = λ y h. h;
  }

  Visited-take :
      (c : ℕ) (seen out : List ℕ) (t : List ℕ × List ℕ)
      → Visited (contexts c).children (c ∷ seen, out ++ c ∷ []) t
      → Visited (c ∷ []) (seen, out) t
  Visited-take c seen out t inner = record {
    keeps = λ y h. inner.keeps y (Has-later y c seen h);
    covers = (λ clear. inner.keeps c (Has-self c seen), tt);
    closes = λ y h. elim (inner.closes y h) [
      | inr closed ↦ inr closed
      | inl before ↦ elim (Has-cons y c seen before) [
        | inl is ↦ inr (
            rw is (λ d child clear.
              All-Has (λ e. (contexts e).transparent ≡ true → Has e t.0) (contexts c).children d
                inner.covers child clear))
        | inr there ↦ inl there
      ]
    ];
    lists = λ y h. elim (inner.lists y h) [
      | inr listed ↦ inr listed
      | inl before ↦ elim (Has-cons y c seen before) [
        | inl is ↦ inr (rw is (inner.keeps_list c (Has-last c out)))
        | inr there ↦ inl there
      ]
    ];
    keeps_list = λ y h. inner.keeps_list y (Has-append y out (c ∷ []) h);
  }

  module _ (tree : IsTree) where
    abbrev pub Reachable : ℕ → List ℕ → Type 0
    Reachable n = All (λ d. (d < size) × (size ≤ d + n))

    pub Reachable-children : (c n : ℕ) → size ≤ c + suc n → Reachable n (contexts c).children
    Reachable-children c n h =
        All-from (contexts c).children
          λ d child. let (after, within) = tree.child_after c d child in (within, omega arith)

    pub collect_transparent-Visited :
        (n : ℕ) (cs seen out : List ℕ)
        → Reachable n cs
        → Visited cs (seen, out) (collect_transparent contexts n cs (seen, out))
    unfolding collect_transparent
    collect_transparent-Visited zero [] seen out h = Visited-none (seen, out)
    collect_transparent-Visited zero (c ∷ cs) seen out ((within, fuel), h) = absurd (omega arith)
    collect_transparent-Visited (suc n) [] seen out h = Visited-none (seen, out)
    collect_transparent-Visited (suc n) (c ∷ cs) seen out ((within, fuel), h) =
        elim (Bool-cases (not (contexts c).transparent || any (nat_beq c) seen)) [
          | inl skip ↦ rw skip (
              Visited-cons c cs (seen, out) (seen, out) _ (Visited-skip c seen out skip)
                (collect_transparent-Visited (suc n) cs seen out h))
          | inr take ↦ rw take (
              let inner =
                collect_transparent contexts n (contexts c).children (c ∷ seen, out ++ c ∷ []) in
              Visited-cons c cs (seen, out) inner _
                (Visited-take c seen out inner (
                  collect_transparent-Visited n (contexts c).children (c ∷ seen) (out ++ c ∷ [])
                    (Reachable-children c n fuel)))
                (collect_transparent-Visited (suc n) cs inner.0 inner.1 h))
        ]
