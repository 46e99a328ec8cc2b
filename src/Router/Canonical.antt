-- ===== src/Router/Canonical.antt =====
-- One spelling for each path that `match` accepts.
use celsian.Base.{
  ℕ, ◌≡◌, ◌≢◌, ◌⊎◌, refl, sym, ap, ◌∙◌, subst, inl, inr, Bool, true, false, ◌||◌, Option, none,
  some, [], ◌∷◌, ◌++◌, Text, append-nil, append_assoc, arith, nat_beq, nat_beq_iff, text_beq,
  text_beq_iff, split_from, split_on, any, Bool-cases,
}
use celsian.Router.Paths.{
  slash, split_path, non_empty, ends_with_slash, drop_last, has_double_slash, is_rooted,
  is_dot_segment, without_dots, strip_trailing, canonicalize_path, join,
}

join_cons :
    (a : Text) (d : ℕ) (cur s : Text)
    → join (a ∷ non_empty (split_from b'/' (d ∷ cur) s))
      ≡ a ++ b'/' ∷ join (non_empty (split_from b'/' (d ∷ cur) s))
unfolding join non_empty split_from
join_cons a d cur [] = refl
join_cons a d cur (c ∷ s) = elim (Bool-cases (nat_beq c b'/')) [
  | inl e ↦ rw e refl
  | inr e ↦ rw e (join_cons a d (cur ++ c ∷ []) s)
]

has_double_slash_tail :
    (c : ℕ) (s : Text) → has_double_slash (c ∷ s) ≡ false → has_double_slash s ≡ false
unfolding has_double_slash
has_double_slash_tail c [] h = refl
has_double_slash_tail c (d ∷ s) h = ground arith

ends_with_slash_tail :
    (c : ℕ) (s : Text) → ends_with_slash (c ∷ s) ≡ false → ends_with_slash s ≡ false
unfolding ends_with_slash
ends_with_slash_tail c [] h = refl
ends_with_slash_tail c (d ∷ s) h = h

-- The segments of a text without empty ones, after the beginning of the first, give it back.
join-split_from :
    (x : ℕ) (cur s : Text)
    → has_double_slash s ≡ false
    → ends_with_slash s ≡ false
    → join (non_empty (split_from b'/' (x ∷ cur) s)) ≡ x ∷ cur ++ s
unfolding join non_empty split_from has_double_slash ends_with_slash
join-split_from x cur [] h k = sym (append-nil (x ∷ cur))
join-split_from x cur (c ∷ []) h k = rw k refl
join-split_from x cur (c ∷ d ∷ s) h k = elim (Bool-cases (nat_beq c b'/')) [
  | inr e ↦ rw e (
      join-split_from x (cur ++ c ∷ []) (d ∷ s) (rw e at h) k
      ∙ ap (λ t. x ∷ t) (append_assoc cur (c ∷ []) (d ∷ s)))
  | inl e ↦
      let plain : nat_beq d b'/' ≡ false = ground arith in
      let doubled : has_double_slash s ≡ false = has_double_slash_tail d s (ground arith) in
      rw e (
        rw plain (
          join_cons (x ∷ cur) d [] s
          ∙ ap (λ t. x ∷ cur ++ b'/' ∷ t)
              (join-split_from d [] s doubled (ends_with_slash_tail d s k))
          ∙ ap (λ a. x ∷ cur ++ a ∷ d ∷ s) (sym ((nat_beq_iff c b'/').0 e))))
]

-- A rooted path with no empty segment and no trailing slash is spelled by its segments.
join-split_path :
    (p : Text)
    → is_rooted p ≡ true
    → has_double_slash p ≡ false
    → ends_with_slash p ≡ false
    → b'/' ∷ join (split_path p) ≡ p
unfolding split_path split_on split_from non_empty has_double_slash
join-split_path [] r h k = cc
join-split_path (c ∷ []) r h k = absurd (unfold ends_with_slash in ground (r, k, arith))
join-split_path (c ∷ d ∷ s) r h k =
    let plain : nat_beq d b'/' ≡ false = ground arith in
    let doubled : has_double_slash s ≡ false = has_double_slash_tail d s (ground arith) in
    rw r (
      rw plain (
        ap (λ t. b'/' ∷ t)
          (join-split_from d [] s doubled (ends_with_slash_tail d s (unfold ends_with_slash in k)))
        ∙ ap (λ a. a ∷ d ∷ s) (sym ((nat_beq_iff c b'/').0 r))))

has_double_slash-drop_last :
    (p : Text) → has_double_slash p ≡ false → has_double_slash (drop_last p) ≡ false
unfolding has_double_slash drop_last
has_double_slash-drop_last [] h = refl
has_double_slash-drop_last (c ∷ []) h = refl
has_double_slash-drop_last (c ∷ d ∷ []) h = refl
has_double_slash-drop_last (c ∷ d ∷ e ∷ s) h =
    ground (arith, has_double_slash-drop_last (d ∷ e ∷ s))

ends_with_slash-drop_last :
    (p : Text)
    → has_double_slash p ≡ false
    → ends_with_slash p ≡ true
    → ends_with_slash (drop_last p) ≡ false
unfolding has_double_slash drop_last ends_with_slash
ends_with_slash-drop_last [] h k = refl
ends_with_slash-drop_last (c ∷ []) h k = refl
ends_with_slash-drop_last (c ∷ d ∷ []) h k = ground arith
ends_with_slash-drop_last (c ∷ d ∷ e ∷ s) h k =
    ground (arith, ends_with_slash-drop_last (d ∷ e ∷ s))

is_rooted-drop_last :
    (p : Text) → is_rooted p ≡ true → drop_last p ≢ [] → is_rooted (drop_last p) ≡ true
unfolding drop_last
is_rooted-drop_last [] r n = cc
is_rooted-drop_last (c ∷ []) r n = absurd (n refl)
is_rooted-drop_last (c ∷ d ∷ s) r n = r

drop_last-append_slash : (p : Text) → ends_with_slash p ≡ true → p ≡ drop_last p ++ slash
unfolding drop_last ends_with_slash
drop_last-append_slash [] k = cc
drop_last-append_slash (c ∷ []) k = ap (λ a. a ∷ []) ((nat_beq_iff c b'/').0 k)
drop_last-append_slash (c ∷ d ∷ s) k = ap (λ t. c ∷ t) (drop_last-append_slash (d ∷ s) k)

-- The one spelling `q` of a requested path `p`.
pub record IsCanonical (ignore : Bool) (p q : Text) : Type 0 where
  -- Its segments, each behind a slash.
  pub spelled : b'/' ∷ join (split_path q) ≡ q
  -- None of them is a dot segment.
  pub dotless : any is_dot_segment (split_on b'/' q) ≡ false
  -- It is canonical itself.
  pub stable : canonicalize_path q ignore ≡ some q
  -- The request is that spelling, or has one slash more where that is allowed, or is empty.
  pub near : (p ≡ q) ⊎ (((ignore ≡ true) × (p ≡ q ++ slash)) ⊎ ((p ≡ []) × (q ≡ slash)))

slash-IsCanonical : (ignore : Bool) (p : Text) → (p ≡ []) ⊎ (p ≡ slash) → IsCanonical ignore p slash
slash-IsCanonical ignore p e = record {
  spelled = unfold split_path split_on split_from non_empty join in refl;
  dotless = unfold split_on split_from text_beq in refl;
  stable = unfold canonicalize_path text_beq in refl;
  near = ground (arith, e);
}

-- A path that is neither empty nor the root, and has the form that the tests leave.
plain-IsCanonical :
    (ignore : Bool) (p q : Text)
    → text_beq q [] || text_beq q slash ≡ false
    → is_rooted q ≡ true
    → has_double_slash q ≡ false
    → ends_with_slash q ≡ false
    → any is_dot_segment (split_on b'/' q) ≡ false
    → (p ≡ q) ⊎ ((ignore ≡ true) × (p ≡ q ++ slash))
    → IsCanonical ignore p q
plain-IsCanonical ignore p q other rooted plain open_end dotless near = record {
  spelled = join-split_path q rooted plain open_end;
  dotless = dotless;
  stable =
      unfold canonicalize_path strip_trailing without_dots in
      rw other (rw rooted (rw plain (rw open_end (rw dotless refl))));
  near = ground (arith, near);
}

missing : {q : Text} → ◌≡◌ {A = Option Text} none (some q) → ⊥
missing h = cc

some_injective : {a b : Text} → ◌≡◌ {A = Option Text} (some a) (some b) → a ≡ b
some_injective e = cc

without_dots_lem :
    (x q : Text)
    → without_dots x ≡ some q
    → (any is_dot_segment (split_on b'/' x) ≡ false) × (x ≡ q)
unfolding without_dots
without_dots_lem x q h = elim (Bool-cases (any is_dot_segment (split_on b'/' x))) [
  | inl e ↦ absurd (missing (rw (e, without_dots) at h))
  | inr e ↦ (e, some_injective (rw (e, without_dots) at h))
]

not_slash : (x : Text) → ends_with_slash x ≡ false → text_beq x slash ≡ false
not_slash x k = elim (Bool-cases (text_beq x slash)) [
  | inr e ↦ e
  | inl e ↦ absurd (clash (subst (λ y. ends_with_slash y ≡ false) ((text_beq_iff x slash).0 e) k))
]
  where
    clash : ends_with_slash slash ≡ false → ⊥
    clash h = unfold ends_with_slash in cc

stripped-IsCanonical :
    (ignore : Bool) (p q : Text)
    → text_beq p [] || text_beq p slash ≡ false
    → is_rooted p ≡ true
    → has_double_slash p ≡ false
    → strip_trailing ignore p ≡ some q
    → IsCanonical ignore p q
unfolding strip_trailing
stripped-IsCanonical ignore p q other rooted plain h = elim (Bool-cases (ends_with_slash p)) [
  | inr k ↦
      let (dotless, same) = without_dots_lem p q (rw (k, strip_trailing) at h) in
      subst (λ x. IsCanonical ignore p x) same
        (plain-IsCanonical ignore p p other rooted plain k dotless (inl refl))
  | inl k ↦ elim (Bool-cases ignore) [
    | inr strict ↦ absurd (missing (rw strict at (rw (k, strip_trailing) at h)))
    | inl loose ↦ elim (Bool-cases (text_beq (drop_last p) [])) [
      | inl empty ↦
          subst (λ x. IsCanonical ignore p x)
            (some_injective (rw empty at (rw loose at (rw (k, strip_trailing) at h))))
            (slash-IsCanonical ignore p (
              inr (
                drop_last-append_slash p k
                ∙ ap (λ x. x ++ slash) ((text_beq_iff (drop_last p) []).0 empty))))
      | inr full ↦
          let (dotless, same) =
            without_dots_lem (drop_last p) q
              (rw full at (rw loose at (rw (k, strip_trailing) at h))) in
          let open_end = ends_with_slash-drop_last p plain k in
          subst (λ x. IsCanonical ignore p x) same
            (plain-IsCanonical ignore p (drop_last p) (rw full (not_slash (drop_last p) open_end))
              (is_rooted-drop_last p rooted (λ e. ground (arith, text_beq_iff (drop_last p) [])))
              (has_double_slash-drop_last p plain) open_end dotless
              (inr (loose, drop_last-append_slash p k)))
    ]
  ]
]

-- A path that `canonicalizePath` lets through has one spelling: a slash and its segments with a
-- slash between each two, none of them empty or a dot segment. It is canonical itself, and the
-- request is that path, that path with one slash behind where trailing slashes are ignored, or
-- empty for the root.
pub canonicalize_path-IsCanonical :
    (ignore : Bool) (p q : Text) → canonicalize_path p ignore ≡ some q → IsCanonical ignore p q
unfolding canonicalize_path
canonicalize_path-IsCanonical ignore p q h = elim (Bool-cases (text_beq p [] || text_beq p slash)) [
  | inl e ↦
      subst (λ x. IsCanonical ignore p x) (some_injective (rw (e, canonicalize_path) at h))
        (slash-IsCanonical ignore p (ground (arith, text_beq_iff p [], text_beq_iff p slash)))
  | inr e ↦ elim (Bool-cases (is_rooted p)) [
    | inr r ↦ absurd (missing (rw r at (rw (e, canonicalize_path) at h)))
    | inl r ↦ elim (Bool-cases (has_double_slash p)) [
      | inl d ↦ absurd (missing (rw d at (rw r at (rw (e, canonicalize_path) at h))))
      | inr d ↦
          stripped-IsCanonical ignore p q e r d (rw d at (rw r at (rw (e, canonicalize_path) at h)))
    ]
  ]
]
