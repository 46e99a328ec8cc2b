-- ===== src/Session/Cookies/ReadBack.antt =====
-- packages/cache/src/session.ts: the id that comes back from the cookie that was set.
use celsian.Base.{
  ℕ, ◌≡◌, ◌≢◌, refl, sym, ap, ◌∙◌, inl, inr, true, false, none, some, subst, All, ◌==◌, List, [],
  ◌∷◌, ◌++◌, append-nil, append_assoc, Text, codes, text_eq, text_beq_iff, ==_refl, nat_beq,
  nat_beq_iff, split_on, split_from, Bool-cases, All-append, arith,
}
use mathlib.Core.List.{cons-ne-nil}
use celsian.Words.{join_with}
use celsian.Words.Pieces.{Lacks, HasNoSpace, split_on_whole, split_on-append, trim_same}
use celsian.Cron.Words.{is_space, trim, trim_start}
use celsian.Router.Paths.{decode_uri_component, decode_from}
use celsian.Session.Cookies.{
  is_safe, encode_cookie_value, pair, value_of, find_cookie, parse_cookie,
}

decode_plain : (s : Text) → Lacks b'%' s → decode_from 0 0 0 s ≡ some s
unfolding decode_from
decode_plain [] h = refl
decode_plain (c ∷ []) (h, hs) = rw h refl
decode_plain (c ∷ d ∷ []) (h, hs) = rw h (rw (decode_plain (d ∷ []) hs) refl)
decode_plain (c ∷ d ∷ e ∷ s) (h, hs) = rw h (rw (decode_plain (d ∷ e ∷ s) hs) refl)

split_from-ne-nil : (sep : ℕ) (cur s : Text) → split_from sep cur s ≢ []
unfolding split_from
split_from-ne-nil sep cur [] h = cc
split_from-ne-nil sep cur (c ∷ s) h = elim (Bool-cases (nat_beq c sep)) [
  | inl e ↦ cons-ne-nil cur (split_from sep [] s) (rw e at h)
  | inr e ↦ split_from-ne-nil sep (cur ++ c ∷ []) s (rw e at h)
]

join-cons :
    (sep x : Text) (xs : List Text)
    → xs ≢ []
    → join_with sep (x ∷ xs) ≡ x ++ (sep ++ join_with sep xs)
unfolding join_with
join-cons sep x [] h = absurd (h refl)
join-cons sep x (y ∷ ys) h = refl

join-split_from : (cur s : Text) → join_with (codes "=") (split_from b'=' cur s) ≡ cur ++ s
unfolding split_from
join-split_from cur [] = unfold join_with in rw append-nil refl
join-split_from cur (c ∷ s) = elim (Bool-cases (nat_beq c b'=')) [
  | inr e ↦ rw e (join-split_from (cur ++ c ∷ []) s ∙ rw append_assoc refl)
  | inl e ↦ rw e (
      join-cons (codes "=") cur (split_from b'=' [] s) (split_from-ne-nil b'=' [] s)
      ∙ ap (λ x. cur ++ b'=' ∷ x) (join-split_from [] s)
      ∙ ap (λ k. cur ++ k ∷ s) (sym ((nat_beq_iff c b'=').0 e)))
]

join-split_on : (s : Text) → join_with (codes "=") (split_on b'=' s) ≡ s
unfolding split_on
join-split_on s = join-split_from [] s

-- What the cookie of a session may hold as it is.
abbrev pub IsPlain : Text → Type 0
IsPlain s = (is_safe s ≡ true) × Lacks b'%' s

-- A name of cookies: no space, no `=` and no `;`.
abbrev pub IsName : Text → Type 0
IsName s = HasNoSpace s × (Lacks b'=' s × Lacks b';' s)

==_false : (a b : Text) → a ≢ b → a == b ≡ false
==_false a b h = ground (arith, text_beq_iff a b)

eq_spaceless : is_space b'=' ≡ false
unfolding is_space
eq_spaceless = refl

value-pair :
    (name id : Text)
    → IsName name
    → HasNoSpace id
    → Lacks b'%' id
    → value_of name (split_on b'=' (trim (pair name id))) ≡ some id
unfolding decode_uri_component
value-pair name id (spaces, (plain, _)) spaceless unescaped =
    rw
      (
        trim_same (pair name id) (All-append _ name (b'=' ∷ id) spaces (eq_spaceless, spaceless)),
        split_on-append b'=' name id,
        split_on_whole b'=' name plain,
        ==_refl name,
        join-split_on id,
        decode_plain id unescaped,
      )
      refl

is_safe-HasNoSpace : (s : Text) → is_safe s ≡ true → HasNoSpace s
unfolding is_safe is_space
is_safe-HasNoSpace [] h = tt
is_safe-HasNoSpace (c ∷ s) h = (ground (arith), is_safe-HasNoSpace s (ground (arith)))

is_safe-Lacks : (s : Text) → is_safe s ≡ true → Lacks b';' s
unfolding is_safe
is_safe-Lacks [] h = tt
is_safe-Lacks (c ∷ s) h = (ground (arith), is_safe-Lacks s (ground (arith)))

-- A cookie of another name, as a client sends it.
abbrev pub IsOther : Text → Text × Text → Type 0
IsOther name (k, v) =
    (k ≢ name) × (HasNoSpace k × Lacks b'=' k × Lacks b';' k) × HasNoSpace v × Lacks b';' v

-- The cookies of a header, which a client joins by `; `.
unfoldable pub header : List (Text × Text) → Text → List Text → Text
header [] own after = join_with (codes "; ") (own ∷ after)
header ((k, v) ∷ before) own after = pair k v ++ (codes "; " ++ header before own after)

trim_spaced : (s : Text) → HasNoSpace s → trim (32 ∷ s) ≡ trim s
unfolding trim trim_start is_space
trim_spaced s h = refl

-- The space that stands behind a `;`.
data IsLead : Text → Type 0 where
  none_there : IsLead []
  one_there : IsLead (32 ∷ [])

trim_lead : (lead s : Text) → IsLead lead → HasNoSpace s → trim (lead ++ s) ≡ s
trim_lead lead s none_there h = trim_same s h
trim_lead lead s one_there h = trim_spaced s h ∙ trim_same s h

Lacks-lead : (lead s : Text) → IsLead lead → Lacks b';' s → Lacks b';' (lead ++ s)
Lacks-lead lead s none_there h = h
Lacks-lead lead s one_there h = (refl, h)

pair-HasNoSpace : (k v : Text) → HasNoSpace k → HasNoSpace v → HasNoSpace (pair k v)
pair-HasNoSpace k v h l = All-append _ k (b'=' ∷ v) h (eq_spaceless, l)

pair-Lacks : (k v : Text) → Lacks b';' k → Lacks b';' v → Lacks b';' (pair k v)
pair-Lacks k v h l = All-append _ k (b'=' ∷ v) h (refl, l)

other_value :
    (name lead k v : Text)
    → IsLead lead
    → IsOther name (k, v)
    → value_of name (split_on b'=' (trim (lead ++ pair k v))) ≡ none
other_value name lead k v led (other, (spaces, plain, _), spaceless, _) =
    let differs : k == name ≡ false = ==_false k name other in
    rw
      (
        trim_lead lead (pair k v) led (pair-HasNoSpace k v spaces spaceless),
        split_on-append b'=' k v,
        split_on_whole b'=' k plain,
        differs,
      )
      refl

-- The cookie itself, first in what is left of the header.
own_value :
    (name id lead rest : Text)
    → IsLead lead
    → IsName name
    → IsPlain id
    → find_cookie name (split_on b';' (lead ++ pair name id)) ≡ some id
      × (find_cookie name (split_on b';' ((lead ++ pair name id) ++ b';' ∷ rest)) ≡ some id)
unfolding find_cookie
own_value name id lead rest led (spaces, (plain, lacks)) (safe, unescaped) =
    let whole : split_on b';' (lead ++ pair name id) ≡ (lead ++ pair name id) ∷ [] =
      split_on_whole b';' (lead ++ pair name id)
        (Lacks-lead lead (pair name id) led (pair-Lacks name id lacks (is_safe-Lacks id safe))) in
    let trimmed : trim (lead ++ pair name id) ≡ trim (pair name id) =
      trim_lead lead (pair name id) led spaceless ∙ sym (trim_same (pair name id) spaceless) in
    let found =
      value-pair name id (spaces, (plain, lacks)) (is_safe-HasNoSpace id safe) unescaped in
    (
      rw (whole, trimmed, found) refl,
      rw (split_on-append b';' (lead ++ pair name id) rest, whole, trimmed, found) refl,
    )
  where
    spaceless : HasNoSpace (pair name id)
    spaceless = pair-HasNoSpace name id spaces (is_safe-HasNoSpace id safe)

own_found :
    (name id lead : Text) (after : List Text)
    → IsLead lead
    → IsName name
    → IsPlain id
    → find_cookie name (split_on b';' (lead ++ header [] (pair name id) after)) ≡ some id
unfolding header join_with
own_found name id lead [] led named plain = (own_value name id lead [] led named plain).0
own_found name id lead (c ∷ after) led named plain =
    subst (λ x. find_cookie name (split_on b';' x) ≡ some id)
      (append_assoc lead (pair name id) (b';' ∷ 32 ∷ join_with (codes "; ") (c ∷ after)))
      ((own_value name id lead (32 ∷ join_with (codes "; ") (c ∷ after)) led named plain).1)

behind_others :
    (name id lead : Text) (before : List (Text × Text)) (after : List Text)
    → IsLead lead
    → IsName name
    → IsPlain id
    → All (IsOther name) before
    → find_cookie name (split_on b';' (lead ++ header before (pair name id) after)) ≡ some id
unfolding header find_cookie
behind_others name id lead [] after led named plain others =
    own_found name id lead after led named plain
behind_others name id lead ((k, v) ∷ before) after led named plain (other, others) =
    let tail : Text = 32 ∷ header before (pair name id) after in
    let ih = behind_others name id (32 ∷ []) before after one_there named plain others in
    let lacks = Lacks-lead lead (pair k v) led (pair-Lacks k v other.1.2 other.3) in
    subst (λ x. find_cookie name (split_on b';' x) ≡ some id)
      (append_assoc lead (pair k v) (b';' ∷ tail))
      (rw
        (
          split_on-append b';' (lead ++ pair k v) tail,
          split_on_whole b';' (lead ++ pair k v) lacks,
          other_value name lead k v led other,
        )
        ih)

-- An id of safe characters without a percent sign is written to the cookie as it is, and a request
-- that sends the cookie back, alone, first, last or among others in its header, is read as having
-- this id, where the cookies in front of it have other names.
pub parse_cookie-encode_cookie_value :
    (name : Text) (before : List (Text × Text)) (after : List Text) (c : ℕ) (id : Text)
    → IsName name
    → IsPlain (c ∷ id)
    → All (IsOther name) before
    → (encode_cookie_value (c ∷ id) ≡ some (c ∷ id))
      × (parse_cookie (header before (pair name (c ∷ id)) after) name ≡ some (c ∷ id))
unfolding encode_cookie_value parse_cookie
parse_cookie-encode_cookie_value name before after c id named (safe, unescaped) others = (
  rw safe refl,
  behind_others name (c ∷ id) [] before after none_there named (safe, unescaped) others,
)
