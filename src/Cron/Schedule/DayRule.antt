-- ===== src/Cron/Schedule/DayRule.antt =====
-- The day rule of unix cron, through the parser.
use celsian.Base.{
  split_on, split_from, ℕ, suc, ◌≤◌, ◌≡◌, ◌⊎◌, ap, nat_beq, nat_beq_iff, refl, inl, inr, true,
  false, ◌&&◌, ◌||◌, List, [], ◌∷◌, Text, codes, arith, Bool-cases, text_beq, text_beq_iff, subst,
}
use celsian.Cron.Words.{split_spaces, trim}
use celsian.Cron.Fields.{
  ParsedCron, ok, member, parse_field, parse_fields, parse_cron_expression, is_restricted_day_field,
  parse_parts, parse_part, parse_every,
}
use celsian.Cron.Fields.Stride.{stride_lem, covers}
use celsian.Cron.Schedule.{Date, day_matches}

-- `*` lets every value of the field through.
member-star :
    (lo hi v : ℕ) (vs : List ℕ)
    → parse_field lo hi (codes "*") ≡ ok vs
    → lo ≤ v
    → v ≤ hi
    → member v vs ≡ true
unfolding parse_field parse_parts parse_part parse_every split_on split_from text_beq covers
member-star lo hi v vs h a b =
    let (ws, runs, has) =
      stride_lem (suc hi) ok lo hi 1 [] (λ j p q. refl) (omega arith) (omega arith) in
    let same : ok ws ≡ ok vs = rw runs at h in ground (arith, has v)

-- The fields that an expression splits into, with what they parse to.
pub record Parses (m h dom mon dow : Text) (p : ParsedCron) : Type 0 where
  pub minutes : parse_field 0 59 m ≡ ok p.minutes
  pub hours : parse_field 0 23 h ≡ ok p.hours
  pub days_of_month : parse_field 1 31 dom ≡ ok p.days_of_month
  pub months : parse_field 1 12 mon ≡ ok p.months
  pub days_of_week : parse_field 0 6 dow ≡ ok p.days_of_week
  pub dom_flag : p.days_of_month_restricted ≡ is_restricted_day_field dom
  pub dow_flag : p.days_of_week_restricted ≡ is_restricted_day_field dow

parse_fields-Parses :
    (m h dom mon dow : Text) (p : ParsedCron)
    → parse_fields (m ∷ h ∷ dom ∷ mon ∷ dow ∷ []) ≡ ok p
    → Parses m h dom mon dow p
unfolding parse_fields
parse_fields-Parses m h dom mon dow p e = ground arith

abbrev pub any_day : Text
any_day = codes "*"

member_of_star :
    (lo hi v : ℕ) (vs : List ℕ) (t : Text)
    → text_beq t any_day ≡ true
    → parse_field lo hi t ≡ ok vs
    → lo ≤ v
    → v ≤ hi
    → member v vs ≡ true
member_of_star lo hi v vs t star h a b =
    member-star lo hi v vs
      (subst (λ x. parse_field lo hi x ≡ ok vs) ((text_beq_iff t any_day).0 star) h) a b

-- The star flag of unix cron: the first character of the field is a star.
abbrev pub BeginsWithStar : Text → Type 0
BeginsWithStar t = (s : Text) × (t ≡ b'*' ∷ s)

unrestricted : (t : Text) → BeginsWithStar t → is_restricted_day_field t ≡ false
unfolding is_restricted_day_field
unrestricted t (s, e) = rw e refl

restricted : (t : Text) → ¬ BeginsWithStar t → is_restricted_day_field t ≡ true
unfolding is_restricted_day_field
restricted [] h = refl
restricted (c ∷ s) h = elim (Bool-cases (nat_beq c b'*')) [
  | inl star ↦ absurd (h (s, ap (λ k. k ∷ s) ((nat_beq_iff c b'*').0 star)))
  | inr other ↦ rw other refl
]

-- When an expression of five fields parses, the day fields decide as in unix cron: where one of
-- them begins with a star, both must have the day, and where none does, one is enough. A field that
-- is a star and nothing else has every day, so that the other field decides alone.
pub day_matches_lem :
    (expr m h dom mon dow : Text) (p : ParsedCron) (d : Date)
    → split_spaces (trim expr) ≡ m ∷ h ∷ dom ∷ mon ∷ dow ∷ []
    → parse_cron_expression expr ≡ ok p
    → 1 ≤ d.date
    → d.date ≤ 31
    → d.day ≤ 6
    → (BeginsWithStar dom ⊎ BeginsWithStar dow
        → day_matches p d ≡ (member d.date p.days_of_month && member d.day p.days_of_week))
      × (¬ BeginsWithStar dom
          → ¬ BeginsWithStar dow
          → day_matches p d ≡ (member d.date p.days_of_month || member d.day p.days_of_week))
      × (dow ≡ any_day → day_matches p d ≡ member d.date p.days_of_month)
      × (dom ≡ any_day → day_matches p d ≡ member d.day p.days_of_week)
unfolding day_matches parse_cron_expression
day_matches_lem expr m h dom mon dow p d parts parsed from to week =
    let ps = parse_fields-Parses m h dom mon dow p (rw parts at parsed) in
    (
      λ star. elim star [
        | inl dom_star ↦ ground (arith, ps.dom_flag, unrestricted dom dom_star)
        | inr dow_star ↦ ground (arith, ps.dow_flag, unrestricted dow dow_star)
      ],
      λ no_dom no_dow.
          ground (arith, ps.dom_flag, ps.dow_flag, restricted dom no_dom, restricted dow no_dow),
      λ star. ground (
        arith,
        ps.dow_flag,
        unrestricted dow ([], star),
        member_of_star 0 6 d.day p.days_of_week dow ((text_beq_iff dow any_day).1 star)
            ps.days_of_week (omega arith) week,
      ),
      λ star. ground (
        arith,
        ps.dom_flag,
        unrestricted dom ([], star),
        member_of_star 1 31 d.date p.days_of_month dom ((text_beq_iff dom any_day).1 star)
            ps.days_of_month from to,
      ),
    )
