-- ===== src/RateLimit/Client/Spoofing.antt =====
-- packages/rate-limit/src/index.ts: what a client can do to the key of its requests.
use celsian.Base.{
  ℕ, ◌≡◌, refl, ap, ◌∙◌, inl, inr, Bool, true, false, not, ◌||◌, Option, none, some, List, [], ◌∷◌,
  ◌++◌, reverse, Text, codes, text_eq, any, Bool-cases, text_beq, ltb, length, length-append, ◌+◌,
  ◌-◌, ◌≤◌, arith,
}
use mathlib.Core.List.{map-append, reverse-append, reverse_aux}
use native.Mathlib.Nat.{zero-add, suc-add}
use celsian.Map
use celsian.Map.Laws.{get-set}
use celsian.Words.Pieces.{split_on-append}
use celsian.Router.Paths.{non_empty}
use celsian.RateLimit.Address.{Cidr, is_trusted_proxy}
use celsian.RateLimit.Client.{
  Request, KeyOptions, split_forwarded_for, rightmost_untrusted, client_ip_from_trusted_proxies,
  client_ip_from_hop_count, entry_at, canonicalized, with_header, from_xff, forwarded_for,
  generate_key,
}

non_empty-append : (xs ys : List Text) → non_empty (xs ++ ys) ≡ non_empty xs ++ non_empty ys
unfolding non_empty
non_empty-append [] ys = refl
non_empty-append ([] ∷ xs) ys = non_empty-append xs ys
non_empty-append ((c ∷ s) ∷ xs) ys = ap (λ x. (c ∷ s) ∷ x) (non_empty-append xs ys)

split_forwarded_for-append :
    (t xff : Text)
    → split_forwarded_for (t ++ b',' ∷ xff) ≡ split_forwarded_for t ++ split_forwarded_for xff
unfolding split_forwarded_for
split_forwarded_for-append t xff =
    rw (split_on-append b',' t xff, map-append, non_empty-append) refl

-- Whether some entry is none of the declared proxies.
abbrev pub has_untrusted : List Cidr → List Text → Bool
has_untrusted trusted = any (λ e. not (is_trusted_proxy e trusted))

rightmost_untrusted-append :
    (trusted : List Cidr) (xs ys : List Text)
    → has_untrusted trusted xs ≡ true
    → rightmost_untrusted trusted (xs ++ ys) ≡ rightmost_untrusted trusted xs
unfolding rightmost_untrusted
rightmost_untrusted-append trusted [] ys h = cc
rightmost_untrusted-append trusted (x ∷ xs) ys h =
    elim (Bool-cases (not (is_trusted_proxy x trusted))) [
      | inl out ↦ rw out refl
      | inr own ↦ rw own (rightmost_untrusted-append trusted xs ys (rw own at h))
    ]

any-reverse_aux :
    (p : Text → Bool) (xs ys : List Text)
    → (any p xs || any p ys) ≡ true
    → any p (reverse_aux xs ys) ≡ true
any-reverse_aux p [] ys h = h
any-reverse_aux p (x ∷ xs) ys h = any-reverse_aux p xs (x ∷ ys) (ground (arith))

trusted-append :
    (trusted : List Cidr) (t xff : Text)
    → has_untrusted trusted (split_forwarded_for xff) ≡ true
    → client_ip_from_trusted_proxies trusted (t ++ b',' ∷ xff)
      ≡ client_ip_from_trusted_proxies trusted xff
unfolding client_ip_from_trusted_proxies
trusted-append trusted t xff h =
    rw (split_forwarded_for-append t xff, reverse-append)
      (rightmost_untrusted-append trusted (reverse (split_forwarded_for xff))
        (reverse (split_forwarded_for t))
        (any-reverse_aux (λ e. not (is_trusted_proxy e trusted)) (split_forwarded_for xff) []
          (ground (arith))))

entry_at-append : (xs ys : List Text) (n : ℕ) → entry_at (length xs + n) (xs ++ ys) ≡ entry_at n ys
entry_at-append [] ys n = rw zero-add refl
entry_at-append (x ∷ xs) ys n = rw suc-add (entry_at-append xs ys n)

last_entry :
    (xs ys : List Text) (hops : ℕ)
    → hops ≤ length ys
    → entry_at (length (xs ++ ys) - hops) (xs ++ ys) ≡ entry_at (length ys - hops) ys
last_entry xs ys hops h =
    ap (λ n. entry_at n (xs ++ ys)) (omega (arith, length-append xs ys))
    ∙ entry_at-append xs ys (length ys - hops)

hops-append :
    (hops : ℕ) (t xff : Text)
    → hops ≤ length (split_forwarded_for xff)
    → client_ip_from_hop_count hops (t ++ b',' ∷ xff) ≡ client_ip_from_hop_count hops xff
unfolding client_ip_from_hop_count
hops-append hops t xff h =
    let xs = split_forwarded_for t in
    let ys = split_forwarded_for xff in
    let long : ltb (length (xs ++ ys)) hops ≡ false = ground (arith, length-append xs ys) in
    let enough : ltb (length ys) hops ≡ false = ground arith in
    rw (split_forwarded_for-append t xff)
      (rw (long, enough) (ap canonicalized (last_entry xs ys hops h)))

-- The header comes through the declared proxies: some entry is not one of them, or it has as many
-- entries as there are hops.
abbrev pub CameThrough : Option (List Cidr) → ℕ → Text → Type 0
CameThrough (some trusted) hops xff = has_untrusted trusted (split_forwarded_for xff) ≡ true
CameThrough none hops xff = hops ≤ length (split_forwarded_for xff)

from_xff-append :
    (proxies : Option (List Cidr)) (hops : ℕ) (t xff : Text)
    → CameThrough proxies hops xff
    → from_xff proxies hops (t ++ b',' ∷ xff) ≡ from_xff proxies hops xff
from_xff-append (some trusted) hops t xff h = trusted-append trusted t xff h
from_xff-append none hops t xff h = hops-append hops t xff h

with_header-append :
    (f : Text → Option Text) (t xff : Text)
    → with_header (some (t ++ b',' ∷ xff)) f ≡ f (t ++ b',' ∷ xff)
with_header-append f [] xff = refl
with_header-append f (c ∷ t) xff = refl

-- A request with this header of forwarded addresses.
abbrev pub forwarded : Text → Request → Request
forwarded xff request = record request {
  headers = Map.set (codes "x-forwarded-for") xff request.headers;
}

xff-forwarded : (xff : Text) (request : Request) → forwarded_for (forwarded xff request) ≡ some xff
unfolding text_beq
xff-forwarded xff request =
    get-set (codes "x-forwarded-for") (codes "x-forwarded-for") xff request.headers

real_ip-forwarded :
    (xff : Text) (request : Request)
    → Map.get (codes "x-real-ip") (forwarded xff request).headers
      ≡ Map.get (codes "x-real-ip") request.headers
unfolding text_beq
real_ip-forwarded xff request =
    get-set (codes "x-forwarded-for") (codes "x-real-ip") xff request.headers

-- Whatever a client writes to the left of what the proxies append to `X-Forwarded-For`, its requests
-- keep their key, when the part that the proxies wrote names an address that is not one of theirs,
-- or, in the mode that counts hops, has at least as many entries as hops are declared.
pub generate_key-forwarded :
    (o : KeyOptions) (request : Request) (t xff : Text) (c : ℕ)
    → CameThrough o.trusted_proxies o.trusted_proxy_hops (c ∷ xff)
    → generate_key o (forwarded (t ++ b',' ∷ c ∷ xff) request)
      ≡ generate_key o (forwarded (c ∷ xff) request)
unfolding generate_key
generate_key-forwarded o request t xff c h =
    rw
      (
        xff-forwarded (t ++ b',' ∷ c ∷ xff) request,
        xff-forwarded (c ∷ xff) request,
        real_ip-forwarded (t ++ b',' ∷ c ∷ xff) request,
        real_ip-forwarded (c ∷ xff) request,
        with_header-append (from_xff o.trusted_proxies o.trusted_proxy_hops) t (c ∷ xff),
        from_xff-append o.trusted_proxies o.trusted_proxy_hops t (c ∷ xff) h,
      )
      refl
