-- ===== src/Session/Tests.antt =====
-- Runs of packages/cache/src/session.ts, and its theorems at concrete sessions.
use celsian.Base.{
  ℕ, ◌≡◌, ◌≢◌, refl, false, none, some, [], ◌∷◌, codes, text_eq, text_beq, text_beq_iff, decimal,
  split_on, split_from, arith,
}
use celsian.Map
use celsian.Map.{Map}
use celsian.Words.{join_with}
use celsian.Words.Escapes.{encode_uri_component}
use celsian.Cron.Words.{is_space, is_digit, trim}
use celsian.Router.Paths.{decode_uri_component, decode_from}
use celsian.Cache.Store
use celsian.Cache.Store.{MemoryKvStore, reinsert, evict_if_needed, is_expired}
use celsian.Cache.Store.Validity.{IsValid}
use celsian.Session.{
  SessionOptions, Session, make_session, save, regenerate, load, create, from_request, destroy,
}
use celsian.Session.Memory.{StateOf, memory_store}
use celsian.Session.Cookies.{
  CookieOptions, is_safe, encode_cookie_value, cookie, pair, find_cookie, parse_cookie,
}
use celsian.Session.Cookies.ReadBack.{header, parse_cookie-encode_cookie_value}
use celsian.Session.Fixation.{Server, regenerate_lem}

keeping : Unit {0}
unfolding join_with encode_uri_component is_space is_digit trim decode_uri_component decode_from
    Store.get Store.set Store.delete reinsert evict_if_needed Store.evict_loop is_expired
    make_session save regenerate load create from_request destroy memory_store is_safe
    encode_cookie_value cookie find_cookie parse_cookie Map.get Map.set Map.has Map.delete text_beq
    decimal split_on split_from
keeping = tt

abbrev options : SessionOptions
options = record { ttl_ms = some 5000; cookie_name = none; prefix = none }

abbrev cookie_options : CookieOptions
cookie_options = record {
  http_only = none;
  secure = some false;
  same_site = none;
  path = none;
  max_age = none;
}

-- An id that holds an escape is written as it is, and read as another.
cookies :
    (cookie options (codes "a1") cookie_options
      ≡ some (codes "sid=a1; Path=/; Max-Age=5; SameSite=Lax; HttpOnly"))
    × (encode_cookie_value (codes "a;b") ≡ some (codes "a%3Bb"))
    × (parse_cookie (codes "x=1; sid=a%3Bb") (codes "sid") ≡ some (codes "a;b"))
    × (encode_cookie_value (codes "a%41") ≡ some (codes "a%41"))
    × (parse_cookie (codes "sid=a%41") (codes "sid") ≡ some (codes "aA"))
    × (parse_cookie (codes "sid=a=b%") (codes "sid") ≡ some (codes "a=b%"))
unfolding keeping
cookies = (refl, refl, refl, refl, refl, refl)

abbrev fresh : StateOf ℕ
fresh = record { store = []; max_entries = 3 }

fresh-IsValid : IsValid fresh
fresh-IsValid = record { distinct = tt; bounded = omega arith }

abbrev logged_in : Session ℕ
logged_in = record { id = codes "old"; session_data = (codes "user", 7) ∷ [] }

abbrev saved : StateOf ℕ
saved = save memory_store options 0 logged_in fresh

rotated :
    ((load memory_store options 1 (codes "old") saved).1 ≡ some logged_in)
    × ((load memory_store options 5000 (codes "old") saved).1 ≡ none)
    × ((from_request memory_store options 1 (codes "new") (some (codes "mine")) saved).1
        ≡ make_session (codes "new") [])
unfolding keeping
rotated = (refl, refl, refl)

x_ne_sid : codes "x" ≢ codes "sid"
unfolding text_beq
x_ne_sid h = cc

parse_cookie-encode_cookie_value_example :
    (encode_cookie_value (codes "a=1") ≡ some (codes "a=1"))
    × (parse_cookie
          (header ((codes "x", codes "2") ∷ []) (pair (codes "sid") (codes "a=1")) [])
          (codes "sid")
        ≡ some (codes "a=1"))
unfolding keeping
parse_cookie-encode_cookie_value_example =
    parse_cookie-encode_cookie_value (codes "sid") ((codes "x", codes "2") ∷ []) [] b'a'
      (codes "=1")
      ((refl, (refl, (refl, tt))), ((refl, (refl, (refl, tt))), (refl, (refl, (refl, tt)))))
      (refl, (refl, (refl, (refl, tt))))
      ((x_ne_sid, ((refl, tt), (refl, tt), (refl, tt)), (refl, tt), (refl, tt)), tt)

new_ne_old : codes "new" ≢ codes "old"
unfolding text_beq
new_ne_old = ground (arith, text_beq_iff (codes "new") (codes "old"))

regenerate_lem_example :
    ((regenerate memory_store options 1 (codes "new") logged_in fresh).1
      ≡ make_session (codes "new") ((codes "user", 7) ∷ []))
    × ((load memory_store options 9
          (codes "old")
          (regenerate memory_store options 1 (codes "new") logged_in fresh).0).1
        ≡ none)
    × ((load memory_store options 9
          (codes "new")
          (regenerate memory_store options 1 (codes "new") logged_in fresh).0).1
        ≡ some (make_session (codes "new") ((codes "user", 7) ∷ [])))
unfolding memory_store
regenerate_lem_example =
    regenerate_lem memory_store options 1 9 (codes "new") logged_in fresh fresh-IsValid new_ne_old
      refl (omega arith)

abbrev empty_server : Server (memory_store {A = ℕ}) options
empty_server = record { state = fresh; issued = []; sessions = [] }

abbrev visited : Server (memory_store {A = ℕ}) options
visited = record {
  state = (from_request memory_store options 0 (codes "s1") (some (codes "mine")) fresh).0;
  issued = codes "s1" ∷ [];
  sessions = (from_request memory_store options 0 (codes "s1") (some (codes "mine")) fresh).1 ∷ [];
}
