-- ===== src/Session.antt =====
-- packages/cache/src/session.ts: sessions on a key-value store. The store is an interface, the parts
-- of `KVStore` that sessions call, with what they rely on; Session.Memory fills it. A store keeps a
-- copy of the data that it is given, as one that serializes does. A new id is an argument.
pub mod Store
pub mod Fixation
pub mod Cookies
mod Tests
pub mod Memory
use celsian.Base.{
  ℕ, Bool, true, false, not, Option, none, some, List, [], ◌∷◌, ◌++◌, Text, codes, text_eq, ◌==◌,
  length, nat_beq, if◌then◌else◌,
}
use celsian.Map
use celsian.Map.{Map}
use celsian.Session.Store.{KvStore}

pub record SessionOptions : Type 0 where
  pub ttl_ms : Option ℕ
  pub cookie_name : Option Text
  pub prefix : Option Text

abbrev default_ttl : ℕ
default_ttl = 86400000

abbrev or_else : {A : Type 0} → Option A → A → A
or_else none d = d
or_else (some a) d = a

abbrev pub ttl : SessionOptions → ℕ
ttl o = or_else o.ttl_ms default_ttl

abbrev pub cookie_name_of : SessionOptions → Text
cookie_name_of o = or_else o.cookie_name (codes "sid")

abbrev pub key_of : SessionOptions → Text → Text
key_of o id = or_else o.prefix (codes "sess:") ++ id

pub record Session (A : Type 0) : Type 0 where
  pub id : Text
  pub session_data : Map Text A

module _ {A : Type 0} where
  unfoldable pub make_session : Text → Map Text A → Session A
  make_session id initial = record { id = id; session_data = initial }

  unfoldable pub get : Text → Session A → Option A
  get key s = Map.get key s.session_data

  unfoldable pub set : Text → A → Session A → Session A
  set key value s = record s { session_data = Map.set key value s.session_data }

  unfoldable pub delete : Text → Session A → Session A
  delete key s = record s { session_data = Map.delete key s.session_data }

  abbrev pub is_empty : Map Text A → Bool
  is_empty [] = true
  is_empty (e ∷ m) = false

abbrev pub session_of : {A : Type 0} → Text → Option (Map Text A) → Option (Session A)
session_of id none = none
session_of id (some d) = some (make_session id d)

module _ {S A : Type 0} (store : KvStore S (Map Text A)) (o : SessionOptions) where
  -- `save`: an empty session is taken out of the store.
  unfoldable pub save : ℕ → Session A → S → S
  save now s st =
      if is_empty s.session_data
      then (store.delete (key_of o s.id) st).0
      else store.set now (key_of o s.id) s.session_data (ttl o) st

  unfoldable pub destroy_session : Session A → S → S × Session A
  destroy_session s st = ((store.delete (key_of o s.id) st).0, record s { session_data = [] })

  -- `regenerate`: the new entry is written before the old one goes.
  unfoldable pub regenerate : ℕ → Text → Session A → S → S × Session A
  regenerate now new_id s st =
      if new_id == s.id
      then (st, s)
      else let s' : Session A = record s { id = new_id } in
        ((store.delete (key_of o s.id) (save now s' st)).0, s')

  unfoldable pub create : ℕ → Text → Option (Map Text A) → S → S × Session A
  create now new_id none st = (st, make_session new_id [])
  create now new_id (some []) st = (st, make_session new_id [])
  create now new_id (some (e ∷ m)) st =
      (save now (make_session new_id (e ∷ m)) st, make_session new_id (e ∷ m))

  unfoldable pub load : ℕ → Text → S → S × Option (Session A)
  load now id st = let r = store.get now (key_of o id) st in (r.0, session_of id r.1)

  abbrev pub existing_or_new : ℕ → Text → S → Option (Session A) → S × Session A
  existing_or_new now new_id st (some s) = (st, s)
  existing_or_new now new_id st none = create now new_id none st

  -- `fromRequest`, with the id that `parseCookie` finds; an empty one counts as none.
  unfoldable pub from_request : ℕ → Text → Option Text → S → S × Session A
  from_request now new_id none st = create now new_id none st
  from_request now new_id (some []) st = create now new_id none st
  from_request now new_id (some (c ∷ sid)) st =
      let r = load now (c ∷ sid) st in existing_or_new now new_id r.0 r.1

  unfoldable pub destroy : Text → S → S
  destroy id st = (store.delete (key_of o id) st).0
