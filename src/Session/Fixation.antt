-- ===== src/Session/Fixation.antt =====
-- packages/cache/src/session.ts: whose ids the sessions have.
use celsian.Base.{
  ℕ, ◌+◌, ◌<◌, ◌∙◌, ◌≡◌, ◌≢◌, ◌⊎◌, refl, false, Option, none, some, List, [], ◌∷◌, ◌++◌, Text,
  text_eq, text_beq_iff, ◌==◌, arith, ap, sym,
}
use mathlib.Core.List.{tail}
use celsian.Map.{Map}
use celsian.Session.Store.{KvStore}
use celsian.Session.{
  SessionOptions, key_of, ttl, Session, make_session, is_empty, session_of, save, destroy_session,
  regenerate, load, from_request,
}

append-inj : (p s t : Text) → p ++ s ≡ p ++ t → s ≡ t
append-inj [] s t e = e
append-inj (c ∷ p) s t e = append-inj p s t (ap tail e)

module _ {S A : Type 0} (store : KvStore S (Map Text A)) (o : SessionOptions) where
  key_ne : (id id' : Text) → id ≢ id' → key_of o id ≢ key_of o id'
  key_ne id id' ne e = ne (append-inj _ id id' e)

  -- After `regenerate` with a new id, for a session that holds data: the session has the new id and
  -- its data, the old id loads nothing, and until its time is over the new id loads the session.
  pub regenerate_lem :
      (now later : ℕ) (new_id : Text) (s : Session A) (st : S)
      → store.IsValid st
      → new_id ≢ s.id
      → is_empty s.session_data ≡ false
      → later < now + ttl o
      → ((regenerate store o now new_id s st).1 ≡ make_session new_id s.session_data)
        × ((load store o later s.id (regenerate store o now new_id s st).0).1 ≡ none)
        × ((load store o later new_id (regenerate store o now new_id s st).0).1
            ≡ some (make_session new_id s.session_data))
  unfolding regenerate save load make_session
  regenerate_lem now later new_id s st valid ne filled live =
      let other : (new_id == s.id) ≡ false = ground (arith, text_beq_iff new_id s.id) in
      let entry = store.set now (key_of o new_id) s.session_data (ttl o) st in
      rw (other, filled)
        (
          refl,
          ap (session_of s.id) (
              store.get-delete later (key_of o s.id) entry
                (store.set-IsValid now (key_of o new_id) s.session_data (ttl o) st valid)),
          ap (session_of new_id) (
              store.get-delete_other later (key_of o new_id) (key_of o s.id) entry
                (store.set-IsValid now (key_of o new_id) s.session_data (ttl o) st valid)
                (key_ne s.id new_id (λ e. ne (sym e)))
              ∙ store.get-set now later (key_of o new_id) s.session_data (ttl o) st valid live),
        )

  abbrev Among : Text → List Text → Type 0
  Among x [] = ⊥
  Among x (y ∷ ys) = (x ≡ y) ⊎ Among x ys

  -- The server: its store, the ids that it has generated, and the sessions that handlers hold.
  pub record Server : Type 0 where
    pub state : S
    pub issued : List Text
    pub sessions : List (Session A)

  abbrev Live : Session A → List (Session A) → Type 0
  Live s [] = ⊥
  Live s (t ∷ ts) = (s ≡ t) ⊎ Live s ts

  -- What clients and handlers do. A cookie is any text.
  pub data Step : Server → Server → Type 0 where
    requested :
        (w : Server) (now : ℕ) (new_id : Text) (cookie : Option Text)
        → Step w (record {
          state = (from_request store o now new_id cookie w.state).0;
          issued = new_id ∷ w.issued;
          sessions = (from_request store o now new_id cookie w.state).1 ∷ w.sessions;
        })
    written :
        (w : Server) (s : Session A) (changed : Map Text A)
        → Live s w.sessions
        → Step w (record w { sessions = make_session s.id changed ∷ w.sessions })
    saved :
        (w : Server) (now : ℕ) (s : Session A)
        → Live s w.sessions
        → Step w (record w { state = save store o now s w.state })
    regenerated :
        (w : Server) (now : ℕ) (new_id : Text) (s : Session A)
        → Live s w.sessions
        → Step w (record {
          state = (regenerate store o now new_id s w.state).0;
          issued = new_id ∷ w.issued;
          sessions = (regenerate store o now new_id s w.state).1 ∷ w.sessions;
        })
    destroyed :
        (w : Server) (s : Session A)
        → Live s w.sessions
        → Step w (record w {
          state = (destroy_session store o s w.state).0;
          sessions = (destroy_session store o s w.state).1 ∷ w.sessions;
        })

  pub data Reach (v : Server) : Server → Type 0 where
    here : Reach v v
    next : {w x : Server} → Reach v w → Step w x → Reach v x

  pub record AreIssued (w : Server) : Type 0 where
    pub keys : (id : Text) → store.Holds (key_of o id) w.state → Among id w.issued
    pub ids : (s : Session A) → Live s w.sessions → Among s.id w.issued

  -- The session of a request has the new id or one that the store holds, and no key is added.
  abbrev Stored : Text → S → S × Session A → Type 0
  Stored new_id st r =
      ((j : Text) → store.Holds j r.0 → store.Holds j st)
      × ((r.1.id ≡ new_id) ⊎ store.Holds (key_of o r.1.id) st)

  abbrev KeysOf : S → List Text → Type 0
  KeysOf st issued = (id : Text) → store.Holds (key_of o id) st → Among id issued

  abbrev IdsOf : List (Session A) → List Text → Type 0
  IdsOf sessions issued = (s : Session A) → Live s sessions → Among s.id issued
