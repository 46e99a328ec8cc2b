-- ===== src/Encapsulation/Branches.antt =====
-- packages/core/src/context.ts: the branches of the operations, for the proofs of invariants.
use celsian.Base.{◌≡◌, refl, true, false, Option, none, some, map, text_eq}
use celsian.Router.Tree.{RouteError}
use celsian.Encapsulation.Types.{App}
use celsian.Encapsulation.Scopes.{resolve_binding}
use celsian.Encapsulation.Contexts.{flush, refused}

module _ {H V R : Type 0} where
  pub flush_dirty :
      (app : App H V R)
      → app.dirty ≡ true
      → flush app ≡ record app {
        dirty = false;
        bindings = map (resolve_binding app.contexts app.next) app.bindings;
      }
  unfolding flush
  flush_dirty app h = simp h refl

  pub flush_clean : (app : App H V R) → app.dirty ≡ false → flush app ≡ app
  unfolding flush
  flush_clean app h = simp h refl

  module _ (Q : App H V R → Type 0) where
    -- What `route` does after a route that it has added.
    pub then_lem :
        (r : App H V R × Option RouteError) (rest : App H V R → App H V R × Option RouteError)
        → Q r.0
        → ((a : App H V R) → Q a → Q (rest a).0)
        → Q
            (elim r.1 as (λ e. App H V R × Option RouteError) [
              | some e ↦ (r.0, some e)
              | none ↦ rest r.0
            ]).0
    then_lem (a, some e) rest h k = h
    then_lem (a, none) rest h k = k a h

    pub refused_lem : (r : App H V R × Option RouteError) → Q r.0 → Q (refused r).0
    refused_lem (a, none) h = h
    refused_lem (a, some e) h = h
