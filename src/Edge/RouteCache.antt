-- ===== src/Edge/RouteCache.antt =====
-- packages/edge-router/src/router.ts: `RouteCache`, a map beside the queue of its keys.
pub mod Laws
use celsian.Base.{ℕ, not, Option, List, [], ◌∷◌, ◌++◌, Text, text_eq, leb, length, if◌then◌else◌}
use celsian.Map
use celsian.Map.{Map}

abbrev pub max_cache_size : ℕ
max_cache_size = 100

pub record RouteCache (V : Type 0) : Type 0 where
  pub map : Map Text V
  pub keys : List Text

module _ {V : Type 0} where
  abbrev pub empty : RouteCache V
  empty = record { map = []; keys = [] }

  unfoldable pub get : Text → RouteCache V → Option V
  get key c = Map.get key c.map

  -- `keys.shift()` and the deletion of what it gives; an empty queue gives undefined, which is no
  -- key of the map.
  unfoldable pub evict : RouteCache V → RouteCache V
  evict c = elim c.keys [
    | [] ↦ c
    | oldest ∷ others ↦ record { map = Map.delete oldest c.map; keys = others }
  ]

  abbrev pub enqueue : Text → RouteCache V → RouteCache V
  enqueue key c = record c { keys = c.keys ++ key ∷ [] }

  unfoldable pub make_room : RouteCache V → RouteCache V
  make_room c = if leb max_cache_size (length c.keys) then evict c else c

  unfoldable pub set : Text → V → RouteCache V → RouteCache V
  set key value c =
      let c' = if not (Map.has key c.map) then enqueue key (make_room c) else c in
      record c' { map = Map.set key value c'.map }

  unfoldable pub size : RouteCache V → ℕ
  size c = length c.map

  unfoldable pub clear : RouteCache V → RouteCache V
  clear c = empty
