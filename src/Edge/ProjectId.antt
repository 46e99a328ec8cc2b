-- ===== src/Edge/ProjectId.antt =====
-- packages/edge-router/src/router.ts: `getProjectId`. A group `(.+?)` takes as little as it can, so
-- the place of `--` is the first at which the rest of the host name fits.
use celsian.Base.{
  ◌-◌, ◌&&◌, Option, none, some, [], ◌∷◌, ◌++◌, Text, codes, nat_beq, length, take, ltb,
  if◌then◌else◌,
}
use celsian.Words.{ends_with}

abbrev preview_suffix : Text
preview_suffix = codes ".preview.celsian.app"

abbrev app_suffix : Text
app_suffix = codes ".celsian.app"

-- `^(.+?)` and then a suffix up to the end.
unfoldable pub before_suffix : Text → Text → Option Text
before_suffix suffix s =
    if ends_with suffix s && ltb (length suffix) (length s)
    then some (take (length s - length suffix) s)
    else none

abbrev with_branch : Text → Option Text → Option (Text × Text)
with_branch branch none = none
with_branch branch (some project) = some (branch, project)

abbrev or_later : Option (Text × Text) → Option (Text × Text) → Option (Text × Text)
or_later none r = r
or_later (some p) r = some p

-- The branch read so far, and the rest of the host name.
unfoldable pub preview_from : Text → Text → Option (Text × Text)
preview_from cur [] = none
preview_from cur (c ∷ []) = none
preview_from [] (c ∷ d ∷ s) = preview_from (c ∷ []) (d ∷ s)
preview_from (b ∷ cur) (c ∷ d ∷ s) =
    let later = preview_from (b ∷ cur ++ c ∷ []) (d ∷ s) in
    if nat_beq c b'-' && nat_beq d b'-'
    then or_later (with_branch (b ∷ cur) (before_suffix preview_suffix s)) later
    else later

unfoldable pub get_project_id : Text → Option Text
unfolding preview_from before_suffix
get_project_id hostname = elim (preview_from [] hostname) [
  | some (branch, project) ↦ some (project ++ codes ":preview:" ++ branch)
  | none ↦ before_suffix app_suffix hostname
]
