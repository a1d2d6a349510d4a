-- ===== src/Tests/Boundaries.antt =====
-- The theorems on the boundaries, applied to a checked-out repository.
use pullsmith.Common.{
  any, path_parts, is_in, ◌≡◌, refl, inr, String, true, false, List, [], ◌∷◌, ◌++◌, ◌<>◌, is_some,
  after_prefix,
}
use pullsmith.Exclusions.{should_index}
use pullsmith.Exclusions.Indexed.{uninteresting, should_index-excluded}
use pullsmith.Safety.{resolve_in_workspace, has_metacharacter}
use pullsmith.Safety.Confined.{resolve_in_workspace-confined}

-- A disk without links.
abbrev no_links : List String → List String
no_links path = path

resolved : resolve_in_workspace no_links ("w" ∷ []) "app/a.py" ≡ inr ("w" ∷ "app" ∷ "a.py" ∷ [])
unfolding resolve_in_workspace
resolved = refl

resolve_in_workspace-confined_example :
    ((rest : List String) × (("w" ∷ "app" ∷ "a.py" ∷ []) ≡ no_links ("w" ∷ []) ++ rest))
    × (is_some (after_prefix "/" "app/a.py") ≡ false)
resolve_in_workspace-confined_example =
    resolve_in_workspace-confined no_links ("w" ∷ []) "app/a.py" ("w" ∷ "app" ∷ "a.py" ∷ [])
      resolved

no_metacharacter : has_metacharacter ("node_modules/evil" <> "/git") ≡ false
unfolding has_metacharacter
no_metacharacter = refl

vendored : any (is_in uninteresting) (path_parts "node_modules") ≡ true
unfolding path_parts is_in
vendored = refl

should_index-excluded_example :
    (should_index "node_modules" 900 ≡ false)
    × (should_index "node_modules/left-pad/index.js" 900 ≡ false)
    × (should_index "web/node_modules/left-pad/index.js" 900 ≡ false)
    × (should_index "alembic/versions/left-pad/index.js" 900 ≡ false)
    × (should_index "web/alembic/versions/left-pad/index.js" 900 ≡ false)
should_index-excluded_example =
    should_index-excluded "web" "node_modules" "left-pad/index.js" 900 vendored

-- A source file of the repository itself is indexed.
indexed : should_index "app/agent/loop.py" 7000 ≡ true
unfolding should_index
indexed = refl
