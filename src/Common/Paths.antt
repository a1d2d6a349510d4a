-- ===== src/Common/Paths.antt =====
-- Python's `PurePosixPath`, `split("\n")`, and membership in a list of texts.
use Prim.Native.Char.{code}
use Prim.Native.String.{String}
use mathlib.Core.Bool.{Bool, not, ◌||◌}
use mathlib.Core.Option.{Option, none, some}
use mathlib.Core.List.{List, [], ◌∷◌}
use pullsmith.Common.Tests.{◌==◌, if◌then◌else◌}
use pullsmith.Common.Lists.{any, where_rows}
use pullsmith.Common.Text.{str_eq, text_lt, ◌<>◌, is_empty, is_space}

unfoldable pub is_in : List String → String → Bool
is_in texts s = any (λ t. str_eq t s) texts

-- `split("/")`: a text has one part more than it has slashes.
abbrev pub on_first : Option String → List String → List String
on_first none parts = parts
on_first (some c) [] = c ∷ []
on_first (some c) (p ∷ ps) = (c <> p) ∷ ps

unfoldable pub split_path : String → List String
split_path String.[] = "" ∷ []
split_path (String.◌∷◌ c s) =
    let rest = split_path s in
    if code c == 47 then "" ∷ rest else on_first (some (String.◌∷◌ c "")) rest

-- The parts of a `Path`: empty parts and single dots are dropped.
unfoldable pub kept_parts : List String → List String
kept_parts [] = []
kept_parts (p ∷ ps) =
    let rest = kept_parts ps in if is_empty p || str_eq p "." then rest else p ∷ rest

unfoldable pub path_parts : String → List String
unfolding split_path kept_parts
path_parts path = kept_parts (split_path path)

unfoldable pub last_part : List String → String
last_part [] = ""
last_part (p ∷ []) = p
last_part (p ∷ q ∷ ps) = last_part (q ∷ ps)

-- `Path(path).name`
unfoldable pub path_name : String → String
unfolding path_parts last_part
path_name path = last_part (path_parts path)

-- `split("\n")`
unfoldable pub split_lines : String → List String
split_lines String.[] = "" ∷ []
split_lines (String.◌∷◌ c s) =
    let rest = split_lines s in
    if code c == 10 then "" ∷ rest else on_first (some (String.◌∷◌ c "")) rest

-- `split()`: the pieces between whitespace that are not empty.
unfoldable pub split_spaces : String → List String
split_spaces String.[] = "" ∷ []
split_spaces (String.◌∷◌ c s) =
    let rest = split_spaces s in
    if is_space (code c) then "" ∷ rest else on_first (some (String.◌∷◌ c "")) rest

unfoldable pub words : String → List String
unfolding split_spaces
words s = where_rows (λ w. not (is_empty w)) (split_spaces s)

-- `sorted(set(texts))`
unfoldable pub insert_text : String → List String → List String
unfolding text_lt
insert_text s [] = s ∷ []
insert_text s (t ∷ ts) =
    let rest = insert_text s ts in
    if str_eq s t then t ∷ ts else if text_lt t s then t ∷ rest else s ∷ t ∷ ts

unfoldable pub sorted_set : List String → List String
unfolding insert_text
sorted_set [] = []
sorted_set (s ∷ ss) = insert_text s (sorted_set ss)
