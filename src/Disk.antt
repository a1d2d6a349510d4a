-- ===== src/Disk.antt =====
-- The files that the editing tools see: `Path.is_file`, `read_text`, `mkdir`, `write_text` and
-- `unlink` on resolved paths. A file is the text of its bytes, decoded as UTF-8 with replacement,
-- before newlines are translated. A file may be one that must not be written; a full disk, and
-- what may not be read or entered, are not modelled.
pub mod Kept
use Prim.Native.Char.{code}
use pullsmith.Common.{
  String, Bool, true, false, Option, none, some, List, [], ◌∷◌, ◌==◌, ◌&&◌, not, ◌||◌,
  if◌then◌else◌, str_eq, is_nil,
}

pub data Entry : Type 0 where
  absent : Entry
  directory : Entry
  file : String → Entry
  read_only : String → Entry

abbrev pub Disk : Type 0
Disk = List String → Entry

abbrev pub path_eq : List String → List String → Bool
path_eq [] [] = true
path_eq [] (q ∷ qs) = false
path_eq (p ∷ ps) [] = false
path_eq (p ∷ ps) (q ∷ qs) = str_eq p q && path_eq ps qs

abbrev pub is_absent : Entry → Bool
is_absent absent = true
is_absent directory = false
is_absent (file s) = false
is_absent (read_only s) = false

abbrev pub is_dir : Entry → Bool
is_dir absent = false
is_dir directory = true
is_dir (file s) = false
is_dir (read_only s) = false

abbrev pub is_writable : Entry → Bool
is_writable absent = true
is_writable directory = false
is_writable (file s) = true
is_writable (read_only s) = false

abbrev pub text_of : Entry → Option String
text_of absent = none
text_of directory = none
text_of (file s) = some s
text_of (read_only s) = some s

unfoldable pub put : List String → Entry → Disk → Disk
put path entry disk p = if path_eq p path then entry else disk p

-- `\r\n` and `\r` are read as `\n`. `after_return` says that a carriage return came before.
unfoldable pub translate : (after_return : Bool) → String → String
translate after_return String.[] = ""
translate after_return (String.◌∷◌ c s) =
    let after = translate true s in
    let rest = translate false s in
    if code c == 13
    then String.◌∷◌ "\n" after
    else if code c == 10 && after_return
    then rest
    else String.◌∷◌ c rest

-- `read_text(encoding="utf-8", errors="replace")` of a file, none where there is no file.
unfoldable pub read_text : List String → Disk → Option String
unfolding translate
read_text path disk = elim (text_of (disk path)) [ none ↦ none | some s ↦ some (translate false s) ]

-- The proper ancestors of a path.
unfoldable pub is_above : List String → List String → Bool
is_above [] path = not (is_nil path)
is_above (p ∷ ps) [] = false
is_above (p ∷ ps) (q ∷ qs) = let rest = is_above ps qs in str_eq p q && rest

unfoldable parent_of : List String → List String
parent_of [] = []
parent_of (p ∷ []) = []
parent_of (p ∷ q ∷ ps) = p ∷ parent_of (q ∷ ps)

-- Whether a file stands where a directory is needed, on the way from `walked` down `rest`.
pub blocked : (walk : List String → List String) → (rest : List String) → Disk → Bool
blocked walk [] disk = false
blocked walk (p ∷ ps) disk =
    let below = blocked (λ r. walk (p ∷ r)) ps disk in
    (elim (disk (walk [])) [
      | absent ↦ below
      | directory ↦ below
      | file s ↦ true
      | read_only s ↦ true
    ])

-- `path.parent.mkdir(parents=True, exist_ok=True)`, none for its `OSError`.
unfoldable pub make_parents : List String → Disk → Option Disk
unfolding is_above blocked
make_parents path disk =
    if blocked (λ r. r) path disk
    then none
    else some (λ p. if is_above p path && is_absent (disk p) then directory else disk p)

-- `write_text(content, encoding="utf-8", newline="\n")` in a directory that exists, none for
-- the `OSError` where the path is a directory or a file that must not be written.
unfoldable pub write_text : List String → String → Disk → Option Disk
unfolding put
write_text path content disk =
    if is_writable (disk path) then some (put path (file content) disk) else none

unfoldable pub unlink : List String → Disk → Disk
unfolding put
unlink path disk = put path absent disk
