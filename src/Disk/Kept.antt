-- ===== src/Disk/Kept.antt =====
-- What a write leaves alone, and what is read afterwards.
use Prim.Native.Char.{code}
use pullsmith.Common.{
  ◌≡◌, refl, ap, sym, ◌∙◌, inl, inr, String, Bool, true, false, Option, none, some, List, [], ◌∷◌,
  ◌&&◌, ◌==◌, str_eq, eq_iff, if◌then◌else◌, Bool-cases, Option-cases,
}
use pullsmith.Disk.{
  Disk, Entry, absent, directory, file, read_only, path_eq, is_absent, is_writable, text_of, put,
  translate, read_text, is_above, blocked, make_parents, write_text,
}

path_eq_refl : (path : List String) → path_eq path path ≡ true
path_eq_refl [] = refl
path_eq_refl (p ∷ ps) = let same = (eq_iff p p).1 refl in rw same (path_eq_refl ps)

pub path_eq→eq : (p q : List String) → path_eq p q ≡ true → p ≡ q
path_eq→eq [] [] h = refl
path_eq→eq [] (q ∷ qs) h = cc
path_eq→eq (p ∷ ps) [] h = cc
path_eq→eq (p ∷ ps) (q ∷ qs) h = elim (Bool-cases (str_eq p q)) [
  | inl same ↦
      let e : p ≡ q = (eq_iff p q).0 same in
      let es : ps ≡ qs = path_eq→eq ps qs (rw same at h) in cc
  | inr apart ↦ absurd (let no : false ≡ true = rw apart at h in cc)
]

-- The files after one entry is put: its own, and the others as they were.
pub put-text :
    (path : List String) (entry : Entry) (disk : Disk) (p : List String)
    → text_of (put path entry disk p) ≡ (if path_eq p path then text_of entry else text_of (disk p))
unfolding put
put-text path entry disk p = elim (Bool-cases (path_eq p path)) [
  | inl b ↦ rw b refl
  | inr b ↦ rw b refl
]

made_entry :
    (entry : Entry) (b : Bool)
    → text_of (if b && is_absent entry then directory else entry) ≡ text_of entry
made_entry absent true = refl
made_entry absent false = refl
made_entry directory true = refl
made_entry directory false = refl
made_entry (file s) true = refl
made_entry (file s) false = refl
made_entry (read_only s) true = refl
made_entry (read_only s) false = refl

-- Making the directories of a path changes no file.
pub make_parents-text :
    (path : List String) (disk made : Disk) (p : List String)
    → make_parents path disk ≡ some made
    → text_of (made p) ≡ text_of (disk p)
unfolding make_parents
make_parents-text path disk made p e = elim (Bool-cases (blocked (λ r. r) path disk)) [
  | inl b ↦ absurd (cc (rw b at e))
  | inr b ↦
      let walked : Disk =
        λ q. if is_above q path && is_absent (disk q) then directory else disk q in
      let same : walked ≡ made = cc (rw b at e) in
      sym (ap (λ d. text_of (d p)) same) ∙ made_entry (disk p) (is_above p path)
]

pub write_text-text :
    (path : List String) (content : String) (disk written : Disk) (p : List String)
    → write_text path content disk ≡ some written
    → text_of (written p) ≡ (if path_eq p path then some content else text_of (disk p))
unfolding write_text
write_text-text path content disk written p e = elim (Bool-cases (is_writable (disk path))) [
  | inr b ↦ absurd (cc (rw b at e))
  | inl b ↦
      let same : put path (file content) disk ≡ written = cc (rw b at e) in
      sym (ap (λ d. text_of (d p)) same) ∙ put-text path (file content) disk p
]

-- What is read depends on the file alone, and is its text with the newlines translated.
unfoldable pub translated : Option String → Option String
translated none = none
translated (some s) = some (translate false s)

pub read_text-text :
    (path : List String) (disk : Disk) → read_text path disk ≡ translated (text_of (disk path))
unfolding read_text translated
read_text-text path disk = elim (Option-cases (text_of (disk path))) [
  | inl e ↦ rw (read_text, e) refl
  | inr (s, e) ↦ rw (read_text, e) refl
]

-- Text whose newlines have been translated is read as it is.
translate-translate :
    (after_return : Bool) (s : String)
    → translate false (translate after_return s) ≡ translate after_return s
unfolding translate
translate-translate after_return String.[] = refl
translate-translate after_return (String.◌∷◌ c s) = elim (Bool-cases (code c == 13)) [
  | inl e ↦ rw e (ap (String.◌∷◌ "\n") (translate-translate true s))
  | inr e ↦ elim (Bool-cases (code c == 10)) [
    | inr f ↦ rw (e, f) (rw (e, f) (ap (String.◌∷◌ c) (translate-translate false s)))
    | inl f ↦ elim (Bool-cases after_return) [
      | inl g ↦ rw (e, f, g) (translate-translate false s)
      | inr g ↦ rw (e, f, g) (rw (e, f) (ap (String.◌∷◌ c) (translate-translate false s)))
    ]
  ]
]

pub translated-translated : (o : Option String) → translated (translated o) ≡ translated o
unfolding translated
translated-translated none = refl
translated-translated (some s) = ap some (translate-translate false s)
