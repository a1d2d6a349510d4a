-- ===== src/Diff/Collapse.antt =====
-- agent/diff.py, `_collapse`: several edits of a file become one entry.
use pullsmith.Common.{
  ◌≡◌, refl, sym, ap, ◌∙◌, inl, inr, String, Bool, true, false, Option, none, some, List, [], ◌∷◌,
  ◌||◌, arith, eq_iff, str_eq, Bool-cases, if◌then◌else◌, find_row, where_rows, any,
}
use pullsmith.Diff.{FileChange, merge, collapse_one, collapse_into, collapse}

abbrev entry : String → List FileChange → Option FileChange
entry path changes = find_row (λ c. str_eq c.path path) changes

abbrev edits : String → List FileChange → List FileChange
edits path changes = where_rows (λ c. str_eq c.path path) changes

abbrev latest : FileChange → List FileChange → FileChange
latest c [] = c
latest c (d ∷ ds) = latest d ds

-- What the edits of one file come to: the latest of them, with the content from before the first,
-- and sensitive if one of them was.
abbrev pub summed_up : List FileChange → Option FileChange
summed_up [] = none
summed_up (c ∷ cs) = some (record (latest c cs) {
  is_sensitive = any (λ d. d.is_sensitive) (c ∷ cs);
  original_content = c.original_content;
})

abbrev merged : Option FileChange → FileChange → FileChange
merged none change = change
merged (some existing) change = merge existing change

same_texts : (s t u : String) → str_eq s t ≡ true → str_eq s u ≡ str_eq t u
same_texts s t u e = ap (λ x. str_eq x u) ((eq_iff s t).0 e)

other_text : (s t u : String) → str_eq s t ≡ false → str_eq s u ≡ true → str_eq t u ≡ false
other_text s t u apart mine = elim (Bool-cases (str_eq t u)) [
  | inr f ↦ f
  | inl e ↦ absurd (
      let both : s ≡ t = (eq_iff s u).0 mine ∙ sym ((eq_iff t u).0 e) in
      let same = (eq_iff s t).1 both in cc)
]

entry-collapse_one :
    (path : String) (change : FileChange) (cs : List FileChange)
    → entry path (collapse_one change cs)
      ≡ (if str_eq change.path path then some (merged (entry path cs) change) else entry path cs)
unfolding collapse_one merge
entry-collapse_one path change [] = refl
entry-collapse_one path change (c ∷ cs) = elim (Bool-cases (str_eq c.path change.path)) [
  | inl same ↦
      let q = same_texts c.path change.path path same in
      elim (Bool-cases (str_eq change.path path)) [
        | inl mine ↦ rw (same, mine, q, mine)
        | inr other ↦ rw (same, other, q, other)
      ]
  | inr apart ↦ elim (Bool-cases (str_eq c.path path)) [
    | inl mine ↦
        let other = other_text c.path change.path path apart mine in rw (apart, mine, other)
    | inr not_mine ↦ rw (apart, not_mine) (entry-collapse_one path change cs)
  ]
]

-- One entry after another, over the edits of one file.
abbrev over : Option FileChange → List FileChange → Option FileChange
over e [] = e
over e (c ∷ cs) = over (some (merged e c)) cs

entry-collapse_into :
    (path : String) (collapsed changes : List FileChange)
    → entry path (collapse_into collapsed changes)
      ≡ over (entry path collapsed) (edits path changes)
unfolding collapse_into
entry-collapse_into path collapsed [] = refl
entry-collapse_into path collapsed (c ∷ cs) = elim (Bool-cases (str_eq c.path path)) [
  | inl mine ↦
      let now = entry-collapse_one path c collapsed in
      rw (entry-collapse_into path (collapse_one c collapsed) cs, now, mine)
  | inr other ↦
      let now = entry-collapse_one path c collapsed in
      rw (entry-collapse_into path (collapse_one c collapsed) cs, now, other)
]

or-assoc_swap : (a b c : Bool) → ((b || a) || c) ≡ (a || (b || c))
or-assoc_swap a b c = ground arith

over-summed_up :
    (e : FileChange) (cs : List FileChange)
    → over (some e) cs
      ≡ some (record (latest e cs) {
        is_sensitive = e.is_sensitive || any (λ d. d.is_sensitive) cs;
        original_content = e.original_content;
      })
unfolding merge
over-summed_up e [] =
    let same : (e.is_sensitive || false) ≡ e.is_sensitive = ground arith in rw same
over-summed_up e (c ∷ []) =
    let same : ((c.is_sensitive || e.is_sensitive) || false)
        ≡ (e.is_sensitive || (c.is_sensitive || false)) =
      ground arith in
    rw (over-summed_up (merge e c) []) (rw same)
over-summed_up e (c ∷ d ∷ ds) =
    let rest = any (λ x. x.is_sensitive) (d ∷ ds) in
    let same : ((c.is_sensitive || e.is_sensitive) || rest)
        ≡ (e.is_sensitive || (c.is_sensitive || rest)) =
      or-assoc_swap e.is_sensitive c.is_sensitive rest in
    rw (over-summed_up (merge e c) (d ∷ ds)) (rw same)

over_edits : (cs : List FileChange) → over none cs ≡ summed_up cs
over_edits [] = refl
over_edits (c ∷ cs) = over-summed_up c cs

-- The collapsed change set has, for a path, nothing if no edit was of that path, and else one entry
-- that sums up its edits, in whatever order the edits of several files came.
pub entry-collapse :
    (path : String) (changes : List FileChange)
    → find_row (λ c. str_eq c.path path) (collapse changes)
      ≡ summed_up (where_rows (λ c. str_eq c.path path) changes)
unfolding collapse
entry-collapse path changes = entry-collapse_into path [] changes ∙ over_edits (edits path changes)
