-- ===== src/Editing/Unique.antt =====
-- The one occurrence that `replace_in_file` replaces (agent/tools/editing.py).
use Prim.Native.Char.{Char, code}
use text.Mathlib.TextEquality.{Char-path}
use text.Mathlib.TextLemmas.{cons-append, nil-append}
use pullsmith.Common.{
  ◌≡◌, ap, sym, ◌∙◌, inl, inr, suc, ◌-◌, String, some, ◌<>◌, ◌==◌, ==_iff, arith, Bool-cases,
  Option-cases, after_prefix, text_length,
}
use pullsmith.Editing.{occurrences, replace_first}

-- What follows a prefix, and the prefix before it, are the text.
after_prefix_lem :
    (prefix s after : String) → after_prefix prefix s ≡ some after → s ≡ prefix <> after
unfolding after_prefix
after_prefix_lem String.[] s after e = let same : s ≡ after = cc in same ∙ sym (nil-append after)
after_prefix_lem (String.◌∷◌ c p) String.[] after e = cc
after_prefix_lem (String.◌∷◌ c p) (String.◌∷◌ d s) after e = elim (Bool-cases (code c == code d)) [
  | inr apart ↦ absurd (cc (rw apart at e))
  | inl same ↦
      let head : c ≡ d = Char-path c d ((==_iff (code c) (code d)).0 same) in
      let tail : s ≡ p <> after = after_prefix_lem p s after (rw same at e) in
      ap (λ x. String.◌∷◌ x s) (sym head) ∙ ap (String.◌∷◌ c) tail ∙ sym (cons-append c p after)
]

-- The characters of a match are not searched again.
occurrences-after :
    (find prefix s after : String)
    → after_prefix prefix s ≡ some after
    → occurrences find (text_length prefix) s ≡ occurrences find 0 after
unfolding occurrences after_prefix text_length
occurrences-after find String.[] s after e =
    ap (occurrences find 0) (let same : s ≡ after = cc in same)
occurrences-after find (String.◌∷◌ c p) String.[] after e = cc
occurrences-after find (String.◌∷◌ c p) (String.◌∷◌ d s) after e =
    elim (Bool-cases (code c == code d)) [
      | inr apart ↦ absurd (cc (rw apart at e))
      | inl same ↦ occurrences-after find p s after (rw same at e)
    ]

prefix-tail :
    (c d : Char) (p s after : String)
    → after_prefix (String.◌∷◌ c p) (String.◌∷◌ d s) ≡ some after
    → after_prefix p s ≡ some after
unfolding after_prefix
prefix-tail c d p s after e = elim (Bool-cases (code c == code d)) [
  | inr apart ↦ absurd (cc (rw apart at e))
  | inl same ↦ rw same at e
]

-- A text with one occurrence falls into what is before it and what is after it.
pub record IsSplit (find replacement original updated : String) : Type 0 where
  pub before : String
  pub after : String
  pub was : original ≡ before <> (find <> after)
  pub is_now : updated ≡ before <> (replacement <> after)
  pub none_after : occurrences find 0 after ≡ 0

pub replace_first-IsSplit :
    (c : Char) (find replacement s : String)
    → occurrences (String.◌∷◌ c find) 0 s ≡ 1
    → IsSplit (String.◌∷◌ c find) replacement s (replace_first (String.◌∷◌ c find) replacement s)
unfolding occurrences replace_first text_length
replace_first-IsSplit c find replacement String.[] e = absurd (omega (arith, e))
replace_first-IsSplit c find replacement (String.◌∷◌ d s) e =
    elim (Option-cases (after_prefix (String.◌∷◌ c find) (String.◌∷◌ d s))) [
      | inl apart ↦
          let rest = replace_first-IsSplit c find replacement s (rw (occurrences, apart) at e) in
          rw (replace_first, apart)
            (record {
              before = String.◌∷◌ d rest.before;
              after = rest.after;
              was = ap (String.◌∷◌ d) rest.was ∙ sym (cons-append d rest.before _);
              is_now = ap (String.◌∷◌ d) rest.is_now ∙ sym (cons-append d rest.before _);
              none_after = rest.none_after;
            })
      | inr (after, here) ↦
          let one : suc (occurrences (String.◌∷◌ c find) (suc (text_length find) - 1) s) ≡ 1 =
            rw (occurrences, here) at e in
          let width : suc (text_length find) - 1 ≡ text_length find = omega arith in
          let left : suc (occurrences (String.◌∷◌ c find) (text_length find) s) ≡ 1 =
            rw width at one in
          rw (replace_first, here)
            (record {
              before = "";
              after = after;
              was =
                  after_prefix_lem (String.◌∷◌ c find) (String.◌∷◌ d s) after here
                  ∙ sym (nil-append _);
              is_now = sym (nil-append _);
              none_after =
                  sym (
                    occurrences-after (String.◌∷◌ c find) find s after
                      (prefix-tail c d find s after here))
                  ∙ omega (arith, left);
            })
    ]
