-- ===== src/Editing/Once.antt =====
-- When `replace_in_file` replaces, and what (agent/tools/editing.py).
use pullsmith.Common.{
  ◌≡◌, ℕ, inl, inr, String, Bool, true, false, some, List, ◌==◌, ◌&&◌, is_some, ltb, if◌then◌else◌,
  is_empty, arith, Bool-cases, Option-cases,
}
use pullsmith.Safety.{assert_readable, resolve_in_workspace}
use pullsmith.Tools.{ToolContext, failure, success}
use pullsmith.Disk.{Disk, path_eq, text_of, read_text, write_text}
use pullsmith.Disk.Kept.{write_text-text}
use pullsmith.Editing.{
  ReplaceInFileArgs, Left, at_target, refusal, replace_in_file, occurrences, replace_first,
}
use pullsmith.Editing.Recorded.{has_succeeded, at_target-keeps}
use pullsmith.Editing.Unique.{IsSplit, replace_first-IsSplit}

once-IsSplit :
    (find replacement s : String)
    → is_empty find ≡ false
    → occurrences find 0 s ≡ 1
    → IsSplit find replacement s (replace_first find replacement s)
once-IsSplit String.[] replacement s some_text once = cc
once-IsSplit (String.◌∷◌ c find) replacement s some_text once =
    replace_first-IsSplit c find replacement s once

exactly_one : (n : ℕ) → (n == 0) ≡ false → ltb 1 n ≡ false → n ≡ 1
exactly_one n there one = ground arith

counted_none : (n : ℕ) (taken : Bool) → (n == 0) ≡ true → false ≡ ((n == 1) && taken)
counted_none n taken h = ground arith

counted_more : (n : ℕ) (taken : Bool) → ltb 1 n ≡ true → false ≡ ((n == 1) && taken)
counted_more n taken h = ground arith

counted_one :
    (n : ℕ) (taken : Bool) → (n == 0) ≡ false → ltb 1 n ≡ false → taken ≡ ((n == 1) && taken)
counted_one n taken there one = ground arith

module _ (resolve : List String → List String) (workspace : List String)
    (os_error : List String → String) (context : ToolContext) (args : ReplaceInFileArgs)
    (disk : Disk) where
  -- The target's text is split once around `find`, and its new text has `replace` there.
  pub record IsReplaced (left : Disk) : Type 0 where
    pub target : List String
    pub original : String
    pub updated : String
    pub resolved : resolve_in_workspace resolve workspace args.path ≡ inr target
    pub was : read_text target disk ≡ some original
    pub once : occurrences args.find 0 original ≡ 1
    pub split : IsSplit args.find args.replace original updated
    pub files :
        (p : List String)
        → text_of (left p) ≡ (if path_eq p target then some updated else text_of (disk p))

  abbrev Fits : Left → Type 0
  Fits left = has_succeeded left.0 ≡ true → IsReplaced left.2

  no_fit : {left : Disk} → false ≡ true → IsReplaced left
  no_fit h = absurd cc

  replace_in_file-Fits :
      is_empty args.find ≡ false
      → Fits (replace_in_file resolve workspace os_error context args disk)
  unfolding replace_in_file refusal success failure has_succeeded
  replace_in_file-Fits some_text =
      at_target-keeps resolve workspace os_error Fits args.path context.changes disk _
        (λ why. no_fit)
        (λ target e f. elim (Option-cases (read_text target disk)) [
          | inl gone ↦ rw gone no_fit
          | inr (original, g) ↦
              let found = occurrences args.find 0 original in
              rw g (elim (Bool-cases (found == 0)) [
                | inl gone ↦ rw gone no_fit
                | inr there ↦ rw there (elim (Bool-cases (ltb 1 found)) [
                  | inl more ↦ rw more no_fit
                  | inr one ↦
                      let updated = replace_first args.find args.replace original in
                      rw one (elim (Option-cases (write_text target updated disk)) [
                        | inl gone ↦ rw gone no_fit
                        | inr (written, h) ↦ rw h (λ done. record {
                          target = target;
                          original = original;
                          updated = updated;
                          resolved = f;
                          was = g;
                          once = exactly_one found there one;
                          split =
                              once-IsSplit args.find args.replace original some_text
                                (exactly_one found there one);
                          files = λ p. write_text-text target updated disk written p h;
                        })
                      ])
                ])
              ])
        ])

  -- Where `replace_in_file` succeeds with a `find` that is not empty, the target was a file whose text
  -- counts `find` once; its new text has `replace` between what stood before that occurrence and
  -- what stood after it, which counts `find` no more; and every other file is as it was.
  pub replace_in_file-IsReplaced :
      is_empty args.find ≡ false
      → has_succeeded (replace_in_file resolve workspace os_error context args disk).0 ≡ true
      → IsReplaced (replace_in_file resolve workspace os_error context args disk).2
  replace_in_file-IsReplaced some_text ok = replace_in_file-Fits some_text ok

  -- On a path that may be read, that resolves in the workspace and is a file, `replace_in_file`
  -- succeeds exactly if the file's text counts `find` once and the disk takes the new text. So it
  -- fails where the text counts none or several, and where the disk refuses, and at nothing else.
  pub replace_in_file-has_succeeded :
      (target : List String) (original : String)
      → assert_readable args.path ≡ inr tt
      → resolve_in_workspace resolve workspace args.path ≡ inr target
      → read_text target disk ≡ some original
      → has_succeeded (replace_in_file resolve workspace os_error context args disk).0 ≡ (
          (occurrences args.find 0 original == 1)
          && is_some (write_text target (replace_first args.find args.replace original) disk))
  unfolding replace_in_file at_target refusal success failure has_succeeded
  replace_in_file-has_succeeded target original e f g =
      let found = occurrences args.find 0 original in
      let updated = replace_first args.find args.replace original in
      let taken = is_some (write_text target updated disk) in
      rw (at_target, e, f, g)
        (elim (Bool-cases (found == 0)) [
          | inl gone ↦ rw gone (counted_none found taken gone)
          | inr there ↦ rw there (elim (Bool-cases (ltb 1 found)) [
            | inl more ↦ rw more (counted_more found taken more)
            | inr one ↦ rw one (elim (Option-cases (write_text target updated disk)) [
              | inl refused ↦ rw refused (counted_one found false there one)
              | inr (written, h) ↦ rw h (counted_one found true there one)
            ])
          ])
        ])
