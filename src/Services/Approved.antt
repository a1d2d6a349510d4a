-- ===== src/Services/Approved.antt =====
-- services/review_service.py over any sequence of service calls: what an approval stands for.
use pullsmith.Common.{
  ◌≡◌, refl, sym, ap, subst, ◌∙◌, ◌⊎◌, inl, inr, ℕ, String, Bool, true, false, some, List, [], ◌∷◌,
  ◌++◌, Bool-cases, Option-cases, leb, ==_iff, All, All-append, All-mem, find_row-mem,
  find_row-passes, where_rows, ◌==◌,
}
use mathlib.Core.List.{Memᴰ}
use pullsmith.Db.{Db, RunDiff, Approval, Decision, approved}
use pullsmith.Db.Session.{ok}
use pullsmith.Review.{newest_diff, newer_diff, assert_push_allowed}
use pullsmith.Review.Effect.{latest_of, Effect}
use pullsmith.Review.Gate.{assert_push_allowed-opens}
use pullsmith.Services.{Steps, here, next}
use pullsmith.Services.Writes.{Writes, keeps, stores, decides, Step-Writes}

mem_left : {A : Type 0} {x : A} (xs ys : List A) → Memᴰ x xs → Memᴰ x (xs ++ ys)
mem_left [] ys m = elim m [ ]
mem_left (x ∷ xs) ys (Memᴰ.head e) = Memᴰ.head e
mem_left (x ∷ xs) ys (Memᴰ.tail m) = Memᴰ.tail (mem_left xs ys m)

mem_cons : {A : Type 0} {x y : A} {ys : List A} → Memᴰ x (y ∷ ys) → (x ≡ y) ⊎ Memᴰ x ys
mem_cons (Memᴰ.head e) = inl e
mem_cons (Memᴰ.tail m) = inr m

mem_where :
    {A : Type 0} {x : A} (p : A → Bool) (xs : List A)
    → Memᴰ x (where_rows p xs)
    → Memᴰ x xs × (p x ≡ true)
mem_where p [] m = elim m [ ]
mem_where {x = x} p (y ∷ ys) m = elim (Bool-cases (p y)) [
  | inr f ↦ (let (n, t) = mem_where {x = x} p ys (rw f at m) in (Memᴰ.tail n, t))
  | inl e ↦ elim (mem_cons (rw e at m)) [
    | inl same ↦ (Memᴰ.head same, ap p same ∙ e)
    | inr later ↦ (let (n, t) = mem_where {x = x} p ys later in (Memᴰ.tail n, t))
  ]
]

newest_diff-mem : (diffs : List RunDiff) {d : RunDiff} → newest_diff diffs ≡ some d → Memᴰ d diffs
unfolding newest_diff newer_diff
newest_diff-mem [] e = cc
newest_diff-mem (x ∷ xs) {d} e = elim (Option-cases (newest_diff xs)) [
  | inl n ↦ Memᴰ.head (let s : some x ≡ some d = rw n at e in cc)
  | inr (y, n) ↦ elim (Bool-cases (leb y.created_at x.created_at)) [
    | inl t ↦ Memᴰ.head (let s : some x ≡ some d = rw (n, t) at e in cc)
    | inr f ↦ Memᴰ.tail (newest_diff-mem xs (let s : some y ≡ some d = rw (n, f) at e in n ∙ s))
  ]
]

-- A stored diff that an approved row is bound to.
pub record Reviewed (run_id : ℕ) (hash : String) (db : Db) : Type 0 where
  pub diff : RunDiff
  pub stored : Memᴰ diff db.diffs
  pub of_run : diff.run_id ≡ run_id
  pub same_hash : diff.diff_hash ≡ hash
  pub clean : diff.risk_blocking ≡ false

module _ (sha256 : String → String) where
  abbrev IsHashed : Db → Type 0
  IsHashed db = All (λ d. d.diff_hash ≡ sha256 d.diff_text) db.diffs

  abbrev IsBound : Db → Type 0
  IsBound db = All (λ a. a.decision ≡ approved → Reviewed a.run_id a.diff_hash db) db.approvals

  record IsSound (db : Db) : Type 0 where
    hashed : IsHashed db
    bound : IsBound db

  Reviewed-later :
      {run_id : ℕ} {hash : String} (a b : Db)
      → ((d : RunDiff) → Memᴰ d a.diffs → Memᴰ d b.diffs)
      → Reviewed run_id hash a
      → Reviewed run_id hash b
  Reviewed-later a b kept r = record {
    diff = r.diff;
    stored = kept _ r.stored;
    of_run = r.of_run;
    same_hash = r.same_hash;
    clean = r.clean;
  }

  All-later :
      (a b : Db) (rows : List Approval)
      → ((d : RunDiff) → Memᴰ d a.diffs → Memᴰ d b.diffs)
      → All (λ r. r.decision ≡ approved → Reviewed r.run_id r.diff_hash a) rows
      → All (λ r. r.decision ≡ approved → Reviewed r.run_id r.diff_hash b) rows
  All-later a b [] kept h = tt
  All-later a b (r ∷ rs) kept h = (λ e. Reviewed-later a b kept (h.0 e), All-later a b rs kept h.1)

  latest-Reviewed :
      (run_id : ℕ) (db : Db) (d : RunDiff)
      → latest_of run_id db ≡ some d
      → d.risk_blocking ≡ false
      → Reviewed run_id d.diff_hash db
  latest-Reviewed run_id db d e clean =
      let (stored, of_run) = mem_where (λ d. d.run_id == run_id) db.diffs (newest_diff-mem _ e) in
      record {
        diff = d;
        stored = stored;
        of_run = (==_iff _ _).0 of_run;
        same_hash = refl;
        clean = clean;
      }

  decided-IsSound :
      {run_id : ℕ} {d : Decision} {a b : Db} → Effect run_id d a b → IsSound a → IsSound b
  decided-IsSound {run_id} {d} {a} {b} e h = record {
    hashed = subst (All _) (sym e.same_diffs) h.hashed;
    bound =
        let kept : (x : RunDiff) → Memᴰ x a.diffs → Memᴰ x b.diffs =
          λ x m. subst (Memᴰ x) (sym e.same_diffs) m in
        elim e.approvals [
          | inl same ↦ subst (All _) (sym same) (All-later a b a.approvals kept h.bound)
          | inr n ↦ subst (All _) (sym n.added) (
              All-append _ a.approvals (n.row ∷ []) (All-later a b a.approvals kept h.bound) (
                (λ yes.
                    subst (λ i. Reviewed i n.row.diff_hash b) (sym n.of_run)
                      (subst (λ hash. Reviewed run_id hash b) (sym n.bound)
                        (Reviewed-later a b kept (
                          latest-Reviewed run_id a n.diff n.latest
                            (n.clean (sym n.decided ∙ yes)))))),
                tt,
              ))
        ];
  }

  Step-IsSound : {a b : Db} → Writes sha256 a b → IsSound a → IsSound b
  Step-IsSound {a} {b} (keeps k) h = record {
    hashed = subst (All _) (sym k.diffs) h.hashed;
    bound =
        subst (All _) (sym k.approvals)
          (All-later a b a.approvals (λ d m. subst (Memᴰ d) (sym k.diffs) m) h.bound);
  }
  Step-IsSound {a} {b} (stores row hashed diffs same) h = record {
    hashed = subst (All _) (sym diffs) (All-append _ a.diffs (row ∷ []) h.hashed (hashed, tt));
    bound = subst (All _) (sym same) (
        All-later a b a.approvals
          (λ d m. subst (Memᴰ d) (sym diffs) (mem_left a.diffs (row ∷ []) m)) h.bound);
  }
  Step-IsSound (decides run_id d e) h = decided-IsSound e h

  Steps-IsSound : {a b : Db} → Steps sha256 a b → IsSound a → IsSound b
  Steps-IsSound here h = h
  Steps-IsSound (next steps step) h = Step-IsSound (Step-Writes sha256 step) (Steps-IsSound steps h)

-- From a database without diffs and approvals, and after any service calls: a text that passes the
-- push gate has the hash of a diff that was stored for the run, was not blocking, and was hashed
-- from its own text.
pub assert_push_allowed-reviewed :
    (sha256 : String → String) {a b : Db}
    → Steps sha256 a b
    → a.diffs ≡ []
    → a.approvals ≡ []
    → (run_id : ℕ) (diff_text : String) (given : Approval)
    → assert_push_allowed sha256 run_id diff_text b ≡ (ok given, b)
    → (diff : RunDiff) × Memᴰ diff b.diffs
      × (diff.run_id ≡ run_id)
      × (sha256 diff.diff_text ≡ sha256 diff_text)
      × (diff.risk_blocking ≡ false)
assert_push_allowed-reviewed sha256 {a} {b} steps no_diffs no_approvals run_id diff_text given
      pushed =
    let (found, said, same) =
      (assert_push_allowed-opens sha256 run_id diff_text given b).0 pushed in
    let start : IsSound sha256 a = record {
      hashed = subst (All _) (sym no_diffs) tt;
      bound = subst (All _) (sym no_approvals) tt;
    } in
    let sound = Steps-IsSound sha256 steps start in
    let r = All-mem _ b.approvals sound.bound (find_row-mem _ b.approvals found) said in
    let of_run = (==_iff _ _).0 (find_row-passes (λ a. a.run_id == run_id) b.approvals found) in
    (
      r.diff,
      r.stored,
      r.of_run ∙ of_run,
      sym (All-mem (λ d. d.diff_hash ≡ sha256 d.diff_text) b.diffs sound.hashed r.stored)
          ∙ (r.same_hash ∙ same),
      r.clean,
    )
