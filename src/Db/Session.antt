-- ===== src/Db/Session.antt =====
-- A service call as an action on the database that returns or raises. What a call wrote before it
-- raised is still in the session: the caller rolls it back (api/deps.py, worker/main.py).
use pullsmith.Common.{◌≡◌, refl, ℕ, ◌+◌, String, Bool, true, false, Option, none, some}
use pullsmith.States.{RunState, FailureCategory}
use pullsmith.Db.{Db}

-- The exceptions of the services, and of FastAPI's `HTTPException`.
pub data Error : Type 0 where
  not_found run_conflict lookup_error review_error approval_required : String → Error
  no_result_found : Error
  illegal_transition : RunState → RunState → Error
  run_aborted : FailureCategory → String → Error
  http : ℕ → String → Error

pub data Result (A : Type 0) : Type 0 where
  ok : A → Result A
  raise : Error → Result A

abbrev pub Action : Type 0 → Type 0
Action A = Db → Result A × Db

module _ {A : Type 0} where
  abbrev pub return : A → Action A
  return a = λ db. (ok a, db)

  abbrev pub fail : Error → Action A
  fail e = λ db. (raise e, db)

  abbrev pub require : Option A → Error → Action A
  require none e = fail e
  require (some a) e = return a

abbrev pub query : {A : Type 0} → (Db → A) → Action A
query f = λ db. (ok (f db), db)

abbrev pub change : (Db → Db) → Action (Unit {0})
change f = λ db. (ok tt, f db)

abbrev pub fail_if : Bool → Error → Action (Unit {0})
fail_if true e = fail e
fail_if false e = return tt

-- db/base.py: a uuid4 is taken to be a key that no row has yet.
abbrev pub new_id : Action ℕ
new_id = λ db. (ok db.unused_id, record db { unused_id = db.unused_id + 1 })

abbrev pub utc_now : Action ℕ
utc_now = query (λ db. db.now)

module _ {A B : Type 0} where
  abbrev pub after : Result A × Db → (A → Action B) → Result B × Db
  after (ok a, db) f = f a db
  after (raise e, db) f = (raise e, db)

  infixl 5 ◌>>=◌ ◌>>◌
  abbrev pub ◌>>=◌ : Action A → (A → Action B) → Action B
  m >>= f = λ db. after (m db) f

  abbrev pub ◌>>◌ : Action A → Action B → Action B
  m >> n = m >>= λ _. n

  -- What a chain that returned went through.
  after-eq-ok :
      (r : Result A × Db) (f : A → Action B) {b : B} {db : Db}
      → after r f ≡ (ok b, db)
      → (a : A) × (mid : Db) × (r ≡ (ok a, mid)) × (f a mid ≡ (ok b, db))
  after-eq-ok (ok a, mid) f e = (a, mid, refl, e)
  after-eq-ok (raise x, mid) f e = cc

-- A transaction: what is written is kept only if the body returns.
abbrev pub commit_or_rollback : {A : Type 0} → Result A × Db → Db → Result A × Db
commit_or_rollback (ok a, db) before = (ok a, db)
commit_or_rollback (raise e, db) before = (raise e, before)

abbrev pub transaction : {A : Type 0} → Action A → Action A
transaction m = λ db. commit_or_rollback (m db) db

-- A property of the database that holds after a step and after all that may follow it.
pub after-keeps {κ} :
    {A B : Type 0} (P : Db → Type κ) (r : Result A × Db) (f : A → Action B)
    → P r.1
    → ((a : A) → P r.1 → P (f a r.1).1)
    → P (after r f).1
after-keeps P (ok a, db) f h next = next a h
after-keeps P (raise e, db) f h next = h

require-keeps {κ} :
    {A : Type 0} (P : Db → Type κ) (o : Option A) (e : Error) (db : Db)
    → P db
    → P (require o e db).1
require-keeps P none e db h = h
require-keeps P (some a) e db h = h

fail_if-keeps {κ} : (P : Db → Type κ) (b : Bool) (e : Error) (db : Db) → P db → P (fail_if b e db).1
fail_if-keeps P true e db h = h
fail_if-keeps P false e db h = h
