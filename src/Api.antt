-- ===== src/Api.antt =====
-- api/deps.py and what the routes share: a request is one transaction, and the errors of the
-- services become HTTP errors. Who the user is has been settled by the session cookie.
pub mod RunRoutes
pub mod ReviewRoutes
pub mod Stream
pub mod Ownership
use pullsmith.Common.{ℕ, String}
use pullsmith.Db.Session.{
  Error, not_found, run_conflict, review_error, http, Result, ok, raise, Action, transaction,
}

-- `get_db`: committed on success and rolled back on failure.
abbrev pub request : {A : Type 0} → Action A → Action A
request handler = transaction handler

abbrev pub with_error : {A : Type 0} → (Error → Error) → Result A → Result A
with_error f (ok a) = ok a
with_error f (raise e) = raise (f e)

-- `except … as exc: raise HTTPException(…) from exc`
abbrev pub translated : {A : Type 0} → (Error → Error) → Action A → Action A
translated f action = λ db. (with_error f (action db).0, (action db).1)

unfoldable pub not_found_404 : Error → Error
not_found_404 (not_found detail) = http 404 detail
not_found_404 e = e

unfoldable pub run_error : Error → Error
run_error (not_found detail) = http 404 detail
run_error (run_conflict detail) = http 409 detail
run_error e = e

unfoldable pub review_error_409 : Error → Error
review_error_409 (review_error detail) = http 409 detail
review_error_409 e = e
