-- ===== src/Orchestrator/Via.antt =====
-- What the steps of the orchestrator (agent/orchestrator.py) do to the database, as a sequence of
-- single writes of a kind. The rules follow the code, one for each way to build a step.
use pullsmith.Common.{
  ◌≡◌, refl, sym, ◌∙◌, subst, ℕ, ◌⊎◌, inl, inr, String, Bool, true, false, Option, none, some,
  if◌then◌else◌,
}
use pullsmith.Db.{Db}
use pullsmith.Events.{find_run}
use pullsmith.Db.Session.{query}
use pullsmith.Phases.{Raised, return, raise, then_do, ◌>>=◌}
use pullsmith.Orchestrator.{
  RunScratch, Ride, Step, service, commit, on_scratch, write_scratch, on_world, write_world,
  outside, needed, known_or, raise_if, the_run, outside_text, Runtime, Cloned, cloned, git_error,
  clone_crashed,
}
use pullsmith.Orchestrator.Prepare.{on_cloned}

pub data Star (R : Db → Db → Type 0) (a : Db) : Db → Type 0 where
  here : Star R a a
  next : {b c : Db} → Star R a b → R b c → Star R a c

module _ {R : Db → Db → Type 0} where
  pub joined : {a b c : Db} → Star R a b → Star R b c → Star R a c
  joined first here = first
  joined first (next second step) = next (joined first second) step

map-Star :
    {R S : Db → Db → Type 0} {a b : Db} → ((x y : Db) → R x y → S x y) → Star R a b → Star S a b
map-Star widen here = here
map-Star widen (next steps step) = next (map-Star widen steps) (widen _ _ step)

-- What a step left committed: what was so before, or a database on the way.
abbrev pub Committed : {World : Type 0} → (Db → Db → Type 0) → Ride World → Ride World → Type 0
Committed R ride left = (left.committed ≡ ride.committed) ⊎ Star R ride.db left.committed

-- Whether it returns or raises, a step takes the database to where such writes lead.
pub record Via {World A : Type 0} (R : Db → Db → Type 0) (m : Step World A) : Type 0 where
  pub writes : (ride : Ride World) → Star R ride.db (m ride).1.db
  pub commits : (ride : Ride World) → Committed R ride (m ride).1

map-Committed :
    {World : Type 0} {R S : Db → Db → Type 0} (ride left : Ride World)
    → ((x y : Db) → R x y → S x y)
    → Committed R ride left
    → Committed S ride left
map-Committed ride left widen (inl same) = inl same
map-Committed ride left widen (inr steps) = inr (map-Star widen steps)

pub map-Via :
    {World A : Type 0} {R S : Db → Db → Type 0} {m : Step World A}
    → ((x y : Db) → R x y → S x y)
    → Via R m
    → Via S m
map-Via {m} widen h = record {
  writes = λ ride. map-Star widen (h.writes ride);
  commits = λ ride. map-Committed ride (m ride).1 widen (h.commits ride);
}

module _ {R : Db → Db → Type 0} {World : Type 0} where
  then_do-Star :
      {A B : Type 0} (a : Db) (r : (Raised ⊎ A) × Ride World) (f : A → Step World B)
      → Star R a r.1.db
      → ((x : A) (left : Ride World) → Star R left.db (f x left).1.db)
      → Star R a (then_do r f).1.db
  then_do-Star a (inl why, left) f h more = h
  then_do-Star a (inr x, left) f h more = joined h (more x left)

  -- Two parts in a row.
  joined-Committed :
      (ride mid left : Ride World)
      → Star R ride.db mid.db
      → Committed R ride mid
      → Committed R mid left
      → Committed R ride left
  joined-Committed ride mid left steps first (inr further) = inr (joined steps further)
  joined-Committed ride mid left steps (inl same) (inl again) = inl (again ∙ same)
  joined-Committed ride mid left steps (inr earlier) (inl again) =
      inr (subst (Star R ride.db) (sym again) earlier)

  then_do-Committed :
      {A B : Type 0} (ride : Ride World) (r : (Raised ⊎ A) × Ride World) (f : A → Step World B)
      → Star R ride.db r.1.db
      → Committed R ride r.1
      → ((x : A) → Via R (f x))
      → Committed R ride (then_do r f).1
  then_do-Committed ride (inl why, left) f steps done more = done
  then_do-Committed ride (inr x, mid) f steps done more =
      joined-Committed ride mid (f x mid).1 steps done ((more x).commits mid)

  pub bind-Via :
      {A B : Type 0} {m : Step World A} {f : A → Step World B}
      → Via R m
      → ((a : A) → Via R (f a))
      → Via R (m >>= f)
  bind-Via {m} {f} hm hf = record {
    writes = λ ride. then_do-Star ride.db (m ride) f (hm.writes ride) (λ x. (hf x).writes);
    commits = λ ride. then_do-Committed ride (m ride) f (hm.writes ride) (hm.commits ride) hf;
  }

  -- What handles the result of a step, an exception included.
  pub handled-Via :
      {A B : Type 0} {m : Step World A} (h : (Raised ⊎ A) × Ride World → (Raised ⊎ B) × Ride World)
      → Via R m
      → ((r : Raised ⊎ A) → Via R (λ ride. h (r, ride)))
      → Via R (λ ride. h (m ride))
  handled-Via {m} h hm more = record {
    writes = λ ride. joined (hm.writes ride) ((more (m ride).0).writes (m ride).1);
    commits = λ ride.
        joined-Committed ride (m ride).1 (h (m ride)).1 (hm.writes ride) (hm.commits ride)
          ((more (m ride).0).commits (m ride).1);
  }

  pub if-Via :
      {A : Type 0} (b : Bool) {m n : Step World A} → Via R m → Via R n → Via R (if b then m else n)
  if-Via true hm hn = hm
  if-Via false hm hn = hn

  pub return-Via : {A : Type 0} (a : A) → Via R (return {S = Ride World} a)
  return-Via a = record { writes = λ ride. here; commits = λ ride. inl refl }

  pub raise-Via : {A : Type 0} (why : Raised) → Via R (raise {S = Ride World} {A = A} why)
  raise-Via why = record { writes = λ ride. here; commits = λ ride. inl refl }

  pub query-Via : {A : Type 0} (f : Db → A) → Via R (service {World = World} (query f))
  query-Via f = record { writes = λ ride. here; commits = λ ride. inl refl }

  pub commit-Via : Via R (commit {World = World})
  commit-Via = record { writes = λ ride. here; commits = λ ride. inr here }

  pub on_scratch-Via : {A : Type 0} (f : RunScratch → A) → Via R (on_scratch {World = World} f)
  on_scratch-Via f = record { writes = λ ride. here; commits = λ ride. inl refl }

  pub write_scratch-Via : (f : RunScratch → RunScratch) → Via R (write_scratch {World = World} f)
  write_scratch-Via f = record { writes = λ ride. here; commits = λ ride. inl refl }

  pub on_world-Via : {A : Type 0} (f : World → A) → Via R (on_world f)
  on_world-Via f = record { writes = λ ride. here; commits = λ ride. inl refl }

  pub write_world-Via : (f : World → World) → Via R (write_world f)
  write_world-Via f = record { writes = λ ride. here; commits = λ ride. inl refl }

  pub outside-Via : {A : Type 0} (f : World → (Raised ⊎ A) × World) → Via R (outside f)
  outside-Via f = record { writes = λ ride. here; commits = λ ride. inl refl }

  pub outside_text-Via : {A : Type 0} (f : World → (String ⊎ A) × World) → Via R (outside_text f)
  outside_text-Via f = record { writes = λ ride. here; commits = λ ride. inl refl }

  pub on_cloned-Via :
      (runtime : Runtime World) (run_id : ℕ) (answer : Cloned)
      → Via R (on_cloned runtime run_id answer)
  on_cloned-Via runtime run_id (cloned checkout) = return-Via checkout
  on_cloned-Via runtime run_id (git_error why) = raise-Via _
  on_cloned-Via runtime run_id (clone_crashed why) = raise-Via _

  pub needed-Via : {A : Type 0} (o : Option A) (why : Raised) → Via R (needed {World = World} o why)
  needed-Via none why = record { writes = λ ride. here; commits = λ ride. inl refl }
  needed-Via (some a) why = record { writes = λ ride. here; commits = λ ride. inl refl }

  pub known_or-Via : {A : Type 0} (o : Option A) {m : Step World A} → Via R m → Via R (known_or o m)
  known_or-Via none h = h
  known_or-Via (some a) h = return-Via a

  pub raise_if-Via : (b : Bool) (why : Raised) → Via R (raise_if {World = World} b why)
  raise_if-Via true why = record { writes = λ ride. here; commits = λ ride. inl refl }
  raise_if-Via false why = record { writes = λ ride. here; commits = λ ride. inl refl }

  pub the_run-Via : (run_id : ℕ) → Via R (the_run {World = World} run_id)
  the_run-Via run_id = record {
    writes = λ ride. (needed-Via (find_run run_id ride.db.runs) _).writes ride;
    commits = λ ride. (needed-Via (find_run run_id ride.db.runs) _).commits ride;
  }

  pub ruleset via = (
    bind-Via, if-Via, return-Via, raise-Via, query-Via, commit-Via, on_scratch-Via,
    write_scratch-Via, on_world-Via, write_world-Via, outside-Via, outside_text-Via, on_cloned-Via,
    needed-Via, known_or-Via, raise_if-Via, the_run-Via,
  )
