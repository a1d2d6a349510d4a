-- ===== src/Api/Stream/Resumed.antt =====
-- What a browser gets from the event stream (api/routes/runs.py, `stream_events`).
use mathlib.Core.List.{append-nil}
use pullsmith.Common.{
  ◌≡◌, refl, ap, ◌∙◌, inl, inr, ℕ, zero, suc, ◌+◌, ◌-◌, min, Bool, true, false, none, some, List,
  [], ◌∷◌, ◌++◌, map, arith, ◌&&◌, ◌==◌, Bool-cases, Option-cases, if◌then◌else◌, All, find_row,
}
use pullsmith.States.{RunState}
use pullsmith.Db.{Db, AgentRun, AgentEvent}
use pullsmith.Db.Session.{ok, raise, not_found}
use pullsmith.Events.{find_run, list_events}
use pullsmith.Events.Timeline.{IsTimeline, sequences, last_sequence}
use pullsmith.Events.Resume.{range, sequences-list_events}
use pullsmith.Runs.{get_run}
use pullsmith.Api.Stream.{
  Frame, run_event, keepalive, run_finished, Round, last_of, round_of, stream_round, stream,
}

-- The sequence numbers of the events among the frames.
pub sent : List Frame → List ℕ
sent [] = []
sent (run_event e ∷ fs) = e.sequence ∷ sent fs
sent (keepalive ∷ fs) = sent fs
sent (run_finished s ∷ fs) = sent fs

sent-append : (xs ys : List Frame) → sent (xs ++ ys) ≡ sent xs ++ sent ys
unfolding sent
sent-append [] ys = refl
sent-append (run_event e ∷ xs) ys = ap (λ t. e.sequence ∷ t) (sent-append xs ys)
sent-append (keepalive ∷ xs) ys = sent-append xs ys
sent-append (run_finished s ∷ xs) ys = sent-append xs ys

sent-events : (es : List AgentEvent) → sent (map run_event es) ≡ sequences es
unfolding sent
sent-events [] = refl
sent-events (e ∷ es) = ap (λ t. e.sequence ∷ t) (sent-events es)

range-append : (k m n : ℕ) → range k m ++ range (k + m) n ≡ range k (m + n)
range-append k zero n =
    let e : k + 0 ≡ k = omega arith in let f : 0 + n ≡ n = omega arith in rw (e, f)
range-append k (suc m) n =
    let e : k + suc m ≡ suc k + m = omega arith in
    let f : suc m + n ≡ suc (m + n) = omega arith in
    rw (e, f) (ap (λ t. suc k ∷ t) (range-append (suc k) m n))

last_of-range :
    (cursor n : ℕ) (es : List AgentEvent)
    → sequences es ≡ range cursor n
    → last_of cursor es ≡ cursor + n
unfolding last_of
last_of-range cursor zero [] h = omega arith
last_of-range cursor (suc n) [] h = cc
last_of-range cursor zero (e ∷ es) h = cc
last_of-range cursor (suc n) (e ∷ es) h =
    let first : e.sequence ≡ suc cursor = cc in
    let rest : sequences es ≡ range (suc cursor) n = cc in
    let c : cursor + suc n ≡ suc cursor + n = omega arith in
    rw (first, c) (last_of-range (suc cursor) n es rest)

sent-keepalive : (b : Bool) → sent (if b then keepalive ∷ [] else []) ≡ []
unfolding sent
sent-keepalive true = refl
sent-keepalive false = refl

sent-run_finished : (s : RunState) (b : Bool) → sent (if b then run_finished s ∷ [] else []) ≡ []
unfolding sent
sent-run_finished s true = refl
sent-run_finished s false = refl

round_gone :
    (run_id user_id cursor idle_ticks : ℕ) (es : List AgentEvent) (db : Db)
    → list_events run_id cursor 500 db ≡ (ok es, db)
    → find_row (λ r. (r.id == run_id) && (r.user_id == user_id)) db.runs ≡ none
    → (stream_round run_id user_id cursor idle_ticks db).0 ≡ raise (not_found "Run not found")
unfolding stream_round get_run
round_gone run_id user_id cursor idle_ticks es db read gone = rw read (rw gone)

round_found :
    (run_id user_id cursor idle_ticks : ℕ) (es : List AgentEvent) (run : AgentRun) (db : Db)
    → list_events run_id cursor 500 db ≡ (ok es, db)
    → find_row (λ r. (r.id == run_id) && (r.user_id == user_id)) db.runs ≡ some run
    → (stream_round run_id user_id cursor idle_ticks db).0 ≡ ok (round_of cursor idle_ticks es run)
unfolding stream_round get_run
round_found run_id user_id cursor idle_ticks es run db read found = rw read (rw found)

sent-round :
    (cursor idle : ℕ) (es : List AgentEvent) (run : AgentRun)
    → sent (round_of cursor idle es run).frames ≡ sequences es
unfolding round_of
sent-round cursor idle es run =
    rw (sent-append, sent-append, sent-events, sent-keepalive, sent-run_finished) (append-nil _)

-- One round and what comes after it.
sent-then :
    (r : Round) (more : List Frame) (cursor n m : ℕ)
    → sent r.frames ≡ range cursor n
    → sent more ≡ range (cursor + n) m
    → (k : ℕ) × (sent (r.frames ++ (if r.finished then [] else more)) ≡ range cursor k)
sent-then r more cursor n m now later = elim (Bool-cases r.finished) [
  | inl over ↦ (n, rw (over, append-nil) now)
  | inr on ↦ (n + m, rw (on, sent-append, now, later) (range-append cursor n m))
]

-- If the timelines of the databases that its rounds see are numbered without a gap and agree with
-- the runs' states, the events of a stream come numbered `cursor + 1`, `cursor + 2`, … over all the
-- rounds, whatever was written between them: none is skipped and none is sent twice.
pub sent-stream :
    (run_id user_id : ℕ) (dbs : List Db) (cursor idle_ticks : ℕ)
    → All IsTimeline dbs
    → (n : ℕ) × (sent (stream run_id user_id dbs cursor idle_ticks) ≡ range cursor n)
unfolding stream sent
sent-stream run_id user_id [] cursor idle_ticks h = (0, refl)
sent-stream run_id user_id (db ∷ dbs) cursor idle_ticks h =
    let (es, read, numbered) = sequences-list_events run_id cursor 500 db h.0 in
    let n = min 500 (last_sequence (find_run run_id db.runs) - cursor) in
    elim (Option-cases (find_row (λ r. (r.id == run_id) && (r.user_id == user_id)) db.runs)) [
      | inl gone ↦ rw (round_gone run_id user_id cursor idle_ticks es db read gone) (0, refl)
      | inr (run, found) ↦
          (let (m, more) =
              sent-stream run_id user_id dbs (last_of cursor es)
                (round_of cursor idle_ticks es run).idle_ticks h.1 in
            let next : sent (
                  stream run_id user_id dbs (last_of cursor es)
                    (round_of cursor idle_ticks es run).idle_ticks)
                ≡ range (cursor + n) m =
              more ∙ ap (λ c. range c m) (last_of-range cursor n es numbered) in
            rw (round_found run_id user_id cursor idle_ticks es run db read found) (
              sent-then (round_of cursor idle_ticks es run) _ cursor n m
                (sent-round cursor idle_ticks es run ∙ numbered) next))
    ]
