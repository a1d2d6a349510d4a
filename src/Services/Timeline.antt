-- ===== src/Services/Timeline.antt =====
-- The timelines of services/event_service.py over any sequence of service calls.
use pullsmith.Common.{
  ◌≡◌, refl, sym, ap, ◌∙◌, some, ℕ, String, List, [], ◌∷◌, ◌++◌, inl, inr, Bool-cases, Option-cases,
  find_row-append, ◌==◌,
}
use pullsmith.Db.{Db, AgentRun}
use pullsmith.Events.{find_run}
use pullsmith.Events.Timeline.{
  IsTimeline, append_event-IsTimeline, transition-IsTimeline, last_sequence, shown_state, up_to,
}
use pullsmith.Services.{Steps}
use pullsmith.Services.Aside.{IsAside, find_run-aside}
use pullsmith.Services.Rules.{MoreRules, Steps-keep}

new_run_counts :
    (run : AgentRun) (runs : List AgentRun) (id : ℕ)
    → run.last_event_sequence ≡ 0
    → last_sequence (find_run id (runs ++ run ∷ [])) ≡ last_sequence (find_run id runs)
new_run_counts run runs id zeroed = elim (Option-cases (find_run id runs)) [
  | inr (r, e) ↦ simp (find_row-append, e)
  | inl e ↦
      simp (find_row-append, e)
        (elim (Bool-cases (run.id == id)) [ inl t ↦ rw (t, zeroed) | inr f ↦ rw f ])
]

new_run_shows :
    (run : AgentRun) (runs : List AgentRun) (id : ℕ)
    → run.last_event_sequence ≡ 0
    → shown_state (find_run id (runs ++ run ∷ [])) ≡ shown_state (find_run id runs)
new_run_shows run runs id zeroed = elim (Option-cases (find_run id runs)) [
  | inr (r, e) ↦ simp (find_row-append, e)
  | inl e ↦
      simp (find_row-append, e)
        (elim (Bool-cases (run.id == id)) [ inl t ↦ rw (t, zeroed) | inr f ↦ rw f ])
]

same-IsTimeline : (a b : Db) → b.runs ≡ a.runs → b.events ≡ a.events → IsTimeline a → IsTimeline b
same-IsTimeline a b r e h = record {
  numbered = λ id. rw (r, e) (h.numbered id);
  agrees = λ id. rw (r, e) (h.agrees id);
}

shown_aside :
    (f : AgentRun → AgentRun)
    → IsAside f
    → (r : AgentRun) → shown_state (some (f r)) ≡ shown_state (some r)
shown_aside f aside r = rw (aside.same_sequence r, aside.same_state r) refl

IsTimeline-rules : MoreRules IsTimeline
IsTimeline-rules = record {
  rules = record {
    with_id = λ db h. same-IsTimeline db _ refl refl h;
    with_jobs = λ db rows h. same-IsTimeline db _ refl refl h;
    with_pull_requests = λ db rows h. same-IsTimeline db _ refl refl h;
    with_run = λ db run keyed zeroed started free h. record {
      numbered = λ id. rw (new_run_counts run db.runs id zeroed) (h.numbered id);
      agrees = λ id. rw (new_run_shows run db.runs id zeroed) (h.agrees id);
    };
    appended = append_event-IsTimeline;
    moved = transition-IsTimeline;
  };
  with_plans = λ db rows h. same-IsTimeline db _ refl refl h;
  with_diffs = λ db rows h. same-IsTimeline db _ refl refl h;
  with_approval = λ db row h. same-IsTimeline db _ refl refl h;
  with_snapshots = λ db rows h. same-IsTimeline db _ refl refl h;
  with_aside = λ db run_id f aside h. record {
    numbered = λ id.
        h.numbered id
        ∙ ap up_to
            (sym (find_run-aside run_id f aside last_sequence aside.same_sequence id db.runs));
    agrees = λ id.
        h.agrees id
        ∙ sym (find_run-aside run_id f aside shown_state (shown_aside f aside) id db.runs);
  };
  with_time = λ db now h. same-IsTimeline db _ refl refl h;
}

-- Whatever calls the API and the worker make, in any order, every run's events stay numbered
-- without a gap and the last of them shows the run's state, if they did so before the calls.
pub Steps-IsTimeline :
    (sha256 : String → String) {a b : Db} → Steps sha256 a b → IsTimeline a → IsTimeline b
Steps-IsTimeline sha256 steps h = Steps-keep IsTimeline IsTimeline-rules sha256 steps h
