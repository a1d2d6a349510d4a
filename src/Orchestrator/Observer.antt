-- ===== src/Orchestrator/Observer.antt =====
-- agent/orchestrator.py, `_observer`: what a phase reports becomes an event.
use pullsmith.Common.{
  ℕ, ◌⊎◌, inl, inr, String, Bool, false, Option, none, some, List, [], ◌∷◌, if◌then◌else◌, show,
  ◌<>◌, take_text, or_text, str_eq,
}
use pullsmith.Db.{EventKind, tool_call, test_run, retrieval, info, Json, text, num, bool}
use pullsmith.Tools.{ToolContext}
use pullsmith.Phases.{Raised, Observed, Phase, return, raise, ◌>>◌}
use pullsmith.Orchestrator.{Ride, Step, note_event}

-- What a payload says, as the text that Python prints.
abbrev pub text_of : Json → String
text_of (text s) = s
text_of (num n) = show n
text_of _ = ""

abbrev payload_get : String → List (String × Json) → Option Json
payload_get key [] = none
payload_get key ((k, v) ∷ more) = if str_eq k key then some v else payload_get key more

abbrev is_true : Option Json → Bool
is_true (some (bool b)) = b
is_true _ = false

abbrev text_or : Option Json → String → String
text_or none otherwise = otherwise
text_or (some v) otherwise = text_of v

-- `payload.get("message") or payload.get("tool") or kind`
unfoldable observed_message : (kind : String) → List (String × Json) → String
unfolding show
observed_message kind payload =
    let said =
      or_text (some (text_or (payload_get "message" payload) ""))
        (or_text (some (text_or (payload_get "tool" payload) "")) kind) in
    if str_eq kind "tool_call"
    then text_or (payload_get "tool" payload) "None"
      <> " ("
      <> (if is_true (payload_get "ok" payload) then "ok" else "failed")
      <> ")"
    else if str_eq kind "test_run"
    then text_or (payload_get "summary" payload) "tests run"
    else if str_eq kind "retrieval"
    then "Retrieved "
      <> text_or (payload_get "chunks_found" payload) "0"
      <> " additional code sections"
    else said

unfoldable observed_kind : (kind : String) → EventKind
observed_kind kind =
    if str_eq kind "tool_call"
    then tool_call
    else if str_eq kind "test_run"
    then test_run
    else if str_eq kind "retrieval"
    then retrieval
    else info

module _ {World : Type 0} (run_id : ℕ) where
  -- `_observer`: a report becomes an event.
  unfoldable pub observe : Observed → Step World (Unit {0})
  unfolding observed_message observed_kind take_text
  observe (kind, payload) =
      note_event run_id (observed_kind kind) (take_text 500 (observed_message kind payload))
        (if str_eq kind "warning" then "warning" else "info") (some payload)

  unfoldable pub observe_all : List Observed → Step World (Unit {0})
  unfolding observe
  observe_all [] = return tt
  observe_all (o ∷ os) = observe o >> observe_all os

  -- What a phase ended with, once its reports are events.
  abbrev pub ended : {A : Type 0} → Raised ⊎ A → Step World A
  ended (inl why) = raise why
  ended (inr a) = return a

  -- A phase with the run's tool context; its reports are written to the timeline in their order.
  unfoldable pub in_context : {A : Type 0} → ToolContext → Phase World A → Step World A
  unfolding observe_all
  in_context context phase = λ ride.
      let r = phase (record { context = context; world = ride.world; reports = [] }) in
      let left : Ride World = record ride {
        world = r.1.world;
        scratch = record ride.scratch { context = some r.1.context };
      } in
      (observe_all r.1.reports >> ended r.0) left
