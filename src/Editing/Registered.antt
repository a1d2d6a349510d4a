-- ===== src/Editing/Registered.antt =====
-- agent/tools/editing.py, `register_editing_tools`, with the arguments that pydantic lets through.
-- `schema_of` and `errors` are pydantic's: the JSON schema of a model, and its text for arguments
-- that do not validate.
use pullsmith.Common.{
  ◌≡◌, refl, sym, ap, ℕ, inl, inr, String, Bool, true, Option, none, some, List, [], ◌∷◌, ◌&&◌, leb,
  if◌then◌else◌, str_eq, find_row, text_length, Option-cases, All, All-mem, subst, ◌+◌,
}
use pullsmith.Db.{text}
use pullsmith.Llm.{Arguments}
use pullsmith.Diff.{FileChange}
use pullsmith.Disk.{Disk, text_of}
use pullsmith.Tools.{
  ToolContext, Tool, Handled, returned, timed_out, safety_refused, crashed, register, get, execute,
  failure, result_of, run_handler, Executed,
}
use pullsmith.Tools.Execute.{execute_cases}
use pullsmith.Editing.{Left}
use pullsmith.Editing.Recorded.{
  Edit, writing, replacing, deleting, edit, has_succeeded, Outcome, edit-Outcome,
}

-- A required field that is a text, of at least `least` and, where `most` says so, at most so many
-- characters.
unfoldable text_field : (name : String) (least : ℕ) (most : Option ℕ) → Arguments → Option String
unfolding text_length
text_field name least most arguments = elim (find_row (λ p. str_eq p.0 name) arguments) [
  | some (key, text s) ↦
      if leb least (text_length s) && (elim most [ none ↦ true | some m ↦ leb (text_length s) m ])
      then some s
      else none
  | _ ↦ none
]

-- `f` of a field that validates.
abbrev with_field {ℓ} : {A : Type ℓ} → Option String → (String → Option A) → Option A
with_field none f = none
with_field (some s) f = f s

unfoldable replace_in_file_args : Arguments → Option Edit
unfolding text_field
replace_in_file_args arguments = with_field (text_field "path" 0 (some 1024) arguments) (λ path.
    with_field (text_field "find" 1 none arguments) (λ find.
      with_field (text_field "replace" 0 none arguments) (λ replace.
        with_field (text_field "reason" 0 (some 300) arguments) (λ reason.
          some (
            replacing (record { path = path; find = find; replace = replace; reason = reason }))))))

unfoldable write_file_args : Arguments → Option Edit
unfolding text_field
write_file_args arguments = with_field (text_field "path" 0 (some 1024) arguments) (λ path.
    with_field (text_field "content" 0 none arguments) (λ content.
      with_field (text_field "reason" 0 (some 300) arguments)
        (λ reason. some (writing (record { path = path; content = content; reason = reason })))))

unfoldable delete_file_args : Arguments → Option Edit
unfolding text_field
delete_file_args arguments = with_field (text_field "path" 0 (some 1024) arguments) (λ path.
    with_field (text_field "reason" 0 (some 300) arguments)
      (λ reason. some (deleting (record { path = path; reason = reason }))))

module _ (resolve : List String → List String) (workspace : List String)
    (os_error : List String → String) (schema_of : String → Arguments)
    (errors : String → Arguments → String) where
  -- A handler is only called with arguments that its model accepts.
  unfoldable handle :
      (name : String) (parse : Arguments → Option Edit) → ToolContext → Arguments → Disk → Left
  unfolding edit
  handle name parse context arguments disk = elim (parse arguments) [
    | none ↦ (crashed (errors name arguments), context.changes, disk)
    | some e ↦ edit resolve workspace os_error context e disk
  ]

  unfoldable pub editing_tool :
      (name description : String) → (parse : Arguments → Option Edit) → Tool Disk
  unfolding handle
  editing_tool name description parse = record {
    name = name;
    description = description;
    parameters = schema_of name;
    validate = λ arguments. elim (parse arguments) [
      | none ↦ inr (errors name arguments)
      | some e ↦ inl arguments
    ];
    handler = handle name parse;
    timeout_seconds = 30;
    mutating = true;
  }

  unfoldable pub replace_in_file_tool : Tool Disk
  unfolding editing_tool replace_in_file_args
  replace_in_file_tool =
      editing_tool "replace_in_file"
        "Replace an exact snippet of text in a file. The snippet must appear exactly once. This is the preferred way to edit existing code, because it changes only what you name."
        replace_in_file_args

  unfoldable pub write_file_tool : Tool Disk
  unfolding editing_tool write_file_args
  write_file_tool =
      editing_tool "write_file"
        "Write the complete contents of a file, creating it if needed. Use this for new files. For editing existing code prefer replace_in_file."
        write_file_args

  unfoldable pub delete_file_tool : Tool Disk
  unfolding editing_tool delete_file_args
  delete_file_tool =
      editing_tool "delete_file" "Delete a single file. Directories cannot be deleted."
        delete_file_args

  -- The ValueError of a name that is taken is none.
  unfoldable pub register_editing_tools : List (Tool Disk) → Option (List (Tool Disk))
  unfolding register replace_in_file_tool write_file_tool delete_file_tool
  register_editing_tools tools = elim (register replace_in_file_tool tools) [
    | none ↦ none
    | some one ↦ elim (register write_file_tool one) [
      | none ↦ none
      | some two ↦ register delete_file_tool two
    ]
  ]

  result_of-has_succeeded :
      (tool : Tool Disk) (h : Handled) → (result_of tool h).ok ≡ has_succeeded h
  unfolding result_of has_succeeded failure
  result_of-has_succeeded tool (returned r) = refl
  result_of-has_succeeded tool timed_out = refl
  result_of-has_succeeded tool (safety_refused why) = refl
  result_of-has_succeeded tool (crashed why) = refl

  abbrev pub After : List FileChange → Disk → Executed Disk → Type 0
  After changes disk e =
      Outcome resolve workspace os_error changes disk e.result.ok e.context.changes e.world

  handle-Outcome :
      (name : String) (parse : Arguments → Option Edit) (context : ToolContext)
      (arguments : Arguments) (disk : Disk)
      → (let left = handle name parse context arguments disk in
          Outcome resolve workspace os_error context.changes disk
            (has_succeeded left.0)
            left.1
            left.2)
  unfolding handle has_succeeded
  handle-Outcome name parse context arguments disk = elim (Option-cases (parse arguments)) [
    | inl e ↦
        rw (handle, e) (inl (record { not_ok = refl; same_changes = refl; same_files = λ p. refl }))
    | inr (e, f) ↦ rw (handle, f) (edit-Outcome resolve workspace os_error context disk e)
  ]

  -- A tool of this module.
  record IsEditing (tool : Tool Disk) : Type 0 where
    pub name : String
    pub parse : Arguments → Option Edit
    pub handles : tool.handler ≡ handle name parse

  registered :
      (tools : List (Tool Disk)) → register_editing_tools [] ≡ some tools → All IsEditing tools
  unfolding register_editing_tools register get replace_in_file_tool write_file_tool
      delete_file_tool editing_tool
  registered tools e =
      let three : replace_in_file_tool ∷ write_file_tool ∷ delete_file_tool ∷ [] ≡ tools = cc in
      subst (All IsEditing) three (
        record { name = _; parse = replace_in_file_args; handles = refl },
        (
          record { name = _; parse = write_file_args; handles = refl },
          (record { name = _; parse = delete_file_args; handles = refl }, tt),
        ),
      )

  run_handler-Outcome :
      (tool : Tool Disk) (context : ToolContext) (arguments : Arguments) (disk : Disk)
      → IsEditing tool
      → After context.changes disk (run_handler tool context arguments disk)
  unfolding run_handler
  run_handler-Outcome tool context arguments disk is =
      let counted : ToolContext = record context {
        tool_calls_used = context.tool_calls_used + 1;
      } in
      let left = tool.handler counted arguments disk in
      subst (λ b. Outcome resolve workspace os_error context.changes disk b left.1 left.2)
        (sym (result_of-has_succeeded tool left.0))
        (subst
          (λ h.
            (let l = h counted arguments disk in
              Outcome resolve workspace os_error context.changes disk (has_succeeded l.0) l.1 l.2))
          (sym is.handles) (handle-Outcome is.name is.parse counted arguments disk))

  -- To the outside, the tools are a map from paths to texts and a log of changes, and every call
  -- through a registry of them is one of two steps of it. It is no success, and neither the log nor
  -- any file differs. Or it succeeds, and there is one file of the workspace such that every other
  -- file is as it was, and the change that is appended to the log holds what was read of this file
  -- before, under a path that resolves to it and whose own name is none of the credential files'.
  pub execute-Outcome :
      (tools : List (Tool Disk)) (context : ToolContext) (name : String) (raw_arguments : Arguments)
      (allow_mutating : Bool) (disk : Disk)
      → register_editing_tools [] ≡ some tools
      → After context.changes disk (execute tools context name raw_arguments allow_mutating disk)
  execute-Outcome tools context name raw_arguments allow_mutating disk e =
      elim (execute_cases tools context name raw_arguments allow_mutating disk) [
        | inl refusal ↦ inl (record {
          not_ok = refusal.not_ok;
          same_changes = ap (λ c. c.changes) refusal.same_context;
          same_files = λ p. ap (λ d. text_of (d p)) refusal.same_world;
        })
        | inr run ↦ subst (After context.changes disk) (sym run.ran) (
            run_handler-Outcome run.tool context run.arguments disk
              (All-mem IsEditing tools (registered tools e) run.registered))
      ]
