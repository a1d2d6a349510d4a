-- ===== src/Tests/Registry.antt =====
-- The whole registry, on the disk of the reading tools and beside a model that counts its calls.
use pullsmith.Common.{◌≡◌, refl, ℕ, ◌+◌, ◌≤◌, none, some, List, [], ◌∷◌, inr, map, or_else, length}
use pullsmith.Disk.{Disk, put}
use pullsmith.Tools.{Tool, register, get}
use pullsmith.Phases.{Provider, Desk}
use pullsmith.Planner.{build_plan}
use pullsmith.Planner.ReadOnly.{Kept}
use pullsmith.Repair.{verify}
use pullsmith.Editing.Registered.{register_editing_tools}
use pullsmith.Reading.Tree.{TreeArgs, tree_lines, max_tree_entries, tree_lines-length}
use pullsmith.Registry.{beside, Machine, build_registry}
use pullsmith.Registry.ReadOnly.{phases-Kept}
use pullsmith.Tests.Agent.{model, context}
use pullsmith.Tests.Edits.{there, work}
use pullsmith.Tests.Reads.{disk, children, tree, compile, shown, secret_file, secret_search}
use pullsmith.Tests.Repairs.{provider, plan, analysis}

abbrev three_levels : TreeArgs
three_levels = record { path = "."; max_depth = 3 }

abbrev machine : Machine
machine = record {
  resolve = there;
  workspace = work;
  children = children;
  tree = tree;
  compile = compile;
  shown = shown;
  escape = λ s. s;
  os_error = λ path. "OSError: no space left";
  schema_of = λ name. [];
  models = record {
    list_directory_args = λ arguments. inr ".";
    read_file_args = λ arguments. inr secret_file;
    search_code_args = λ arguments. inr secret_search;
    find_symbol_args = λ arguments. inr "x";
    tree_args = λ arguments. inr three_levels;
  };
  errors = λ name arguments. "ValidationError";
}

abbrev tools : List (Tool Disk)
tools = or_else (build_registry machine) []

built : build_registry machine ≡ some tools
unfolding build_registry register_editing_tools register get
built = refl

eight : length tools ≡ 8
unfolding build_registry register_editing_tools register get
eight = refl

-- Names that start with a dot are not listed.
one_line : tree_lines there work children tree compile shown three_levels disk work ≡ "a.py" ∷ []
unfolding tree_lines put
one_line = refl

tree_lines-length_example :
    length (tree_lines there work children tree compile shown three_levels disk work)
    ≤ max_tree_entries + 3
tree_lines-length_example =
    tree_lines-length there work children tree compile shown three_levels disk work

abbrev beside_disk : Provider (Disk × ℕ)
beside_disk = record {
  generate = λ messages schemas w. let r = model messages schemas w.1 in (r.0, (w.0, r.1));
  issue_analysis = provider.issue_analysis;
  implementation_plan = provider.implementation_plan;
  failure_analysis = provider.failure_analysis;
  verification_result = provider.verification_result;
}

abbrev desk : Desk (Disk × ℕ)
desk = record { context = context; world = (disk, 0); reports = [] }

phases-Kept_example :
    Kept (λ w. w.0) desk (build_plan beside_disk (map beside tools) analysis [] "" none desk).1
    × Kept (λ w. w.0) desk (verify beside_disk (map beside tools) plan "" [] none desk).1
phases-Kept_example =
    phases-Kept machine tools beside_disk analysis [] "" plan "" [] none desk built
      (λ messages schemas w. refl)
