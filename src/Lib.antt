-- ===== src/Lib.antt =====
-- Verification of the Pullsmith backend (backend/app): the service that runs a coding agent on an
-- issue, shows its change to a human and opens a pull request.
--
-- The parts and how they meet. The API (api/routes) and the worker (worker/main.py) call the
-- services; a service reads and writes the rows of the database and may raise. A run goes through
-- the states of agent/states.py. services/run_manager.py creates it and queues a job,
-- services/job_queue.py hands the job to a worker, the agent works in a loop of tool calls
-- (agent/loop.py, agent/tools/base.py), and every change of state and every tool call is an event
-- of services/event_service.py. services/review_service.py stores the plan and the diff, takes the
-- one decision of the reviewer and guards the push.
--
-- Common          Python's built-ins and the operations of a table; no code of the program.
-- States          agent/states.py: RunState, the transition table, the terminal states.
-- Schemas         agent/schemas.py: the fields of what a model answers with.
-- Db              models/core.py, models/review.py: the rows. Db/Session: a call as a function of
--                 the database to a result and a database; what was written before an error stays,
--                 as in the open session.
-- Events          services/event_service.py. A row that the code mutates is passed and returned.
-- Jobs            services/job_queue.py. A claim is one transaction; the rows that others hold
--                 locked are an argument.
-- Diff            agent/diff.py: the change set; Build compares the recorded originals with the
--                 files. The line diff of difflib and the disk are parameters.
-- Risk            agent/risk.py: Secrets has the scan for credentials, Assess the score.
-- Sandbox         sandbox/base.py: the result of a command and the contract of a runner, which
--                 acts on the World.
-- Testing         agent/testing.py: Patterns has the regular expressions, Parse the reading of an
--                 output, Run the targeted and the full run.
-- RepoMap         rag/repo_map.py: Known has what a manifest says and the tables of dependencies,
--                 Detect the inspection of the manifests, Build the languages and the map;
--                 Evidence, Keeps and Shown have the proofs.
-- Retrieval       rag/retrieve.py: the record that the agent's phases read.
-- Phases          what the phases of the agent act on: the tool context, the World, and the
--                 reports to the observer in their order.
-- Planner         agent/planner.py.
-- Orchestrator    agent/orchestrator.py: a step acts on the database of the session, the scratch
--                 and the World. Observer has the reports of a phase, Evidence says what outcomes
--                 the gate is opened on, Snapshots, Prepare and Work have the handlers, Publish
--                 the pull request, Advance the resumption and the driver, whose loop runs on
--                 fuel: eleven rounds are enough for every state. Via reads off what a step writes
--                 and commits, Serves and Refines that it writes by the calls of Services, Leads
--                 that a handler brings the run nearer to its gate.
-- Github          github/pr.py: the requests that publish a change, in their order. The transport
--                 of github/client.py is a parameter.
-- Worker          worker/main.py: a session sees what is stored and leaves what it committed.
--                 Served and Refines treat the worker as a client of Services, Interleaved puts
--                 its rounds between calls of the API.
-- Repair          agent/repair.py: Rounds has the loop, Evident puts it on the map of a
--                 repository; a round is one iteration, and the rounds recur on the number that is
--                 left.
-- Runs            services/run_manager.py.
-- Review          services/review_service.py. SHA-256 is a parameter, of which nothing is assumed.
-- Services        the calls above, and the four writes that agent/orchestrator.py makes itself, as
--                 a step relation, in any order and with any arguments.
-- Llm             llm/base.py: messages, calls, usage, extract_json and generate_structured. The
--                 provider is a parameter, and so is the validation against a schema. The attempts
--                 recur on the number that is left.
-- Tools           agent/tools/base.py: the registry and the execution of a call. What is outside
--                 of the process is a type World, which handlers and the provider are given and
--                 hand on.
-- Api             api/deps.py, api/routes/runs.py, api/routes/review.py: a handler as one
--                 transaction, with the errors of the services as HTTP errors; the event stream as
--                 rounds over the databases that they see.
-- Loop            agent/loop.py: run_tool_loop. It recurs on the number of steps that are left, as
--                 the range of the code does, so no fuel is needed.
-- Safety          agent/safety.py: paths, secret files, commands. Confined is about paths,
--                 Commands about commands. Path.resolve, which follows the links of the disk, is a
--                 parameter.
-- Disk            the files that the editing tools see: a function of resolved paths to entries. A
--                 file is its text before newlines are translated; it may be one that must not be
--                 written; full disks, and what may not be read or entered, are left out.
-- Editing         agent/tools/editing.py: the tools that write. Registered has their registration
--                 and what pydantic validates; what it says of arguments that it refuses is a
--                 parameter.
-- Reading         agent/tools/filesystem.py on the same disk: list_directory, read_file and
--                 search_code; Tree has repository_tree, Symbols find_symbol, Registered the
--                 registration. What pydantic validates is a parameter.
-- Registry        agent/runtime.py, build_registry: the reading and the editing tools together.
--                 What a provider acts on stands beside the disk in the World.
-- Exclusions      rag/exclusions.py: which files are indexed.
-- Tests           inputs and runs.
--
-- A time is a number of seconds and a key a number that no row has yet. Rows of one sort key are
-- taken in the order of insertion. Durations that are measured, log lines, and updated_at are left
-- out.
--
-- Not modelled: the chunking, indexing and search of repositories (the rest of rag), which stand
-- on a third-party parser, an external service and SQL over vectors of floats, the other builders
-- of agent/runtime.py, the start and the end of the worker's process, the processes of the
-- sandbox, the transport of GitHub, the providers, the other routes and the frontend.
mod Common
pub mod States
pub mod Schemas
pub mod Db
pub mod Events
pub mod Jobs
pub mod Diff
pub mod Risk
pub mod Runs
pub mod Review
pub mod Services
pub mod Llm
pub mod Tools
pub mod Loop
pub mod Api
pub mod Safety
pub mod Exclusions
pub mod Disk
pub mod Editing
pub mod Reading
pub mod RepoMap
pub mod Retrieval
pub mod Phases
pub mod Planner
pub mod Repair
pub mod Github
pub mod Orchestrator
pub mod Worker
pub mod Sandbox
pub mod Testing
mod Tests
pub mod Registry
