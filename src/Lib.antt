-- ===== src/Lib.antt =====
-- A pull-request review service: a review is run by several agents under a state machine, their
-- findings are consolidated, scored and ranked against an attention budget, stored, and published
-- once as a GitHub review; a later push re-plans what must be reviewed again. All of the code is
-- under backend/app.
--
-- Adaptive models adaptive/: Weights is weights.py (`ArumWeights.with_overrides`, `load_weights`),
-- Features is features.py (`extract_features` and its terms), Scoring is scoring.py (`utility`,
-- `rank_decisions`), Selection is selection.py (`select_decisions`, `_gate_reason`, `_annotate`),
-- Rag is rag.py (`top_k_similar`, `max_relevance`), Memory is decay.py and memory.py
-- (`aggregate_category_shares`), Feedback is the outcomes of feedback.py, and Learning is
-- learning.py with the matrix of training.py (`feedback_labels`, `labelled_matrix`). Agents holds
-- the data of agents/contract.py, its `parse_batch` (Parse; `json.loads` and the pydantic validation
-- are parameters), agents/diff_utils.py (Diff is `parse_patch`, Diff/Slices is
-- `changed_file_slices`), the registry of agents/prompts.py and the queues of agents/registry.py.
-- Consolidation models consolidation/: Datatypes its rows, Consolidate consolidate.py
-- (`normalise_findings`, `consolidate_review`), Similarity similarity.py and Redundancy
-- redundancy.py (`apply_groups`). Store models `MemoryOrchestratorStore` of
-- orchestrator/persistence.py: Reviews the life cycle and the claims, Queue the scan for pending
-- publications, Findings the rows of findings and iterations, Payload what the publisher reads,
-- Memory the tasks, embeddings, memories, standards, settings and feedback. Publisher models
-- publisher/service.py (`publish_review` and `_post_body_only`; Requests holds what passes between
-- it and GitHub, Render its texts). Webhooks models webhooks/ratelimit.py.
--
-- Orchestrator models orchestrator/: Graph is graph.py with state.py and plan.py (each node is a
-- function of the state, `review_graph` is the compiled graph), Iteration is iteration.py
-- (`plan_review_delta`, its two loops and its region test), and Service is service.py, which brings
-- the parts together: Running is `run_review`, its courses and `_fail_early`, Persist is `_persist`,
-- Consolidating is `_consolidate_findings`, Decide is `_decide_findings` with what it reads from the
-- repository, Score is the scoring of the candidates; Messages holds the texts that it writes. A run
-- takes a `Context` (the settings and what is outside of the code) and a `Store`, and returns an
-- outcome and the next store. Trail, Traced, Blind and Total hold the lemmas on its steps, Path and
-- Schedule those on whole runs. Examples runs the theorems on concrete inputs.
--
-- State is passed on explicitly: `State` in Graph, `Store` in Store and Orchestrator, `World` in
-- Publisher. A Python float is an element of a type with the operations of `Float` (Prelude/Float);
-- its laws are hypotheses where a theorem needs them, and whole millionths (`Micros`) meet them.
-- Python's int is ℤ, or ℕ where it counts. Times are microseconds. What the code cannot control is a
-- parameter: the runner of an agent may answer by the calls made before, the GitHub client by the
-- requests, the embeddings provider by its calls; square roots, exponentials and hashes are
-- functions. An exception is a value of `Fallible` (Prelude/Fallible), and a call that changes the
-- store keeps the changes that it made before it raised.
--
-- `run_graph` counts the nodes that LangGraph lets it take, and raises as LangGraph does where its
-- recursion limit, a parameter, is reached; the plan, two nodes for each pass and the last fan-out
-- and terminal fit where the limit is twice the retry limit and three. One definition runs on fuel:
-- `show` (Prelude/Decimal), Python's `str` of a number, takes the number and one, which is more than
-- it has digits.
--
-- Not modelled: the SQL store (the in-memory one states the same protocol), Celery and HTTP wiring,
-- LLM providers, the run of an agent, the trainers, audit and the dashboard's read models, the
-- queue, the rest of webhooks, security, experiments, the frontend, and the prose of prompts. Log
-- lines and durations are left out, and so is JSON that no code here reads.
pub mod Prelude
pub mod Consolidation
pub mod Agents
pub mod Orchestrator
pub mod Adaptive
pub mod Store
pub mod Webhooks
pub mod Publisher
pub mod Examples
