-- ===== src/Lib.antt =====
-- CPA First, the backend of a study service for the accountants' exam: accounts and sessions, the plan of
-- the weeks up to the exam, the order in which to learn prerequisite terms, the diagnosis of attempts, the
-- problems to solve and their risks, the search of reference texts, the solvers of exam questions, and the
-- generation, the checking and the showing of questions and explanations.
--
-- The parts, and the code they are about:
--   Auth          accounts and sessions. `Auth/Model` has the rows (cpa_first/db/models.py: User,
--                 RefreshToken), the settings (cpa_first/config.py) and a request's session with its
--                 commit and rollback (cpa_first/db/session.py: get_db). `Auth/Repo` has the queries
--                 of cpa_first/db/repositories.py under their names, `Auth/Tokens` cpa_first/auth/tokens.py
--                 and passwords.py, `Auth/Router` the endpoints of cpa_first/auth/router.py, and
--                 `Auth/Guard` cpa_first/auth/dependencies.py. `Auth/History` has sequences of requests.
--   Api           endpoints of cpa_first/api/main.py: practice questions by pages, attempts and what they
--                 open, mistake logs, reviews, evidence, terms and tutorials, and the diagnosis of a user with the prescription shown.
--   Records       the user states, prescriptions, mistake logs, attempts and review overrides of
--                 cpa_first/db/repositories.py, each query on the list of its table's rows.
--   StudyPlan     cpa_first/engine/study_plan.py: the stages, the weeks and their distribution over the
--                 stages, what each week studies, and the verdict on the hours.
--   LearningPath  cpa_first/engine/learning_path.py: the matching of weak concepts with terms, the
--                 search through their prerequisites, and the resources of a term.
--   Diagnosis     cpa_first/engine/problem_diagnosis.py: diagnose_problem_attempt.
--   Aggregate     cpa_first/engine/aggregate.py: the state of a user that logs say.
--   Recommend     cpa_first/engine/recommend.py: the scores of problems, those to solve and to skip, and the turns of
--                 the subjects for a user without any.
--   Prescribe     cpa_first/engine/prescribe.py: the rules that match a user, the risk score and the prescription, with the
--                 registry cpa_first/subjects.py.
--   Rag           cpa_first/rag/term_index.py and search.py: the terms of a query, scores and ranking.
--   Solver        cpa_first/solver: the modes of solver.py and the attempts of a request, the vote of ensemble.py, the
--                 routes of routing.py, and of reasoned.py the choice of a rule, the known solutions, the closest
--                 choice and the corporate tax.
--   Tools         cpa_first/solver/tools.py.
--   Explain       cpa_first/explain_gen, cpa_first/real_exams.py and the extraction of JSON: blind solving, judging, the batches
--                 with their checkpoints, and the entry that is shown.
--   EvalGen       cpa_first/eval_gen: the guard of the key, a batch and its validation.
--   Benchmark     cpa_first/benchmark: the grading and the report.
--   Prelude       what the parts share: tests on numbers and texts, list lemmas, Python's sorted.
--
-- An endpoint of Auth is an action on a session: it reads the rows, changes those of its transaction, and may raise;
-- `run` starts it at the rows stored and gives its result, the rows it committed and its cookie, of which none is
-- sent where it raised, since the handler of exceptions answers with a new response. Endpoints draw times
-- and random values from `Draws`, one for each request. The endpoints of Api take the user that `get_current_user` of
-- Auth gives and use the queries of Records and the diagnosis of Diagnosis on a `Store` of rows; `Api/Study` takes the
-- making of a prescription and of a state from logs as arguments. Aggregate shares the stages of StudyPlan and the
-- registry of Prescribe. Solver takes its context from Rag. EvalGen and Benchmark read the dicts and the
-- answers of Explain. The rules of cpa_first/solver/reasoned.py are an argument of `solve_reasoned`, any list of
-- functions of the question.
--
-- What the code calls and does not implement is a parameter. For Auth it is the record `Library` of Auth/Library.antt:
-- argon2, PyJWT, hashlib, uuid and the text methods strip and lower. Its laws are that argon2 verifies the
-- password it hashed, that PyJWT reads a token back between its issue and its expiry, and that a uuid's text
-- parses to it. `Auth/Sample` has an instance. Language models are functions of the attempt or the prompt that may give
-- no answer; regular expressions, formats and other text methods are the fields of `TextTests` and `Texts` or arguments; the
-- arithmetic of floats in Tools is a record of operations without any law.
--
-- Numbers: a uuid is a number, a time is in microseconds, days and weeks are natural numbers, so the days
-- until the exam are at least 0. The weights of the stages are whole in the source; the quotients by their sum are
-- compared exactly, by remainders, where the source uses floats. Planned hours are whole. Accuracies, rates,
-- mastery and scores of a search are in ten-thousandths, the precision to which the source rounds them.
--
-- Fuel: `_trace_prerequisites` loops while its queue is not empty; each term and each root enters it at
-- most once, so the number of roots and terms is enough. A client that follows the cursors of GET /practice needs at most
-- as many pages as there are questions, and one more. Each turn of Recommend gives an entry, so one turn more than the
-- entries asked for is enough. All other loops are recursions on a list or on a number.
--
-- Not modelled: the validation of a registration's fields (a regular expression), rate limits, cookies' names, the
-- hours of the subjects in a plan (floats that are rounded and corrected), texts for the reader, the variants of a
-- concept's label, the rules of reasoned.py that read a question's text by regular expressions, the clients of
-- language models, the command line and the scripts, which read files and call services.
pub mod Prelude
pub mod Auth
pub mod StudyPlan
pub mod LearningPath
pub mod Solver
pub mod Records
pub mod Diagnosis
pub mod Aggregate
pub mod Recommend
pub mod Prescribe
pub mod Explain
pub mod Api
pub mod Tools
pub mod Benchmark
pub mod EvalGen
pub mod Rag
