-- ===== src/Lib.antt =====
-- A Russian exam trainer: its answer checker, its bank of tasks, and the attempts of its students.
--
-- internal/domain holds the rules: which answer schema a task has, which source is trusted and how
-- long it stays current, how a task number is graded, and how far a student's training is open.
-- internal/checker decides whether an answer is right. internal/store keeps tasks, tests, attempts,
-- answers and photos in a database; its operations call the rules and the checker inside
-- transactions. internal/api guards these operations by the user's role, plans practice sessions
-- and queues updates of the bank, which internal/ingest then writes; it also keeps the accounts, the
-- rosters of the teachers, and the links by which a password is reset or a Telegram account bound.
-- internal/scheduler tells students of their assignments, and internal/bot sends them the tasks.
--
-- The parts, and where they are modelled:
--   Base        numbers, texts as lists of code points, lists and keys; no code of its own
--   Domain      internal/domain: Answer (answer.go), Source (source.go), Learning (learning.go),
--               Entities (entities.go); Calendar, Ageing, Hosts and Training are about them
--   Checker     internal/checker: Normalize (normalize.go), Compare (checker.go); Spacing, Numbers,
--               Tokens, Sets, Folding, Strings and Acceptance are about them
--   Practice    internal/api/practice.go: Session; Planning and Pools are about it
--   Attempts    internal/store/repo_solutions.go: Tables (the rows and the queries), Submit
--               (SubmitAnswer), Finish (FinishSubmission), Photos (MutateSolutionPhoto), Review
--               (ReviewAttempt); Frozen, Elsewhere, History, Submitted, Points, Filling, Reviewing
--               and Reviewed are about them
--   Solve       internal/api/solve.go: Handlers; Access is about it
--   Bank        internal/store/repo_bank_sync.go and internal/api/bank_sync.go: Queue, Refill;
--               Limits, Reached and Stock are about them
--   Variants    internal/store/repo_tests.go: Assemble; Composed and Clones are about it
--   Ingest      internal/ingest/ingest.go and the operations of internal/store/repos.go that it
--               calls: Runner; Effects and Balance are about it
--   Accounts    internal/api/telegram_auth.go, admin_users.go, password_reset.go, classes.go and
--               students.go with their operations in internal/store: Tables (the rows), Credentials
--               (accounts and logins), Panel (the admin's edits), Resets, Linking, Rosters, and
--               Server (the requests one after another); Rows, Admins, Replies, Users, Running,
--               Membership, Rostered, Unrostered, Untouched, Enrolled, Recovery and SignIn are
--               about them
--   Scheduler   internal/scheduler/handler.go, enqueue.go and notifier.go: Handlers, Notifier;
--               Delivery, Sweeping, Working, Duty, Lifecycle and Degrading are about them
--   Messages    internal/bot/format.go and richhtml.go: Inline (escaping and formulas), Rows
--               (tables), Statement (segments and media); Escaping, Alignment and Segments are
--               about them
--   Assigning   handleCreateAssignment of internal/api/admin.go: Create; Enrolled is about it
--   Editing     the tests as a teacher edits them, of internal/api/admin.go and
--               internal/store/repo_tests.go: Tests; Found, Kept, Requests and Owners are about it
--   Samples     concrete data, runs of the code on it, and the theorems applied to it
--
-- A function keeps the name of the source in snake case: SubmitAnswer is submit_answer. A table is
-- the list of its rows, and an operation of the store takes the tables and gives new ones or an
-- error; a transaction that fails leaves them as they were. The queries of
-- internal/store/queries/*.sql are functions on the lists. Ids are numbers: the database's random
-- ids are taken from a counter. Text is a list of code points. Go's int and int64 values that are
-- compared with bounds are integers, and no operation on them comes near to overflow.
--
-- What is not under the repository is a parameter: the Unicode tables and the parser of rationals
-- (Std), bcrypt and the tokens of sessions (Library), encoding/json on a keyboard, what Telegram
-- accepts, net/url's Parse (ParseUrl), asynq's queue, the clock, the random order of the database
-- (Draw), the hash and the media store of an ingest run (World). A theorem that relies on one of
-- them says how.
--
-- Two loops run on fuel. training_ceiling opens three numbers in each round, so as many rounds as
-- there are numbers are enough. interleave_numbers makes one pass for each depth, and no pool is
-- longer than the list of tasks, so one pass more than there are tasks is enough.
--
-- Not modelled: failures of the database but the one of the mark that a message was sent, the JSON
-- and HTTP layers, the signatures of tokens, the statistics, the bank of tasks as a teacher edits
-- it, the dialogs of the bot, the PDF export, media storage and the web client. The concurrency of
-- the store is taken as its locks give it: one transaction after the other on the rows of an
-- attempt, and on the queue. Requests on accounts are taken one after another, though each may hold
-- the acting user as an earlier state of the tables had it.
pub mod Base
pub mod Domain
pub mod Checker
pub mod Practice
pub mod Accounts
pub mod Attempts
pub mod Solve
pub mod Bank
pub mod Variants
pub mod Ingest
pub mod Messages
pub mod Scheduler
pub mod Assigning
pub mod Editing
pub mod Samples
