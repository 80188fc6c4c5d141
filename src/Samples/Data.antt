-- ===== src/Samples/Data.antt =====
-- The data of the samples: a small standard library, sources and tasks, and the tables.
use egeism.Base.{
  ℕ, ◌+◌, ◌*◌, ◌-◌, ◌==◌, leb, Bool, true, false, ◌&&◌, ◌||◌, Option, none, some, [], ◌∷◌,
  if◌then◌else◌,
}
use egeism.Base.Int.{pos}
use egeism.Base.Text.{Text, codes, text_eq}
use egeism.Domain.Answer.{AnswerSchema, AnswerType, number, written, unset, Rat, finite}
use egeism.Domain.Source.{ParseUrl, Time, Source}
use egeism.Domain.Learning.{math, auto, manual, RecentNumber}
use egeism.Domain.Entities.{Task, active, student, scheduled}
use egeism.Checker.Normalize.{Std}
use egeism.Attempts.Tables.{Attempt, Test, Assignment, Answer, Db, Photo, pending}
use egeism.Attempts.Submit.{Env}
use egeism.Attempts.Review.{AnswerGrade}
use egeism.Solve.Handlers.{User}
use egeism.Variants.Assemble.{Draw}
use egeism.Bank.Queue.{Job, fetch, running}
use egeism.Ingest.Runner.{World, RawTask}

abbrev in_range : ℕ → ℕ → ℕ → Bool
in_range low high r = leb low r && leb r high

-- A decimal natural number.
abbrev digits_from : ℕ → Text → Option Rat
digits_from n [] = some (record { num = pos n; den = 1 })
digits_from n (r ∷ rs) = if in_range 48 57 r then digits_from (n * 10 + (r - 48)) rs else none

abbrev read_rat : Text → Option Rat
read_rat [] = none
read_rat s = digits_from 0 s

abbrev pub lower_rune : ℕ → ℕ
lower_rune r =
    if r == 0x401
    then 0x451
    else (if r == 0x415 then 0x435 else (if in_range 65 90 r then r + 32 else r))

abbrev pub std : Std
std = record {
  is_letter = λ r. in_range 65 90 r || (in_range 97 122 r || in_range 0x400 0x45f r);
  is_digit = λ r. in_range 48 57 r;
  lower = lower_rune;
  set_string = read_rat;
}

abbrev pub schema : AnswerType → Text → AnswerSchema
schema t c = record {
  type = t;
  correct = c ∷ [];
  tolerance = finite (record { num = pos 0; den = 1 });
  ci = true;
  yo_fold = true;
  token = unset;
}

abbrev pub link : Text
link = codes "https://fipi.ru/ege"

abbrev pub parse_url : ParseUrl
parse_url raw =
    if text_eq raw link
    then some
        (record { scheme = codes "https"; has_user = false; port = []; hostname = codes "fipi.ru" })
    else none

abbrev pub noon : ℕ → ℕ → ℕ → Time
noon y m d = record { year = y; month = m; day = d; nanos = 43200000000000 }

abbrev pub today : Time
today = noon 2025 6 1

abbrev pub published : Time → Source
published t = record {
  provider = codes "fipi";
  extern_id = codes "42";
  url = link;
  published_at = some t;
  verified_at = some t;
  date_evidence_url = link;
  date_evidence = codes "demo 2025";
}

abbrev pub fresh : Source
fresh = published (noon 2025 3 1)

abbrev pub short_task : Task
short_task = record {
  part = 1;
  grading_mode = auto;
  max_points = 1;
  id = 10;
  subject_id = 1;
  number = 1;
  statement = codes "2 + 3";
  media_count = 0;
  answer_schema = schema number (codes "5");
  source = some fresh;
  status = active;
}

abbrev pub written_task : Task
written_task = record short_task {
  part = 2;
  grading_mode = manual;
  max_points = 2;
  id = 11;
  number = 13;
  answer_schema = schema written [];
}

abbrev pub test : Test
test = record { id = 2; subject_id = 1; title = codes "Test"; created_by = 7; variant_of = none }

abbrev pub attempt : Attempt
attempt = record { id = 3; assignment_id = some 4; test_id = 2; student_id = 5; finished_at = none }

abbrev pub assignment : Assignment
assignment = record {
  id = 4;
  test_id = 2;
  student_id = 5;
  assigned_by = 7;
  require_solution = false;
  status = scheduled;
}

abbrev pub db : Db
db = record {
  attempts = attempt ∷ [];
  tests = test ∷ [];
  tasks = short_task ∷ written_task ∷ [];
  items =
      record { test_id = 2; task_id = 10; position = 1 }
      ∷ record { test_id = 2; task_id = 11; position = 2 }
      ∷ [];
  assignments = assignment ∷ [];
  answers = [];
  photos = [];
  notifications = [];
  next_id = 20;
}

abbrev pub env : Env
env = record { std = std; parse_url = parse_url; now = today; stamp = 100 }

abbrev pub pupil : User
pupil = record { id = 5; role = student; subject = none }

abbrev pub photo : Photo
photo = record {
  id = 0;
  attempt_id = 3;
  task_id = 11;
  object_key = [];
  content_type = [];
  size_bytes = 1;
}

-- A written answer of the attempt once it is finished, and its review.
abbrev pub finished_attempt : Attempt
finished_attempt = record attempt { finished_at = some 90 }

abbrev pub essay : Answer
essay = record {
  id = 15;
  attempt_id = 3;
  task_id = 11;
  raw_answer = codes "x = 1";
  is_correct = false;
  time_spent_ms = pos 0;
  review_status = pending;
  points = none;
  max_points = 2;
  teacher_comment = [];
  reviewed_by = none;
}

abbrev pub closed_db : Db
closed_db = record db { attempts = finished_attempt ∷ []; answers = essay ∷ [] }

abbrev pub grade : AnswerGrade
grade = record { answer_id = 15; points = some (pos 2); comment = [] }

abbrev pub draw : Draw
draw = record { parse_url = parse_url; now = today; shuffle = λ ts. ts }

abbrev pub job : Job
job = record {
  id = 1;
  subject = math;
  number = 0;
  limit = 80;
  active = true;
  kind = fetch;
  state = running;
  created_at = 1000;
  started_at = some 1001;
  finished_at = none;
  lease_until = some 1361;
  result = none;
  error = [];
  attempts = 1;
}

abbrev pub world : World
world = record {
  parse_url = parse_url;
  now = today;
  subject_id = λ code. some 1;
  subject_code = λ k. some math;
  extern_id = λ raw. codes "hash";
  resolve_media = λ ms. 0;
}

abbrev pub raw_task : RawTask
raw_task = record {
  subject = some math;
  number = 1;
  statement = codes "1 + 1";
  media = [];
  answer_schema = schema number (codes "2");
  source = record fresh { extern_id = codes "43" };
}

-- Numbers 1 to 3 with five answers each, all right.
abbrev pub performance : ℕ → RecentNumber
performance n = record { number = n; total = 5; correct = 5 }
