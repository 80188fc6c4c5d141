-- ===== src/Domain/Entities.antt =====
-- internal/domain/entities.go: tasks, and the enumerations that the other parts share. Media, the
-- creation time and the freshness shown to the client are left out. Ids are numbers, 0 for uuid.Nil.
use egeism.Base.{ℕ, Bool, true, false, not, ◌==◌, ◌||◌, Option, if◌then◌else◌}
use egeism.Base.Text.{Text}
use egeism.Domain.Answer.{AnswerSchema, AnswerType, number, string, set, sequence}
use egeism.Domain.Learning.{GradingMode, auto, manual}
use egeism.Domain.Source.{Source}

pub data TaskStatus : Type 0 where
  draft active rejected : TaskStatus

pub data Role : Type 0 where
  student teacher admin : Role

pub data AssignmentStatus : Type 0 where
  scheduled done missed : AssignmentStatus

-- `media_count` is the length of the list of media references.
pub record Task : Type 0 where
  pub part : ℕ
  pub grading_mode : GradingMode
  pub max_points : ℕ
  pub id : ℕ
  pub subject_id : ℕ
  pub number : ℕ
  pub statement : Text
  pub media_count : ℕ
  pub answer_schema : AnswerSchema
  pub source : Option Source
  pub status : TaskStatus

abbrev pub is_manual : GradingMode → Bool
is_manual manual = true
is_manual auto = false

abbrev pub is_active : TaskStatus → Bool
is_active active = true
is_active _ = false

abbrev is_short : AnswerType → Bool
is_short number = true
is_short string = true
is_short set = true
is_short sequence = true
is_short _ = false

unfoldable pub bot_solvable : Task → Bool
bot_solvable t =
    if is_manual t.grading_mode || not (t.media_count == 0)
    then false
    else is_short t.answer_schema.type
