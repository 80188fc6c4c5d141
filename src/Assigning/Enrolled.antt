-- ===== src/Assigning/Enrolled.antt =====
-- Who may be given a test.
use egeism.Base.{◌≡◌, true}
use egeism.Attempts.Tables.{Db}
use egeism.Accounts.Tables.{Account, Db as Accounts, is_teacher_of}
use egeism.Assigning.Create.{Created}

-- The assignment is by the teacher, to a student who is enrolled with the teacher.
abbrev pub IsByTeacher : Accounts → Account → Created → Type 0
IsByTeacher acc teacher c =
    (c.assignment.assigned_by ≡ teacher.id)
    × (is_teacher_of acc teacher.id c.assignment.student_id ≡ true)
