-- ===== src/Samples/Telling.antt =====
-- A statement as the bot sends it, and the worker that tells of an assignment.
use egeism.Base.{
  ℕ, ◌+◌, ◌≤◌, ◌≡◌, refl, ◌||◌, Bool, true, false, none, some, List, [], ◌∷◌, All, mem, occurrences,
  if◌then◌else◌,
}
use egeism.Base.Text.{Text, codes, text_eq}
use egeism.Domain.Entities.{scheduled, done}
use egeism.Messages.Inline.{MediaRef, escape_html}
use egeism.Messages.Escaping.{read_html, escape_html-roundtrip}
use egeism.Messages.Rows.{widths_from, most_cells}
use egeism.Messages.Alignment.{IsAligned, widths_from-IsAligned}
use egeism.Messages.Statement.{segments, concat_map}
use egeism.Messages.Segments.{lines_of, is_uniform, segments-lines}
use egeism.Scheduler.Notifier.{Button, markup_json, callback_only, send_html}
use egeism.Scheduler.Degrading.{send_html-forms}
use egeism.Scheduler.Handlers.{
  Enqueued, queued, id_conflict, Assignment, World, handle_notify_assignment, mark_notified,
  sweep_overdue,
}
use egeism.Scheduler.Delivery.{notify, sweep, Run, stop, next, told_once}
use egeism.Scheduler.Lifecycle.{done_at, done_is_final}

-- A header, the separator, and a wider row.
abbrev parsed : List (List Text)
parsed =
    (codes "x" ∷ codes "f(x)" ∷ [])
    ∷ (codes "---" ∷ codes "---" ∷ [])
    ∷ (codes "10" ∷ codes "1" ∷ [])
    ∷ []

abbrev lines : List Text
lines = codes "Find x." ∷ codes "| x | y |" ∷ codes "| 1 | 2 |" ∷ [] ∷ codes "Round it." ∷ []

abbrev formula : MediaRef
formula = record { key = codes "f"; kind = codes "image"; alt = codes "x+1"; inline = true }

abbrev media : List MediaRef
media =
    formula
    ∷ record formula { inline = false }
    ∷ record formula { kind = codes "file" }
    ∷ record formula { key = codes "http://localhost/a.png"; inline = false }
    ∷ []

abbrev here_button : Button
here_button = record { text = codes "Here"; url = []; callback_data = codes "assign:4" }

abbrev site_button : Button
site_button = record { text = codes "Site"; url = codes "http://localhost"; callback_data = [] }

abbrev buttons : List (List Button)
buttons = (here_button ∷ []) ∷ (site_button ∷ []) ∷ []

-- One rune for each row; two rows are refused.
abbrev render : List (List Button) → Text
render [] = []
render (r ∷ rs) = 82 ∷ render rs

abbrev post : Text → Bool
post m = text_eq m (codes "R")

abbrev school : World
school = record {
  telegram_id = λ k. some (some 77);
  test_title = λ k. some (codes "Test");
  subject_title = λ k. [];
  task_count = λ k. 3;
  web_url = [];
  id_text = λ k. k ∷ [];
  show = λ t. t ∷ [];
  digits = λ n. n ∷ [];
  escape = escape_html;
}

abbrev homework : Assignment
homework = record {
  id = 4;
  test_id = 2;
  student_id = 3;
  scheduled_at = 90;
  notified_at = none;
  status = scheduled;
  due_at = some 400;
}

abbrev rows : List Assignment
rows = homework ∷ []

abbrev marked : List Assignment
marked = record homework { notified_at = some 100 } ∷ []

-- The mark fails once, so the student is told twice.
told-Run : Run school rows (4 ∷ 4 ∷ []) (4 ∷ []) marked
unfolding handle_notify_assignment mark_notified
told-Run = next (notify (λ m. true) false 90 4 rows) (
    next (notify (λ m. true) true 100 4 rows)
      (next (notify (λ m. true) true 110 4 marked) (stop marked)))

-- A queue that keeps the ids it has, and refuses one that is there.
abbrev hold : List ℕ → ℕ → Enqueued
hold queue k = if mem k queue then id_conflict else queued (k ∷ queue)

abbrev finished : List Assignment
finished = record homework { status = done } ∷ []

swept-Run : Run school finished [] [] finished
unfolding sweep_overdue
swept-Run = next (sweep 500 finished) (stop finished)

escape_html-roundtrip_example :
    read_html none (escape_html (codes "a<b & c>d")) ≡ some (codes "a<b & c>d")
escape_html-roundtrip_example = escape_html-roundtrip (codes "a<b & c>d")

widths_from-IsAligned_example :
    IsAligned (some 1) (widths_from (some 1) parsed 0 (most_cells parsed)) 0 parsed
widths_from-IsAligned_example = widths_from-IsAligned (some 1) parsed

segments-lines_example :
    (concat_map lines_of (segments lines) ≡ lines) × All (λ s. is_uniform s ≡ true) (segments lines)
segments-lines_example = segments-lines lines

send_html-forms_example : send_html render post buttons ≡ (
    post (markup_json render buttons)
    || (post (markup_json render (callback_only buttons)) || post []))
send_html-forms_example = send_html-forms render post buttons

told_once_example : occurrences 4 (4 ∷ 4 ∷ []) ≤ 1 + occurrences 4 (4 ∷ [])
told_once_example = told_once school 4 rows marked (4 ∷ 4 ∷ []) (4 ∷ []) told-Run

done_is_final_example : done_at 4 finished ≡ true
done_is_final_example = done_is_final school 4 finished finished [] [] swept-Run refl
