-- ===== src/Scheduler/Duty.antt =====
-- A due assignment is told of: from the sweep through the queue to the message.
use egeism.Base.{ℕ, ◌≡◌, List, ◌∷◌, ◌++◌}
use egeism.Base.Text.{Text}
use egeism.Scheduler.Handlers.{Assignment, World, Message, notify_text, notify_rows}

-- The message about an assignment.
abbrev pub message_of : World → Assignment → ℕ → Text → Message
message_of w a chat title = record {
  chat = chat;
  body = notify_text w a title;
  rows = notify_rows w a;
}

-- A list that holds this element.
abbrev pub Contains : Message → List Message → Type 0
Contains m ms = (first : List Message) × (last : List Message) × (ms ≡ first ++ m ∷ last)
