-- ===== src/Scheduler/Notifier.antt =====
-- internal/scheduler/notifier.go: a message with buttons, sent in up to three forms. `render` stands
-- for encoding/json on the keyboard, and `post` for the request to Telegram: whether it is accepted
-- with this keyboard, the empty text for none.
use egeism.Base.{Bool, true, false, not, ◌&&◌, ◌||◌, List, [], ◌∷◌, any, if◌then◌else◌}
use egeism.Base.Text.{Text, text_eq}

pub record Button : Type 0 where
  pub text : Text
  pub url : Text
  pub callback_data : Text

abbrev pub is_empty : Text → Bool
is_empty [] = true
is_empty (c ∷ s) = false

-- The buttons of a row with the property, the row left out when it has none.
unfoldable pub keep_buttons : (Button → Bool) → List Button → List Button
keep_buttons p [] = []
keep_buttons p (b ∷ bs) = if p b then b ∷ keep_buttons p bs else keep_buttons p bs

abbrev pub add_row : List Button → List (List Button) → List (List Button)
add_row [] rows = rows
add_row (b ∷ bs) rows = (b ∷ bs) ∷ rows

unfoldable pub keep_rows : (Button → Bool) → List (List Button) → List (List Button)
keep_rows p [] = []
keep_rows p (r ∷ rs) = add_row (keep_buttons p r) (keep_rows p rs)

abbrev pub has_data : Button → Bool
has_data b = not (is_empty b.callback_data)

unfoldable pub callback_only : List (List Button) → List (List Button)
callback_only rows = keep_rows has_data rows

-- A button with a text, and an address or data.
abbrev pub is_usable : Button → Bool
is_usable b = not (is_empty b.text || (is_empty b.url && is_empty b.callback_data))

abbrev pub rendered : (List (List Button) → Text) → List (List Button) → Text
rendered render [] = []
rendered render (r ∷ rs) = render (r ∷ rs)

unfoldable pub markup_json : (List (List Button) → Text) → List (List Button) → Text
markup_json render rows = rendered render (keep_rows is_usable rows)

-- The forms, one after another, until one is accepted; a form that was tried is passed over.
unfoldable pub try_forms : (Text → Bool) → List Text → List Text → Bool
try_forms post seen [] = false
try_forms post seen (m ∷ ms) =
    let skipped = try_forms post seen ms in
    let next = try_forms post (m ∷ seen) ms in
    if any (text_eq m) seen then skipped else (if post m then true else next)

-- Is the message sent?
unfoldable pub send_html : (List (List Button) → Text) → (Text → Bool) → List (List Button) → Bool
send_html render post rows =
    try_forms post [] (markup_json render rows ∷ markup_json render (callback_only rows) ∷ [] ∷ [])
