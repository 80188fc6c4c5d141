-- ===== src/Scheduler/Degrading.antt =====
-- A message is not lost to its buttons.
use egeism.Base.{
  ◌≡◌, refl, ◌∙◌, Bool, true, false, ◌||◌, List, [], ◌∷◌, any, All, Bool-cases, inl, inr, arith,
}
use egeism.Base.Text.{Text, text_eq, text_eq_sound}
use egeism.Scheduler.Notifier.{Button, callback_only, markup_json, try_forms, send_html}

-- What was tried was refused.
refused_seen :
    (post : Text → Bool) (m : Text) (seen : List Text)
    → any post seen ≡ false
    → any (text_eq m) seen ≡ true
    → post m ≡ false
refused_seen post m [] h e = cc
refused_seen post m (s ∷ seen) h e = elim (Bool-cases (text_eq m s)) [
  | inl f ↦ let same = text_eq_sound m s f in rw same (ground arith)
  | inr f ↦ refused_seen post m seen (ground arith) (ground arith)
]

try_forms-any :
    (post : Text → Bool) (seen ms : List Text)
    → any post seen ≡ false
    → try_forms post seen ms ≡ any post ms
unfolding try_forms
try_forms-any post seen [] h = refl
try_forms-any post seen (m ∷ ms) h = elim (Bool-cases (any (text_eq m) seen)) [
  | inl e ↦
      let no = refused_seen post m seen h e in
      let rest = try_forms-any post seen ms h in rw (e, no, All) rest
  | inr e ↦ elim (Bool-cases (post m)) [
    | inl f ↦ rw (e, f, All) refl
    | inr f ↦ let rest = try_forms-any post (m ∷ seen) ms (ground arith) in rw (e, f, All) rest
  ]
]

-- A message is sent if Telegram accepts it with all its buttons, or with those that the bot answers
-- only, or without any, and in no other case.
pub send_html-forms :
    (render : List (List Button) → Text) (post : Text → Bool) (rows : List (List Button))
    → send_html render post rows ≡ (
        post (markup_json render rows)
        || (post (markup_json render (callback_only rows)) || post []))
unfolding send_html
send_html-forms render post rows =
    let forms = markup_json render rows ∷ markup_json render (callback_only rows) ∷ [] ∷ [] in
    try_forms-any post [] forms refl ∙ ground arith
