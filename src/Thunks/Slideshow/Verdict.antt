-- ===== src/Thunks/Slideshow/Verdict.antt =====
-- What the board's answer to a command comes to: an independent reading of a reply.
use shareframe_board.Common.{Option, none, some, String, if◌then◌else◌}
use shareframe_board.Common.Text.{text_or}
use shareframe_board.Board.{Reply, failed, answered, malformed, json}
use shareframe_board.Thunk.{message_of}

-- `none` if the board accepts, and otherwise what went wrong.
abbrev pub verdict : {D : Type 0} → String → Reply D → Option String
verdict fallback (failed e) = some (message_of "Unbekannter Fehler" e)
verdict fallback (answered response) = elim response.body [
  | malformed e ↦ some (message_of "Unbekannter Fehler" e)
  | json payload ↦ if payload.success then none else some (text_or payload.message fallback)
]

-- One value if the board accepts, another that may tell why not.
abbrev pub on_verdict {ℓ} : {A : Type ℓ} → Option String → A → (String → A) → A
on_verdict none a f = a
on_verdict (some e) a f = f e
