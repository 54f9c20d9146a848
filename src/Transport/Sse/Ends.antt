-- ===== src/Transport/Sse/Ends.antt =====
-- The reading of a stream ends, and with which result.
use stile.Prelude.{
  ℕ, ◌≤◌, ◌<◌, ◌≡◌, String, Bool, true, false, Option, none, some, List, [], ◌∷◌, length, str_eq,
  if◌then◌else◌,
}
use stile.Rpc.{Response}
use stile.Transport.Sse.{
  SseEvent, no_event, with_line, Next, event, eof, broken, Final, read_error, last_response,
  final_of,
}

-- All events of a stream, in one pass over its lines.
unfoldable pub events : SseEvent → Bool → List String → List SseEvent
events ev has_fields [] = if has_fields then ev ∷ [] else []
events ev has_fields (line ∷ lines) = elim (str_eq line "") [
  | true ↦ elim has_fields [
    | true ↦ ev ∷ events no_event false lines
    | false ↦ events ev false lines
  ]
  | false ↦ elim (with_line ev line) [
    | none ↦ events ev has_fields lines
    | some ev' ↦ events ev' true lines
  ]
]

unfoldable pub last_of :
    (String → Option Response) → Option Response → List SseEvent → Option Response
last_of decode last [] = last
last_of decode last (ev ∷ evs) = last_of decode (last_response decode last ev) evs

-- the error of the scanner, or the last response among the events
unfoldable pub outcome :
    (String → Option Response) → Option String → Option Response → List SseEvent → Final
unfolding last_of final_of
outcome decode (some why) last evs = read_error why
outcome decode none last evs = final_of (last_of decode last evs)

-- What a call of Next gives, of `n` lines whose events are `evs`.
abbrev Describes : Option String → ℕ → Bool → List SseEvent → Next → List String → Type 0
Describes err n has_fields evs (event ev) rest =
    (evs ≡ ev ∷ events no_event false rest)
    × (length rest ≤ n)
    × (has_fields ≡ false → length rest < n)
Describes err n has_fields evs eof rest = (evs ≡ []) × (err ≡ none)
Describes err n has_fields evs (broken why) rest = err ≡ some why

abbrev DescribesPair : Option String → ℕ → Bool → List SseEvent → Next × List String → Type 0
DescribesPair err n h evs p = Describes err n h evs p.0 p.1
