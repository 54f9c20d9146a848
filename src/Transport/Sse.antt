-- ===== src/Transport/Sse.antt =====
-- internal/transport/sse.go and `readFinalResponse` of transport.go. The lines that bufio.Scanner
-- finds are a list, and its error, if it ends with one, is an argument.
pub mod Ends
use Prim.Native.Char.{code}
use Prim.Native.String.{◌++◌}
use stile.Prelude.{
  ℕ, zero, suc, String, Bool, true, false, not, ◌&&◌, Option, none, some, List, [], ◌∷◌, str_eq,
  ◌==◌, if◌then◌else◌,
}
use stile.Rpc.{Response}

pub record SseEvent : Type 0 where
  pub event : String
  pub payload : String

abbrev pub no_event : SseEvent
no_event = record { event = ""; payload = "" }

-- strings.CutPrefix
unfoldable pub cut_prefix : String → String → Option String
cut_prefix line String.[] = some line
cut_prefix String.[] (String.◌∷◌ p prefix) = none
cut_prefix (String.◌∷◌ c line) (String.◌∷◌ p prefix) =
    let rest = cut_prefix line prefix in if code c == code p then rest else none

unfoldable pub trim_one_leading_space : String → String
trim_one_leading_space String.[] = ""
trim_one_leading_space (String.◌∷◌ c s) = if code c == b' ' then s else String.◌∷◌ c s

append_data : String → String → String
append_data payload line = if str_eq payload "" then line else (payload ++ "\n") ++ line

data_field : SseEvent → Option String → Option SseEvent
unfolding append_data trim_one_leading_space
data_field ev none = none
data_field ev (some after) =
    some (record ev { payload = append_data ev.payload (trim_one_leading_space after) })

event_field : SseEvent → String → Option String → Option SseEvent
unfolding data_field cut_prefix trim_one_leading_space
event_field ev line none = data_field ev (cut_prefix line "data:")
event_field ev line (some after) = some (record ev { event = trim_one_leading_space after })

-- the event after a line that is not blank, or none where the line is ignored
unfoldable pub with_line : SseEvent → String → Option SseEvent
unfolding event_field cut_prefix
with_line ev line = event_field ev line (cut_prefix line "event:")

-- an event, io.EOF, or the error of the scanner
pub data Next : Type 0 where
  event : SseEvent → Next
  eof : Next
  broken : String → Next

at_end : Option String → SseEvent → Bool → Next
at_end (some err) ev has_fields = broken err
at_end none ev true = event ev
at_end none ev false = eof

-- The loop of Next over the lines left, with those that it leaves.
unfoldable pub next : Option String → SseEvent → Bool → List String → Next × List String
unfolding at_end
next err ev has_fields [] = (at_end err ev has_fields, [])
next err ev has_fields (line ∷ lines) = elim (str_eq line "") [
  | true ↦ elim has_fields [ true ↦ (event ev, lines) | false ↦ next err ev false lines ]
  | false ↦ elim (with_line ev line) [
    | none ↦ next err ev has_fields lines
    | some ev' ↦ next err ev' true lines
  ]
]

-- What readFinalResponse returns; `out_of_rounds` is no result of the program.
pub data Final : Type 0 where
  final : Response → Final
  read_error : String → Final
  no_response : Final
  out_of_rounds : Final

-- the last response, by an event of type message that decodes
unfoldable pub last_response :
    (String → Option Response) → Option Response → SseEvent → Option Response
last_response decode last ev =
    if not (str_eq ev.event "message") && not (str_eq ev.event "")
    then last
    else elim (decode ev.payload) [ none ↦ last | some resp ↦ some resp ]

unfoldable pub final_of : Option Response → Final
final_of none = no_response
final_of (some resp) = final resp

-- One round, whose next round is `again`.
after_next :
    (String → Option Response)
    → (Option Response → List String → Final)
    → Option Response
    → Next
    → List String
    → Final
unfolding last_response final_of
after_next decode again last (broken why) rest = read_error why
after_next decode again last eof rest = final_of last
after_next decode again last (event ev) rest = again (last_response decode last ev) rest

-- The loop, with the rounds that are left.
unfoldable pub read_final_response :
    (String → Option Response) → Option String → ℕ → Option Response → List String → Final
unfolding after_next
read_final_response decode err zero last lines = out_of_rounds
read_final_response decode err (suc rounds) last lines =
    let (found, rest) = next err no_event false lines in
    after_next decode (read_final_response decode err rounds) last found rest
