-- ===== src/Api/Sse.antt =====
-- internal/api/sse.go: the parser of the event stream, on the bytes of the stream. bufio.Scanner is
-- that of Go: a line ends with a newline or with the stream, a carriage return before that is taken
-- off, and a line that does not fit into the buffer of 64 KiB ends the scan.
pub mod RoundTrip
mod Tests
use plexd.Base.{
  ℕ, zero, suc, ◌+◌, List, [], ◌∷◌, ◌++◌, Bool, true, false, eqb, leb, Option, none, some,
  if◌then◌else◌, length,
}
use plexd.Base.Int.{ℤ}
use plexd.Base.Words.{atoi}
use plexd.Api.Envelope.{Bytes, same_bytes}

abbrev pub max_scan_token_size : ℕ
max_scan_token_size = 65536

-- A carriage return at the end of a line.
unfoldable pub drop_cr : Bytes → Bytes
drop_cr [] = []
drop_cr (b ∷ []) = if eqb b b'\r' then [] else b ∷ []
drop_cr (b ∷ c ∷ cs) = b ∷ drop_cr (c ∷ cs)

-- The lines of a stream; `line` is what has been read of the first.
unfoldable pub scan : Bytes → Bytes → List Bytes
scan [] [] = []
scan (l ∷ ls) [] = drop_cr (l ∷ ls) ∷ []
scan line (b ∷ bs) = elim (leb max_scan_token_size (length line)) [
  | true ↦ []
  | false ↦ elim (eqb b b'\n') [
    | true ↦ drop_cr line ∷ scan [] bs
    | false ↦ scan (line ++ b ∷ []) bs
  ]
]

pub record SseEvent : Type 0 where
  pub type : Bytes
  pub content : Bytes
  pub id : Bytes

-- The parser: the lines that are left, and the last event id. The callback, if there is one, has been
-- called with the numbers of milliseconds in `retries`, the latest first.
pub record SseParser : Type 0 where
  pub lines : List Bytes
  pub last_event_id : Bytes
  pub has_callback : Bool
  pub retries : List ℤ

unfoldable pub new_sse_parser : Bytes → SseParser
new_sse_parser stream = record {
  lines = scan [] stream;
  last_event_id = [];
  has_callback = false;
  retries = [];
}

unfoldable pub set_retry_callback : SseParser → SseParser
set_retry_callback p = record p { has_callback = true }

-- The fields of an event that have been read. No data line and an empty one differ.
pub record Fields : Type 0 where
  pub event_type : Bytes
  pub parts : List Bytes
  pub event_id : Bytes

abbrev pub no_fields : Fields
no_fields = record { event_type = []; parts = []; event_id = [] }

-- `strings.Cut(line, ":")`
unfoldable pub cut : Bytes → Bytes × Bytes
cut [] = ([], [])
cut (b ∷ bs) = let (field, value) = cut bs in if eqb b b':' then ([], bs) else (b ∷ field, value)

-- `strings.TrimPrefix(value, " ")`
unfoldable pub trim_space : Bytes → Bytes
trim_space [] = []
trim_space (b ∷ bs) = if eqb b b' ' then bs else b ∷ bs

-- `strings.Join(data, "\n")`
unfoldable pub join : List Bytes → Bytes
join [] = []
join (p ∷ []) = p
join (p ∷ q ∷ ps) = p ++ (b'\n' ∷ join (q ∷ ps))

abbrev pub event_field : Bytes
event_field = b'e' ∷ b'v' ∷ b'e' ∷ b'n' ∷ b't' ∷ []

abbrev pub data_field : Bytes
data_field = b'd' ∷ b'a' ∷ b't' ∷ b'a' ∷ []

abbrev pub id_field : Bytes
id_field = b'i' ∷ b'd' ∷ []

abbrev pub retry_field : Bytes
retry_field = b'r' ∷ b'e' ∷ b't' ∷ b'r' ∷ b'y' ∷ []

abbrev pub message_type : Bytes
message_type = b'm' ∷ b'e' ∷ b's' ∷ b's' ∷ b'a' ∷ b'g' ∷ b'e' ∷ []

abbrev pub is_empty : Bytes → Bool
is_empty [] = true
is_empty (_ ∷ _) = false

-- What the switch makes of a field: the fields, and the milliseconds that a retry field gives.
unfoldable pub set_field : Bytes → Bytes → Fields → Fields × Option ℤ
set_field field value f =
    if same_bytes field event_field
    then (record f { event_type = value }, none)
    else if same_bytes field data_field
    then (record f { parts = f.parts ++ value ∷ [] }, none)
    else if same_bytes field id_field
    then (record f { event_id = value }, none)
    else if same_bytes field retry_field
    then (f, atoi value)
    else (f, none)

unfoldable pub field_line : Bytes → Fields → Fields × Option ℤ
field_line line f = let (field, value) = cut line in set_field field (trim_space value) f

-- The event that an empty line dispatches, if there is data.
unfoldable pub event_of : Fields → Option SseEvent
event_of f = elim f.parts [
  | [] ↦ none
  | p ∷ ps ↦ some (record {
    type = if is_empty f.event_type then message_type else f.event_type;
    content = join (p ∷ ps);
    id = f.event_id;
  })
]

abbrev pub is_comment : Bytes → Bool
is_comment [] = false
is_comment (b ∷ bs) = eqb b b':'

abbrev pub call_back : Option ℤ → SseParser → SseParser
call_back none p = p
call_back (some ms) p = if p.has_callback then record p { retries = ms ∷ p.retries } else p

abbrev pub keep_id : SseEvent → SseParser → SseParser
keep_id e p = if is_empty e.id then p else record p { last_event_id = e.id }

-- `Next`, over the lines that are left.
unfoldable pub next_from : List Bytes → Fields → SseParser → SseParser × Option SseEvent
next_from [] f p = (record p { lines = [] }, none)
next_from ([] ∷ rest) f p = elim (event_of f) [
  | some e ↦ (record (keep_id e p) { lines = rest }, some e)
  | none ↦ next_from rest no_fields p
]
next_from ((b ∷ bs) ∷ rest) f p = elim (is_comment (b ∷ bs)) [
  | true ↦ next_from rest f p
  | false ↦ let (f', ms) = field_line (b ∷ bs) f in next_from rest f' (call_back ms p)
]

unfoldable pub next : SseParser → SseParser × Option SseEvent
next p = next_from p.lines no_fields p
