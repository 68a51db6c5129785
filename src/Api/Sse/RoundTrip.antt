-- ===== src/Api/Sse/RoundTrip.antt =====
-- internal/api/sse.go: the parser on an event as a server writes it.
use plexd.Base.{
  ℕ, ◌+◌, ◌<◌, ◌≤◌, List, [], ◌∷◌, ◌++◌, false, eqb, some, if◌then◌else◌, All, All-append, length,
  length-append, arith, ◌≡◌, ◌≢◌, refl, ap, sym, ◌∙◌,
}
use mathlib.Core.List.{append_assoc, append-nil}
use plexd.Api.Envelope.{Bytes}
use plexd.Api.Sse.{
  max_scan_token_size, drop_cr, scan, SseEvent, SseParser, new_sse_parser, Fields, no_fields, cut,
  trim_space, join, event_field, data_field, id_field, is_empty, set_field, field_line, event_of,
  keep_id, next_from, next,
}

-- What a server sends: a type, an id and at least one line of data.
pub record Message : Type 0 where
  pub type : Bytes
  pub id : Bytes
  pub first : Bytes
  pub more : List Bytes

-- Neither a newline nor a carriage return.
abbrev pub Inside : ℕ → Type 0
Inside b = (eqb b b'\n' ≡ false) × (eqb b b'\r' ≡ false)

-- A value that stands on one line which fits into the scanner's buffer.
abbrev pub OneLine : Bytes → Type 0
OneLine v = All Inside v × (length v + 8 < max_scan_token_size)

pub record IsPrintable (m : Message) : Type 0 where
  pub typed : m.type ≢ []
  pub type_line : OneLine m.type
  pub id_line : OneLine m.id
  pub first_line : OneLine m.first
  pub more_lines : All OneLine m.more

abbrev pub field_text : Bytes → Bytes → Bytes
field_text field value = field ++ (b':' ∷ b' ' ∷ value)

abbrev pub data_lines : List Bytes → List Bytes
data_lines [] = []
data_lines (p ∷ ps) = field_text data_field p ∷ data_lines ps

abbrev pub lines_of : Message → List Bytes
lines_of m =
    field_text event_field m.type
    ∷ field_text id_field m.id
    ∷ (data_lines (m.first ∷ m.more) ++ [] ∷ [])

-- The lines, each with its newline, before the rest of the stream.
abbrev pub written : List Bytes → Bytes → Bytes
written [] rest = rest
written (l ∷ ls) rest = l ++ (b'\n' ∷ written ls rest)

drop_cr-Inside : (line : Bytes) → All Inside line → drop_cr line ≡ line
unfolding drop_cr
drop_cr-Inside [] h = refl
drop_cr-Inside (b ∷ []) h = ground arith
drop_cr-Inside (b ∷ c ∷ cs) h = ap (◌∷◌ b) (drop_cr-Inside (c ∷ cs) h.1)

scan_line :
    (line acc rest : Bytes)
    → All Inside line
    → length acc + length line < max_scan_token_size
    → scan acc (line ++ (b'\n' ∷ rest)) ≡ drop_cr (acc ++ line) ∷ scan [] rest
unfolding scan
scan_line [] acc rest inside small = ground (arith, append-nil acc)
scan_line (b ∷ bs) acc rest inside small =
    let joined = append_assoc acc (b ∷ []) bs in
    ground (
      arith,
      inside.0,
      joined,
      length-append acc (b ∷ []),
      scan_line bs (acc ++ b ∷ []) rest inside.1,
    )

-- The scanner gives the lines that were written.
scan-written :
    (ls : List Bytes) (rest : Bytes)
    → All (λ l. All Inside l × (length l < max_scan_token_size)) ls
    → scan [] (written ls rest) ≡ ls ++ scan [] rest
scan-written [] rest fit = refl
scan-written (l ∷ ls) rest fit =
    scan_line l [] (written ls rest) fit.0.0 (omega (arith, fit.0.1))
    ∙ ap (λ x. x ∷ scan [] (written ls rest)) (drop_cr-Inside l fit.0.0)
    ∙ ap (◌∷◌ l) (scan-written ls rest fit.1)

-- The lines of data are collected in order.
next_from-data_lines :
    (ps : List Bytes) (more : List Bytes) (f : Fields) (p : SseParser)
    → next_from (data_lines ps ++ more) f p ≡ next_from more (record f { parts = f.parts ++ ps }) p
unfolding next_from field_line cut trim_space set_field
next_from-data_lines [] more f p =
    ap (λ (x : List Bytes). next_from more (record f { parts = x }) p) (sym (append-nil f.parts))
next_from-data_lines (q ∷ ps) more f p =
    next_from-data_lines ps more (record f { parts = f.parts ++ q ∷ [] }) p
    ∙ ap (λ (x : List Bytes). next_from more (record f { parts = x }) p)
        (append_assoc f.parts (q ∷ []) ps)

-- The parser's state once it has given the event of the message.
abbrev pub after : Message → Bytes → SseParser
after m rest = record {
  lines = scan [] rest;
  last_event_id = m.id;
  has_callback = false;
  retries = [];
}

abbrev pub event : Message → SseEvent
event m = record { type = m.type; content = join (m.first ∷ m.more); id = m.id }

next_from-lines_of :
    (m : Message) (rest : List Bytes) (p : SseParser)
    → m.type ≢ []
    → next_from (lines_of m ++ rest) no_fields p
      ≡ (record (keep_id (event m) p) { lines = rest }, some (event m))
unfolding next_from field_line cut trim_space set_field event_of
next_from-lines_of m rest p typed =
    let f : Fields = record { event_type = m.type; parts = m.first ∷ []; event_id = m.id } in
    ap (λ (x : List Bytes). next_from x f p) (append_assoc (data_lines m.more) ([] ∷ []) rest)
    ∙ next_from-data_lines m.more ([] ∷ rest) f p
    ∙ dispatched m.type typed
  where
    dispatched :
        (type : Bytes)
        → type ≢ []
        → next_from
            ([] ∷ rest)
            (record { event_type = type; parts = m.first ∷ m.more; event_id = m.id })
            p
          ≡ (
            record (keep_id (event m) p) { lines = rest },
            some (record { type = type; content = join (m.first ∷ m.more); id = m.id }),
          )
    dispatched [] t = absurd (t refl)
    dispatched (c ∷ cs) t = refl

fits :
    (v field : Bytes)
    → OneLine v
    → All Inside field
    → length field ≤ 5
    → All Inside (field_text field v) × (length (field_text field v) < max_scan_token_size)
fits v field one inside short = (
  All-append Inside field (b':' ∷ b' ' ∷ v) inside ((refl, refl), ((refl, refl), one.0)),
  omega (arith, length-append field (b':' ∷ b' ' ∷ v), one.1),
)

abbrev Fits : Bytes → Type 0
Fits l = All Inside l × (length l < max_scan_token_size)

All-Inside : All Inside data_field
All-Inside = ((refl, refl), ((refl, refl), ((refl, refl), ((refl, refl), tt))))

data_lines-Fits : (ps : List Bytes) → All OneLine ps → All Fits (data_lines ps)
data_lines-Fits [] h = tt
data_lines-Fits (p ∷ ps) h =
    (fits p data_field h.0 All-Inside (omega arith), data_lines-Fits ps h.1)

-- An event that a server writes at the head of the stream is the first event that the parser gives,
-- with the data lines joined by newlines, and leaves the rest of the stream to be scanned, if the type
-- is not empty and the type, the id and each data line have no newline and no carriage return and fit
-- into the buffer of the scanner.
pub printed_event :
    (m : Message) (rest : Bytes)
    → IsPrintable m
    → next (new_sse_parser (written (lines_of m) rest)) ≡ (after m rest, some (event m))
unfolding next new_sse_parser
printed_event m rest h =
    ap (λ (x : List Bytes). next_from x no_fields (over x)) (scan-written (lines_of m) rest all_fit)
    ∙ next_from-lines_of m (scan [] rest) (over (lines_of m ++ scan [] rest)) h.typed
    ∙ ap (λ (q : SseParser). (q, some (event m))) (kept m.id)
  where
    over : List Bytes → SseParser
    over x = record { lines = x; last_event_id = []; has_callback = false; retries = [] }

    inside_event : All Inside event_field
    inside_event =
        ((refl, refl), ((refl, refl), ((refl, refl), ((refl, refl), ((refl, refl), tt)))))

    all_fit : All Fits (lines_of m)
    all_fit = (
      fits m.type event_field h.type_line inside_event (omega arith),
      (
        fits m.id id_field h.id_line ((refl, refl), ((refl, refl), tt)) (omega arith),
        All-append Fits (data_lines (m.first ∷ m.more)) ([] ∷ [])
            (data_lines-Fits (m.first ∷ m.more) (h.first_line, h.more_lines))
            ((tt, omega arith), tt),
      ),
    )

    before : SseParser
    before = over (lines_of m ++ scan [] rest)

    kept :
        (id : Bytes)
        → let q : SseParser =
            (if is_empty id then before else record before { last_event_id = id }) in
          record q { lines = scan [] rest } ≡ record (after m rest) { last_event_id = id }
    kept [] = refl
    kept (c ∷ cs) = refl
