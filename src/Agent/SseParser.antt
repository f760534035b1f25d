-- ===== src/Agent/SseParser.antt =====
-- agent/sse_parser.py: the incremental parser of server-sent events.
--
-- A text is the list of its characters' code points. `D` is the state of the incremental UTF-8
-- decoder of codecs; `decode` and `finish` are its decode with final=False and with final=True, with
-- `none` for a UnicodeDecodeError.
pub mod Lines
pub mod Extract
pub mod Chunks
use blender_ai_sidebar.Prelude.{
  ℕ, zero, suc, ◌+◌, Bool, true, false, ◌&&◌, ◌||◌, List, [], ◌∷◌, ◌++◌, map, Option, none, some,
  ◌==◌, nat_comparable, if◌then◌else◌, ltb, length,
}

abbrev pub Text : Type 0
Text = List ℕ

abbrev pub cr : ℕ
cr = 13

abbrev pub lf : ℕ
lf = 10

abbrev pub colon : ℕ
colon = 58

abbrev pub space : ℕ
space = 32

-- `text.replace("\r\n", "\n")`; the flag says that a "\r" was read and is not written yet.
unfoldable pub replace_crlf : Bool → Text → Text
replace_crlf false [] = []
replace_crlf true [] = cr ∷ []
replace_crlf false (c ∷ cs) = elim (c == cr) [
  | true ↦ replace_crlf true cs
  | false ↦ c ∷ replace_crlf false cs
]
replace_crlf true (c ∷ cs) = elim (c == lf) [
  | true ↦ lf ∷ replace_crlf false cs
  | false ↦ elim (c == cr) [
    | true ↦ cr ∷ replace_crlf true cs
    | false ↦ cr ∷ c ∷ replace_crlf false cs
  ]
]

-- `text.replace("\r", "\n")`
abbrev pub without_cr : ℕ → ℕ
without_cr c = if c == cr then lf else c

unfoldable pub normalize : Text → Text
unfolding replace_crlf
normalize text = map without_cr (replace_crlf false text)

abbrev pub add_char : ℕ → List Text × Text → List Text × Text
add_char c ([], rest) = ([], c ∷ rest)
add_char c (line ∷ lines, rest) = ((c ∷ line) ∷ lines, rest)

-- `text.split("\n")`, as all parts but the last and the last.
unfoldable pub split_lines : Text → List Text × Text
split_lines [] = ([], [])
split_lines (c ∷ cs) =
    let (lines, rest) = split_lines cs in
    elim (c == lf) [ true ↦ ([] ∷ lines, rest) | false ↦ add_char c (lines, rest) ]

-- `buf[:-1]` where the text ends with "\r", and that "\r".
unfoldable pub cut_cr : Text → Text × Text
cut_cr [] = ([], [])
cut_cr (c ∷ []) = elim (c == cr) [ true ↦ ([], cr ∷ []) | false ↦ (c ∷ [], []) ]
cut_cr (c ∷ d ∷ cs) = let (body, pending) = cut_cr (d ∷ cs) in (c ∷ body, pending)

-- _extract_lines: the lines and the new buffer.
unfoldable pub extract_lines : Text → List Text × Text
unfolding cut_cr split_lines normalize
extract_lines buffer =
    let (body, pending) = cut_cr buffer in
    let (lines, rest) = split_lines (normalize body) in (lines, rest ++ pending)

-- The text before the first ":", and the text after it if there is one.
unfoldable pub partition : Text → Text × Option Text
partition [] = ([], none)
partition (c ∷ cs) = elim (c == colon) [
  | true ↦ ([], some cs)
  | false ↦ let (field, value) = partition cs in (c ∷ field, value)
]

abbrev pub value_of : Option Text → Text
value_of none = []
value_of (some []) = []
value_of (some (c ∷ cs)) = if c == space then cs else c ∷ cs

unfoldable pub same_text : Text → Text → Bool
same_text [] [] = true
same_text [] (d ∷ ds) = false
same_text (c ∷ cs) [] = false
same_text (c ∷ cs) (d ∷ ds) = c == d && same_text cs ds

-- `"\n".join(lines)`
unfoldable pub join_lines : List Text → Text
join_lines [] = []
join_lines (line ∷ []) = line
join_lines (line ∷ next ∷ lines) = line ++ lf ∷ join_lines (next ∷ lines)

unfoldable pub total_length : List Text → ℕ
total_length [] = 0
total_length (line ∷ lines) = length line + total_length lines

-- "data"
abbrev pub data_field : Text
data_field = 100 ∷ 97 ∷ 116 ∷ 97 ∷ []

-- The end of the stream: DONE in brackets.
abbrev pub done_marker : Text
done_marker = 91 ∷ 68 ∷ 79 ∷ 78 ∷ 69 ∷ 93 ∷ []

pub data SseError : Type 0 where
  invalid_utf8 event_too_large : SseError

-- The payloads of a call, or what it raises.
pub data Fed : Type 0 where
  fed : List Text → Fed
  failed : SseError → Fed

-- The accumulated data lines and the mark of the end of the stream.
pub record Pending : Type 0 where
  pub data_lines : List Text
  pub is_done : Bool

pub record SseParser (D : Type 0) : Type 0 where
  pub decoder : D
  pub buffer : Text
  pub pending : Pending

-- The constructor and `reset`, with a new decoder.
new_parser : {D : Type 0} → D → SseParser D
new_parser d = record {
  decoder = d;
  buffer = [];
  pending = record { data_lines = []; is_done = false };
}

module _ {S : Type 0} where
  abbrev pub prepend : List Text → Fed × S → Fed × S
  prepend es (fed fs, s) = (fed (es ++ fs), s)
  prepend es (failed e, s) = (failed e, s)

  -- The second call follows if the first did not raise; their payloads are joined.
  abbrev pub and_then : Fed × S → (S → Fed × S) → Fed × S
  and_then (fed es, s) k = prepend es (k s)
  and_then (failed e, s) k = (failed e, s)

-- The event of the accumulated data lines, if there are any.
unfoldable pub dispatch_event : Pending → Fed × Pending
unfolding join_lines same_text
dispatch_event p = elim p.data_lines [
  | [] ↦ (fed [], p)
  | line ∷ lines ↦
      let payload = join_lines (line ∷ lines) in
      (
        fed (payload ∷ []),
        record { data_lines = []; is_done = p.is_done || same_text payload done_marker },
      )
]

module _ (max_event_size : ℕ) where
  unfoldable pub add_data : Text → Pending → Fed × Pending
  unfolding total_length
  add_data value p =
      let lines = p.data_lines ++ value ∷ [] in
      (
        if ltb max_event_size (total_length lines) then failed event_too_large else fed [],
        record p { data_lines = lines },
      )

  unfoldable pub process_line : Text → Pending → Fed × Pending
  unfolding dispatch_event add_data partition same_text
  process_line [] p = dispatch_event p
  process_line (c ∷ cs) p =
      if c == colon
      then (fed [], p)
      else let (field, value) = partition (c ∷ cs) in
        if same_text field data_field then add_data (value_of value) p else (fed [], p)

  -- _process_lines
  unfoldable pub process_lines : List Text → Pending → Fed × Pending
  unfolding process_line
  process_lines [] p = (fed [], p)
  process_lines (line ∷ lines) p = and_then (process_line line p) (process_lines lines)

  unfoldable pub flush_buffer : Text → Pending → Fed × Pending
  unfolding split_lines normalize process_lines
  flush_buffer [] p = (fed [], p)
  flush_buffer (c ∷ cs) p =
      let (lines, rest) = split_lines (normalize (c ∷ cs)) in process_lines (lines ++ rest ∷ []) p

module _ {D : Type 0} (max_event_size : ℕ) where
  abbrev pub with_rest : D → Text → Fed × Pending → Fed × SseParser D
  with_rest d rest (out, p) = (out, record { decoder = d; buffer = rest; pending = p })

  -- The text of a chunk, after which the decoder is in the state `d`.
  unfoldable pub feed_text : Text → D → SseParser D → Fed × SseParser D
  unfolding extract_lines process_lines
  feed_text text d s =
      let buffer = s.buffer ++ text in
      if ltb max_event_size (length buffer)
      then (failed event_too_large, record s { decoder = d; buffer = buffer })
      else let (lines, rest) = extract_lines buffer in
        with_rest d rest (process_lines max_event_size lines s.pending)

  module _ (decode : D → List ℕ → Option (Text × D)) where
    unfoldable pub feed : List ℕ → SseParser D → Fed × SseParser D
    unfolding feed_text
    feed [] s = (fed [], s)
    feed (b ∷ chunk) s = elim (decode s.decoder (b ∷ chunk)) [
      | none ↦ (failed invalid_utf8, s)
      | some (text, d) ↦ feed_text text d s
    ]

    -- The chunks of a stream, one after the other.
    unfoldable pub feeds : List (List ℕ) → SseParser D → Fed × SseParser D
    unfolding feed
    feeds [] s = (fed [], s)
    feeds (chunk ∷ chunks) s = and_then (feed chunk s) (feeds chunks)

  close : (D → Option Text) → SseParser D → Fed × SseParser D
  unfolding flush_buffer dispatch_event
  close finish s = elim (finish s.decoder) [
    | none ↦ (failed invalid_utf8, s)
    | some text ↦
        with_rest s.decoder []
          (and_then (flush_buffer max_event_size (s.buffer ++ text) s.pending) dispatch_event)
  ]
