-- ===== src/Logger/Stream.antt =====
-- The streams of src/util/logger.h: `logstream(level) << ... << std::endl` of one thread, and its parts.
use maiter_p.Base.{
  ℕ, Bool, true, false, none, some, List, [], ◌∷◌, ◌++◌, Run, ok, fault, out_of_range, ◌>>=◌, ltb,
  leb, ◌==◌, if◌then◌else◌,
}
use maiter_p.StateTable.Defs.{at}
use maiter_p.Logger.{FileLogger, StreambuffTlsEntry, messagess, header, level_fatal}
use maiter_p.Logger.Output.{lograw}

unfoldable pub set_entry : FileLogger → ℕ → StreambuffTlsEntry → FileLogger
set_entry l thread e = record l {
  entries = λ other. if other == thread then some e else l.entries other;
}

-- A head is written only into an empty buffer.
unfoldable pub begin_buffer : ℕ → List ℕ → List ℕ → ℕ → List ℕ → Run (List ℕ)
unfolding at messagess header
begin_buffer lineloglevel file function line [] = do
  message ← at messagess lineloglevel
  ok (header message file function line)
begin_buffer lineloglevel file function line (c ∷ streambuffer) = ok (c ∷ streambuffer)

-- The buffer of a thread, a new one where it has none.
unfoldable pub buffer_of : FileLogger → ℕ → List ℕ
buffer_of l thread = elim (l.entries thread) [ none ↦ [] | some e ↦ e.streambuffer ]

unfoldable pub start_stream : FileLogger → ℕ → ℕ → List ℕ → List ℕ → ℕ → Run FileLogger
unfolding set_entry begin_buffer buffer_of
start_stream l thread lineloglevel file function line =
    if leb l.log_level lineloglevel
    then (do
      buffer ← begin_buffer lineloglevel file function line (buffer_of l thread)
      let begun = set_entry l thread (record { streambuffer = buffer; streamactive = true })
      ok (record begun { streamloglevel = lineloglevel }))
    else ok
        (set_entry l thread (record { streambuffer = buffer_of l thread; streamactive = false }))

unfoldable pub stream_flush : FileLogger → ℕ → FileLogger
unfolding lograw set_entry
stream_flush l thread = elim (l.entries thread) [
  | none ↦ l
  | some e ↦
      set_entry (lograw l l.streamloglevel e.streambuffer) thread (record e { streambuffer = [] })
]

-- `if (streamactive) streambuffer << a;`
unfoldable pub append : FileLogger → ℕ → StreambuffTlsEntry → List ℕ → FileLogger
unfolding set_entry
append l thread e a = set_entry l thread (record e { streambuffer = e.streambuffer ++ a })

-- `operator<<` of anything but the two below, given as the text that the stream makes of it.
unfoldable pub put_text : FileLogger → ℕ → List ℕ → FileLogger
unfolding append
put_text l thread a = elim (l.entries thread) [
  | none ↦ l
  | some e ↦ if e.streamactive then append l thread e a else l
]

-- `a[strlen(a) - 1] == '\n'`, which reads in front of an empty string.
unfoldable pub ends_line : List ℕ → Run Bool
ends_line [] = fault out_of_range
ends_line (c ∷ []) = ok (c == 10)
ends_line (c ∷ d ∷ a) = ends_line (d ∷ a)

-- `operator<<(const char* a)`
unfoldable pub put_chars : FileLogger → ℕ → List ℕ → Run FileLogger
unfolding append ends_line stream_flush
put_chars l thread a = elim (l.entries thread) [
  | none ↦ ok l
  | some e ↦
      if e.streamactive
      then (do
        ended ← ends_line a
        ok (if ended then stream_flush (append l thread e a) thread else append l thread e a))
      else ok l
]

-- `operator<<` of `std::endl`, and whether it throws.
unfoldable pub put_endl : FileLogger → ℕ → FileLogger × Bool
unfolding append stream_flush
put_endl l thread = elim (l.entries thread) [
  | none ↦ (l, false)
  | some e ↦
      if e.streamactive
      then (stream_flush (append l thread e (10 ∷ [])) thread, l.streamloglevel == level_fatal)
      else (l, false)
]

-- What a statement sends to the stream.
pub data Item : Type 0 where
  text : List ℕ → Item
  chars : List ℕ → Item
  endl : Item

-- The items of a statement, up to one that throws.
unfoldable pub put_items : FileLogger → ℕ → List Item → Run (FileLogger × Bool)
unfolding put_text put_chars put_endl
put_items l thread [] = ok (l, false)
put_items l thread (text a ∷ items) = put_items (put_text l thread a) thread items
put_items l thread (chars a ∷ items) = do l' ← put_chars l thread a; put_items l' thread items
put_items l thread (endl ∷ items) =
    let (l', thrown) = put_endl l thread in
    let rest = put_items l' thread items in if thrown then ok (l', true) else rest

-- `logstream(lvl) << ...`, which does nothing below `OUTPUTLEVEL`.
unfoldable pub logstream :
    ℕ → FileLogger → ℕ → ℕ → List ℕ → List ℕ → ℕ → List Item → Run (FileLogger × Bool)
unfolding start_stream put_items
logstream outputlevel l thread lvl file function line items =
    if ltb lvl outputlevel
    then ok (l, false)
    else (do l' ← start_stream l thread lvl file function line; put_items l' thread items)
