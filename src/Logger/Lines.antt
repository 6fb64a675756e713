-- ===== src/Logger/Lines.antt =====
-- A line of one thread with the streams of src/util/logger.h, from `logstream` to `std::endl`.

use maiter_p.Base.{
  ℕ, zero, suc, ◌≤◌, ◌≡◌, refl, Bool, false, List, [], ◌∷◌, ◌++◌, ok, Returns, ◌==◌, arith,
  if◌then◌else◌, le→ltb, le→leb,
}
use maiter_p.StateTable.Defs.{at}
use maiter_p.Logger.{FileLogger, messagess, header, level_debug, level_fatal}
use maiter_p.Logger.Output.{lograw, write, show_on, raw_color_of, reset_color}
use maiter_p.Logger.Stream.{Item, endl, set_entry, buffer_of, begin_buffer, start_stream, logstream}
use maiter_p.Logger.Parts.{AreParts, text_of, writing, line_written, put_items-parts}

message_at : (lvl : ℕ) → lvl ≤ level_fatal → (message : List ℕ) × (at messagess lvl ≡ ok message)
unfolding at messagess
message_at zero known = (_, refl)
message_at (suc zero) known = (_, refl)
message_at (suc (suc zero)) known = (_, refl)
message_at (suc (suc (suc zero))) known = (_, refl)
message_at (suc (suc (suc (suc zero)))) known = (_, refl)
message_at (suc (suc (suc (suc (suc lvl))))) known = absurd (omega arith)

-- The result of a statement of a thread whose line is `buf`: the line is written, the thread's buffer is
-- empty, the other threads are as before, and the statement throws at LOG_FATAL.
pub record LineWritten (l : FileLogger) (thread lvl : ℕ) (buf : List ℕ) (r : FileLogger × Bool)
    : Type 0 where
  pub fout_is : r.0.fout ≡ write l.fout buf
  pub console_is : r.0.console ≡ (
      if l.log_to_console
      then l.console ++ (raw_color_of lvl ++ (buf ++ reset_color))
      else l.console)
  pub emptied : buffer_of r.0 thread ≡ []
  pub others : (other : ℕ) → (other == thread) ≡ false → r.0.entries other ≡ l.entries other
  pub throws : r.1 ≡ (lvl == level_fatal)

pub line_written-LineWritten :
    (l : FileLogger) (thread lvl : ℕ) (buf : List ℕ)
    → LineWritten l thread lvl buf
        (line_written (record l { streamloglevel = lvl }) thread buf, lvl == level_fatal)
unfolding lograw show_on set_entry buffer_of
line_written-LineWritten l thread lvl buf = record {
  fout_is = ground arith;
  console_is = ground arith;
  emptied = ground arith;
  others = λ other different. ground arith;
  throws = refl;
}

start_stream-empty :
    (l : FileLogger) (thread lvl : ℕ) (file function : List ℕ) (line : ℕ) {message : List ℕ}
    → buffer_of l thread ≡ []
    → l.log_level ≤ lvl
    → at messagess lvl ≡ ok message
    → start_stream l thread lvl file function line
      ≡ ok (writing (record l { streamloglevel = lvl }) thread (header message file function line))
unfolding start_stream begin_buffer set_entry
start_stream-empty l thread lvl file function line empty loud named =
    rw (le→leb _ _ loud, empty, named) refl

-- In a thread whose buffer is empty, a line of any level from the least that is logged to LOG_FATAL is
-- written with the head of its level to the file and in its color to the terminal; the buffer is empty
-- again, other threads are as before, and std::endl throws exactly at LOG_FATAL.
pub logstream-line :
    (l : FileLogger) (thread lvl : ℕ) (file function : List ℕ) (line : ℕ) (parts : List Item)
    → AreParts parts
    → buffer_of l thread ≡ []
    → l.log_level ≤ lvl
    → lvl ≤ level_fatal
    → (message : List ℕ) × (at messagess lvl ≡ ok message)
      × Returns (logstream level_debug l thread lvl file function line (parts ++ endl ∷ [])) (
          LineWritten l thread lvl
            (header message file function line ++ (text_of parts ++ 10 ∷ [])))
unfolding logstream
logstream-line l thread lvl file function line parts inline empty loud known =
    let (message, named) = message_at lvl known in
    (
      message,
      named,
      (
        _,
        rw
            (
              le→ltb lvl 0 (omega arith),
              start_stream-empty l thread lvl file function line empty loud named,
            )
            (put_items-parts parts (record l { streamloglevel = lvl }) thread _ inline),
        line_written-LineWritten l thread lvl _,
      ),
    )
