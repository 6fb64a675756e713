-- ===== src/Logger/Overlap.antt =====
-- Lines of src/util/logger.h that overlap: the level of the line is one field for all threads, and a line
-- without an end stays in the buffer of its thread.

use maiter_p.Base.{
  ℕ, ◌≤◌, ◌<◌, ◌≡◌, refl, ap, sym, ◌∙◌, true, false, some, List, [], ◌∷◌, ◌++◌, ok, ◌>>=◌, Returns,
  >>=-eq-ok, ok-injective, ◌==◌, length, arith, le→ltb, le→leb,
}
use maiter_p.Logger.{FileLogger, level_debug, level_fatal}
use maiter_p.Logger.Output.{log, fits_level}
use maiter_p.Logger.Stream.{
  set_entry, buffer_of, begin_buffer, start_stream, put_endl, logstream, Item, endl,
}
use maiter_p.Logger.Parts.{endl-found, writing, AreParts, text_of, put_items-parts}
use maiter_p.Logger.Lines.{LineWritten, line_written-LineWritten}

-- What `start_stream` leaves, if it ends.
begun_with :
    (l l' : FileLogger) (other lvl : ℕ) (file function : List ℕ) (line : ℕ)
    → l.log_level ≤ lvl
    → start_stream l other lvl file function line ≡ ok l'
    → (buffer : List ℕ) × (l' ≡ writing (record l { streamloglevel = lvl }) other buffer)
unfolding start_stream set_entry
begun_with l l' other lvl file function line loud run =
    let (buffer, filled, same) =
      >>=-eq-ok (begin_buffer lvl file function line (buffer_of l other))
        (λ buffer. ok (writing (record l { streamloglevel = lvl }) other buffer))
        (loud_start ∙ run) in
    (buffer, sym (ok-injective same))
  where
    loud_start :
        (begin_buffer lvl file function line (buffer_of l other) >>= λ buffer.
        ok (writing (record l { streamloglevel = lvl }) other buffer))
        ≡ start_stream l other lvl file function line
    loud_start = rw (le→leb _ _ loud) refl

-- When another thread starts a line of a level that is logged between the start and the end of the line
-- of a thread, whether the end throws is decided by the level of the other line.
pub put_endl-overlap :
    (l l' : FileLogger) (thread other lvl : ℕ) (start file function : List ℕ) (line : ℕ)
    → l.entries thread ≡ some (record { streambuffer = start; streamactive = true })
    → (thread == other) ≡ false
    → l.log_level ≤ lvl
    → start_stream l other lvl file function line ≡ ok l'
    → (put_endl l' thread).1 ≡ (lvl == level_fatal)
unfolding set_entry
put_endl-overlap l l' thread other lvl start file function line active apart loud run =
    let (buffer, begun) = begun_with l l' other lvl file function line loud run in
    let kept : l'.entries thread ≡ l.entries thread =
      ap (λ l. l.entries thread) begun ∙ rw apart refl in
    ap (λ r. r.1) (endl-found l' thread start (kept ∙ active))
    ∙ ap (λ l. l.streamloglevel == level_fatal) begun

begin_buffer-unended :
    (lvl : ℕ) (file function : List ℕ) (line : ℕ) (buffer : List ℕ)
    → 0 < length buffer
    → begin_buffer lvl file function line buffer ≡ ok buffer
unfolding begin_buffer
begin_buffer-unended lvl file function line [] unended = absurd (omega arith)
begin_buffer-unended lvl file function line (c ∷ buffer) unended = refl

start_stream-unended :
    (l : FileLogger) (thread lvl : ℕ) (file function : List ℕ) (line : ℕ)
    → 0 < length (buffer_of l thread)
    → l.log_level ≤ lvl
    → start_stream l thread lvl file function line
      ≡ ok (writing (record l { streamloglevel = lvl }) thread (buffer_of l thread))
unfolding start_stream set_entry
start_stream-unended l thread lvl file function line unended loud =
    rw (le→leb _ _ loud, begin_buffer-unended lvl file function line _ unended) refl

-- Where the last line of a thread was not ended, the next one of a level that is logged is written
-- behind what was left, without a head.
pub logstream-continues :
    (l : FileLogger) (thread lvl : ℕ) (file function : List ℕ) (line : ℕ) (parts : List Item)
    → AreParts parts
    → 0 < length (buffer_of l thread)
    → l.log_level ≤ lvl
    → Returns
        (logstream level_debug l thread lvl file function line (parts ++ endl ∷ []))
        (LineWritten l thread lvl (buffer_of l thread ++ (text_of parts ++ 10 ∷ [])))
unfolding logstream
logstream-continues l thread lvl file function line parts inline unended loud = (
  _,
  rw (le→ltb lvl 0 (omega arith), start_stream-unended l thread lvl file function line unended loud)
      (put_items-parts parts (record l { streamloglevel = lvl }) thread _ inline),
  line_written-LineWritten l thread lvl _,
)

-- `_log` writes no line of LOG_FATAL.
log-fatal_silent :
    (l : FileLogger) (file function : List ℕ) (line : ℕ) (body : List ℕ)
    → log l level_fatal file function line body ≡ ok l
unfolding log fits_level
log-fatal_silent l file function line body = refl
