-- ===== src/Samples/Logs.antt =====
-- Lines of the log.
use maiter_p.Base.{ℕ, ◌≡◌, refl, true, List, [], ◌∷◌, ◌++◌, ok, Returns, arith, ◌==◌}
use maiter_p.StateTable.Defs.{at}
use maiter_p.Logger.{
  FileLogger, file_logger, messagess, header, level_debug, level_info, level_fatal,
}
use maiter_p.Logger.Stream.{
  logstream, start_stream, put_endl, set_entry, buffer_of, begin_buffer, Item, text, chars, endl,
  ends_line,
}
use maiter_p.Logger.Parts.{AreParts, text_of, writing}
use maiter_p.Logger.Lines.{LineWritten, logstream-line}
use maiter_p.Logger.Overlap.{put_endl-overlap}

-- `src/a.h`, `get`, line 120; the text `no`.
abbrev file : List ℕ
file = 115 ∷ 114 ∷ 99 ∷ 47 ∷ 97 ∷ 46 ∷ 104 ∷ []

abbrev function : List ℕ
function = 103 ∷ 101 ∷ 116 ∷ []

abbrev no : List ℕ
no = 110 ∷ 111 ∷ []

-- The literal `no` and an empty text.
abbrev parts : List Item
parts = chars no ∷ text [] ∷ []

-- `FATAL:    a.h(get:120): no`, in red, and the exception.
fatal_line :
    Returns
      (logstream level_debug file_logger 7 level_fatal file function 120 (parts ++ endl ∷ []))
      (λ r.
        (r.1 ≡ true)
        × (r.0.console
            ≡ 27
                ∷ 91
                ∷ 49
                ∷ 59
                ∷ 51
                ∷ 49
                ∷ 109
                ∷ (70 ∷ 65 ∷ 84 ∷ 65 ∷ 76 ∷ 58 ∷ 32 ∷ 32 ∷ 32 ∷ 32 ∷ 97 ∷ 46 ∷ 104 ∷ 40 ∷ 103 ∷ 101
                    ∷ 116 ∷ 58 ∷ 49 ∷ 50 ∷ 48 ∷ 41 ∷ 58 ∷ 32 ∷ 110 ∷ 111 ∷ 10 ∷ [])
              ++ (27 ∷ 91 ∷ 48 ∷ 109 ∷ [])))
unfolding logstream file_logger
fatal_line = (_, refl, (refl, refl))

logstream-line_example :
    (message : List ℕ) × (at messagess level_fatal ≡ ok message)
    × Returns
        (logstream level_debug file_logger 7 level_fatal file function 120 (parts ++ endl ∷ []))
        (LineWritten file_logger 7 level_fatal
          (header message file function 120 ++ (text_of parts ++ 10 ∷ [])))
unfolding buffer_of file_logger AreParts ends_line
logstream-line_example =
    logstream-line file_logger 7 level_fatal file function 120 parts (refl, tt) refl (omega arith)
      (omega arith)

-- Thread 7 has begun a fatal line, and thread 8 starts a line of LOG_INFO.
abbrev begun : FileLogger
begun = writing (record file_logger { streamloglevel = level_fatal }) 7 no

abbrev overlapped : FileLogger
overlapped =
    writing (record begun { streamloglevel = level_info }) 8
      (header (73 ∷ 78 ∷ 70 ∷ 79 ∷ 58 ∷ 32 ∷ 32 ∷ 32 ∷ 32 ∷ 32 ∷ []) file function 120)

put_endl-overlap_example : (put_endl overlapped 7).1 ≡ (level_info == level_fatal)
unfolding set_entry file_logger start_stream begin_buffer buffer_of at messagess
put_endl-overlap_example =
    put_endl-overlap begun overlapped 7 8 level_info no file function 120 refl refl (omega arith)
      refl
