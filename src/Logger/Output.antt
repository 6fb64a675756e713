-- ===== src/Logger/Output.antt =====
-- What `file_logger` of src/util/logger.h writes to its file and to the terminal: `_lograw`, `_log`,
-- `_logbuf` and `set_log_file`.
use maiter_p.Base.{
  ℕ, zero, suc, ◌+◌, Bool, true, false, ◌&&◌, List, [], ◌∷◌, ◌++◌, Run, ok, fault, out_of_range,
  ◌>>=◌, ltb, leb, if◌then◌else◌, length, take,
}
use maiter_p.StateTable.Defs.{at}
use maiter_p.Logger.{Ofstream, FileLogger, messagess, decimal, header}

-- `fout.write`, after the test of `good()`.
unfoldable pub write : Ofstream → List ℕ → Ofstream
write fout buf =
    if fout.good
    then if fout.is_open
      then record fout { written = fout.written ++ buf }
      else record fout { good = false }
    else fout

-- `textcolor` and `reset_color`: the codes for the terminal.
unfoldable pub textcolor : ℕ → ℕ → List ℕ
unfolding decimal
textcolor attr fg = 27 ∷ 91 ∷ (decimal attr ++ 59 ∷ (decimal (fg + 30) ++ 109 ∷ []))

unfoldable pub reset_color : List ℕ
reset_color = 27 ∷ 91 ∷ 48 ∷ 109 ∷ []

-- The color of a line in `_log`: red for errors, green for warnings.
unfoldable pub color_of : ℕ → List ℕ
unfolding textcolor
color_of (suc (suc (suc (suc zero)))) = textcolor 1 1
color_of (suc (suc (suc zero))) = textcolor 1 1
color_of (suc (suc zero)) = textcolor 1 2
color_of _ = []

-- In `_lograw` also yellow for LOG_DEBUG.
unfoldable pub raw_color_of : ℕ → List ℕ
unfolding textcolor color_of
raw_color_of zero = textcolor 1 3
raw_color_of (suc level) = color_of (suc level)

unfoldable pub show_on : FileLogger → List ℕ → List ℕ → FileLogger
unfolding reset_color
show_on l color buf =
    if l.log_to_console
    then record l { console = l.console ++ (color ++ (buf ++ reset_color)) }
    else l

-- `_lograw`
unfoldable pub lograw : FileLogger → ℕ → List ℕ → FileLogger
unfolding write show_on raw_color_of
lograw l lineloglevel buf =
    show_on (record l { fout = write l.fout buf }) (raw_color_of lineloglevel) buf

-- `lineloglevel >= 0 && lineloglevel <= 3 && lineloglevel >= log_level`
unfoldable pub fits_level : FileLogger → ℕ → Bool
fits_level l lineloglevel = leb lineloglevel 3 && leb l.log_level lineloglevel

-- `_log`, of the text that the format and its arguments give. The array has 1024 bytes; the newline and
-- the zero byte are written behind the bytes that the text takes, cut off or not.
unfoldable pub log : FileLogger → ℕ → List ℕ → List ℕ → ℕ → List ℕ → Run FileLogger
unfolding fits_level at messagess header write show_on color_of
log l lineloglevel file function line text =
    if fits_level l lineloglevel
    then (do
      message ← at messagess lineloglevel
      let str = header message file function line ++ (text ++ 10 ∷ [])
      if ltb (length str) 1024
          then ok (show_on (record l { fout = write l.fout str }) (color_of lineloglevel) str)
          else fault out_of_range)
    else ok l

-- The head of `_logbuf` in its array, with the zero byte in place of the last byte that does not fit.
unfoldable pub cut_header : List ℕ → List ℕ
cut_header head = if ltb (length head) 2047 then head else take 2046 head ++ 0 ∷ []

-- `Header length exceed buffer length!`
abbrev pub too_long : List ℕ
too_long =
    72 ∷ 101 ∷ 97 ∷ 100 ∷ 101 ∷ 114 ∷ 32 ∷ 108 ∷ 101 ∷ 110 ∷ 103 ∷ 116 ∷ 104 ∷ 32 ∷ 101 ∷ 120 ∷ 99
    ∷ 101 ∷ 101 ∷ 100 ∷ 32 ∷ 98 ∷ 117 ∷ 102 ∷ 102 ∷ 101 ∷ 114 ∷ 32 ∷ 108 ∷ 101 ∷ 110 ∷ 103 ∷ 116
    ∷ 104 ∷ 33 ∷ []

-- `_logbuf`
unfoldable pub logbuf : FileLogger → ℕ → List ℕ → List ℕ → ℕ → List ℕ → Run FileLogger
unfolding fits_level at messagess header lograw cut_header
logbuf l lineloglevel file function line buf =
    if fits_level l lineloglevel
    then (do
      message ← at messagess lineloglevel
      let head = header message file function line
      if ltb 2047 (length head)
          then ok (record l { console = l.console ++ too_long })
          else (let l₁ = lograw l lineloglevel (cut_header head) in
              let l₂ = lograw l₁ lineloglevel buf in ok (lograw l₂ lineloglevel (10 ∷ []))))
    else ok l

-- `fout.close()` fails on a stream that is not open.
unfoldable pub close : Ofstream → Ofstream
close fout = record fout { is_open = false; good = fout.is_open && fout.good }

-- `set_log_file`; `opens` says whether the new file can be opened. Its content is cleared.
unfoldable pub set_log_file : FileLogger → List ℕ → Bool → FileLogger × Bool
unfolding close
set_log_file l file opens =
    let closed = if l.fout.good then record l { fout = close l.fout; log_file = [] } else l in
    elim file [
      | [] ↦ (closed, true)
      | c ∷ rest ↦ elim opens [
        | true ↦ (
          record closed {
            fout = record { is_open = true; good = true; written = [] };
            log_file = c ∷ rest;
          },
          true,
        )
        | false ↦ (record closed { fout = record closed.fout { good = false } }, false)
      ]
    ]
