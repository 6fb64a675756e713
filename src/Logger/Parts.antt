-- ===== src/Logger/Parts.antt =====
-- How the parts of a line of src/util/logger.h come into the buffer of a thread.
use mathlib.Core.List.{append_assoc}
use maiter_p.Base.{
  ℕ, ◌≡◌, refl, ap, sym, ◌∙◌, Bool, true, false, some, List, [], ◌∷◌, ◌++◌, Run, ok, ◌==◌, arith,
  if◌then◌else◌,
}
use maiter_p.Logger.{FileLogger, StreambuffTlsEntry, level_fatal}
use maiter_p.Logger.Output.{lograw}
use maiter_p.Logger.Stream.{
  Item, text, chars, endl, ends_line, put_chars, set_entry, stream_flush, append, put_text,
  put_endl, put_items,
}

-- Parts of a line: none is `std::endl`, and no literal is empty or ends in a newline.
unfoldable pub AreParts : List Item → Type 0
AreParts [] = Unit
AreParts (text a ∷ parts) = AreParts parts
AreParts (chars a ∷ parts) = (ends_line a ≡ ok false) × AreParts parts
AreParts (endl ∷ parts) = ◌≡◌ {A = Bool} true false

-- The text of the parts.
unfoldable pub text_of : List Item → List ℕ
text_of [] = []
text_of (text a ∷ parts) = a ++ text_of parts
text_of (chars a ∷ parts) = a ++ text_of parts
text_of (endl ∷ parts) = text_of parts

-- A thread in the middle of a line.
abbrev pub writing : FileLogger → ℕ → List ℕ → FileLogger
writing l thread start = set_entry l thread (record { streambuffer = start; streamactive = true })

-- The thread has written its line, at the level of the logger.
abbrev pub line_written : FileLogger → ℕ → List ℕ → FileLogger
line_written l thread buf =
    set_entry (lograw (writing l thread buf) l.streamloglevel buf) thread
      (record { streambuffer = []; streamactive = true })

set_entry-set_entry :
    (l : FileLogger) (thread : ℕ) (e f : StreambuffTlsEntry)
    → set_entry (set_entry l thread e) thread f ≡ set_entry l thread f
unfolding set_entry
set_entry-set_entry l thread e f =
    ap (λ entries. record l { entries = entries }) (λ i other. again other i)
  where
    again :
        (other : ℕ)
        → (if other == thread then some f else if other == thread then some e else l.entries other)
          ≡ (if other == thread then some f else l.entries other)
    again other = ground arith

pub entries-set_entry :
    (l : FileLogger) (thread : ℕ) (e : StreambuffTlsEntry)
    → (set_entry l thread e).entries thread ≡ some e
unfolding set_entry
entries-set_entry l thread e = ground arith

flush-found :
    (l : FileLogger) (thread : ℕ) (e : StreambuffTlsEntry)
    → l.entries thread ≡ some e
    → stream_flush l thread
      ≡ set_entry (lograw l l.streamloglevel e.streambuffer) thread (record e { streambuffer = [] })
unfolding stream_flush
flush-found l thread e there = rw (there, stream_flush) refl

text-found :
    (l : FileLogger) (thread : ℕ) (start a : List ℕ)
    → l.entries thread ≡ some (record { streambuffer = start; streamactive = true })
    → put_text l thread a ≡ writing l thread (start ++ a)
unfolding put_text append
text-found l thread start a there = rw (there, put_text) refl

pub endl-found :
    (l : FileLogger) (thread : ℕ) (start : List ℕ)
    → l.entries thread ≡ some (record { streambuffer = start; streamactive = true })
    → put_endl l thread
      ≡ (stream_flush (writing l thread (start ++ 10 ∷ [])) thread, l.streamloglevel == level_fatal)
unfolding put_endl append
endl-found l thread start there = rw (there, put_endl) refl

chars-found :
    (l : FileLogger) (thread : ℕ) (start a : List ℕ)
    → l.entries thread ≡ some (record { streambuffer = start; streamactive = true })
    → ends_line a ≡ ok false
    → put_chars l thread a ≡ ok (writing l thread (start ++ a))
unfolding put_chars append
chars-found l thread start a there open_ended = rw (there, put_chars, open_ended) refl

put_chars-writing :
    (l : FileLogger) (thread : ℕ) (start a : List ℕ)
    → ends_line a ≡ ok false
    → put_chars (writing l thread start) thread a ≡ ok (writing l thread (start ++ a))
put_chars-writing l thread start a open_ended =
    chars-found (writing l thread start) thread start a (entries-set_entry l thread _) open_ended
    ∙ ap ok (set_entry-set_entry l thread _ _)

put_text-writing :
    (l : FileLogger) (thread : ℕ) (start a : List ℕ)
    → put_text (writing l thread start) thread a ≡ writing l thread (start ++ a)
put_text-writing l thread start a =
    text-found (writing l thread start) thread start a (entries-set_entry l thread _)
    ∙ set_entry-set_entry l thread _ _

-- The end of a line.
put_endl-writing :
    (l : FileLogger) (thread : ℕ) (start : List ℕ)
    → put_endl (writing l thread start) thread
      ≡ (line_written l thread (start ++ 10 ∷ []), l.streamloglevel == level_fatal)
unfolding set_entry
put_endl-writing l thread start =
    endl-found (writing l thread start) thread start (entries-set_entry l thread _)
    ∙ ap (λ l'. (l', l.streamloglevel == level_fatal))
        (ap (λ l'. stream_flush l' thread) (set_entry-set_entry l thread _ _)
          ∙ flush-found (writing l thread (start ++ 10 ∷ [])) thread _
              (entries-set_entry l thread _))

end_of_items :
    (l : FileLogger) (thrown : Bool)
    → ◌≡◌ {A = Run (FileLogger × Bool)}
        (if thrown then ok (l, true) else ok (l, false))
        (ok (l, thrown))
end_of_items l true = refl
end_of_items l false = refl

step_over :
    (l : FileLogger) (start a rest : List ℕ) (thread : ℕ)
    → ◌≡◌ {A = Run (FileLogger × Bool)}
        (ok (
          line_written l thread ((start ++ a) ++ (rest ++ 10 ∷ [])),
          l.streamloglevel == level_fatal,
        ))
        (ok (
          line_written l thread (start ++ ((a ++ rest) ++ 10 ∷ [])),
          l.streamloglevel == level_fatal,
        ))
step_over l start a rest thread =
    ap (λ buf. ok (line_written l thread buf, l.streamloglevel == level_fatal))
      (append_assoc start a _ ∙ ap (λ s. start ++ s) (sym (append_assoc a _ _)))

pub put_items-parts :
    (parts : List Item) (l : FileLogger) (thread : ℕ) (start : List ℕ)
    → AreParts parts
    → put_items (writing l thread start) thread (parts ++ endl ∷ [])
      ≡ ok (
        line_written l thread (start ++ (text_of parts ++ 10 ∷ [])),
        l.streamloglevel == level_fatal,
      )
unfolding put_items text_of AreParts
put_items-parts [] l thread start inline =
    rw (put_endl-writing l thread start) (end_of_items _ (l.streamloglevel == level_fatal))
put_items-parts (text a ∷ parts) l thread start inline =
    rw (put_text-writing l thread start a, put_items)
      (put_items-parts parts l thread (start ++ a) inline
        ∙ step_over l start a (text_of parts) thread)
put_items-parts (chars a ∷ parts) l thread start (open_ended, inline) =
    rw (put_chars-writing l thread start a open_ended, put_items)
      (put_items-parts parts l thread (start ++ a) inline
        ∙ step_over l start a (text_of parts) thread)
put_items-parts (endl ∷ parts) l thread start inline = absurd (cc inline)
