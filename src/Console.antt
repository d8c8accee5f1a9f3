-- ===== src/Console.antt =====
-- The case VSYSCALL_PUTCHAR of vsyscall.c: characters are written to file 1, but text between two
-- `$`, the formatting commands of TempleOS, is held back and dropped.
pub mod Spec
pub mod Text
mod Tests
use templeos_loader.Prelude.{
  ℕ, ◌+◌, ◌%◌, ◌^◌, Bool, true, false, Option, none, some, List, [], ◌∷◌, ◌++◌, ◌==◌, ltb,
  if◌then◌else◌, length, set, take, replicate, ◌>>=◌,
}

abbrev pub dollar : ℕ
dollar = b'$'

abbrev pub fmt_buf_size : ℕ
fmt_buf_size = 50

-- The static variables of the case.
pub record Fmt : Type 0 where
  pub fmt_mode : Bool
  pub fmt_buf : List ℕ
  pub fmt_used : ℕ

-- Statics start as zeros.
abbrev pub fmt_start : Fmt
fmt_start = record { fmt_mode = false; fmt_buf = replicate fmt_buf_size 0; fmt_used = 0 }

-- `a[i] = v`, a fault out of the array.
unfoldable pub store : List ℕ → ℕ → ℕ → Option (List ℕ)
store a i v = if ltb i (length a) then some (set a i v) else none

-- A character in a formatting command.
unfoldable pub putchar_fmt : ℕ → Fmt → Option (List ℕ × Fmt)
unfolding store
putchar_fmt c s =
    if c == dollar
    then (do
      buf ← store s.fmt_buf s.fmt_used 0
      some ([], record s { fmt_buf = buf; fmt_mode = false }))
    else (do
      buf ← store s.fmt_buf s.fmt_used c
      let used = s.fmt_used + 1
      if used + 1 == fmt_buf_size
          then some
              (dollar ∷ take used buf, record { fmt_mode = false; fmt_buf = buf; fmt_used = used })
          else some ([], record s { fmt_buf = buf; fmt_used = used }))

-- The bytes written, and the new statics. `arg1` is cut to a byte.
unfoldable pub putchar : ℕ → Fmt → Option (List ℕ × Fmt)
unfolding putchar_fmt
putchar arg1 s =
    let c = arg1 % 2 ^ 8 in
    if s.fmt_mode
    then putchar_fmt c s
    else if c == dollar
    then some ([], record s { fmt_mode = true; fmt_used = 0 })
    else some (c ∷ [], s)

-- The calls for the characters of a text, one after the other.
unfoldable pub putchars : List ℕ → Fmt → Option (List ℕ × Fmt)
unfolding putchar
putchars [] s = some ([], s)
putchars (c ∷ cs) s = do
  (out, s') ← putchar c s
  (rest, s'') ← putchars cs s'
  some (out ++ rest, s'')
