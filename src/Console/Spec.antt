-- ===== src/Console/Spec.antt =====
-- What the console promises: text outside of `$ … $` appears as it is, a command of fewer than 49
-- characters does not appear, and one that reaches 49 appears with its `$`.
use native.Mathlib.Numerals.{add-one}
use templeos_loader.Prelude.{
  ℕ, ◌+◌, ◌%◌, ◌^◌, ◌<◌, ◌≤◌, ◌≡◌, refl, subst, ap, ◌∙◌, arith, true, false, Option, none, some,
  List, [], ◌∷◌, ◌++◌, ◌==◌, if◌then◌else◌, length, length-append, length-set, take-set, set, take,
  ◌>>=◌, Bool-cases, inl, inr,
}
use templeos_loader.Console.{dollar, fmt_buf_size, Fmt, putchar, putchars}

-- A command that is being read, or none.
abbrev pub Pending : Type 0
Pending = Option (List ℕ)

unfoldable pub show_char : ℕ → Pending → List ℕ × Pending
show_char c none = if c == dollar then ([], some []) else (c ∷ [], none)
show_char c (some cmd) =
    if c == dollar
    then ([], none)
    else if length cmd + 2 == fmt_buf_size
    then (dollar ∷ (cmd ++ c ∷ []), none)
    else ([], some (cmd ++ c ∷ []))

unfoldable pub show : List ℕ → Pending → List ℕ × Pending
unfolding show_char
show [] p = ([], p)
show (c ∷ cs) p = let q = show_char c p in let r = show cs q.1 in (q.0 ++ r.0, r.1)

-- The statics stand for a state of the specification: in a command the buffer holds its text,
-- with room for one more character and the NUL.
abbrev pub Represents : Fmt → Pending → Type 0
Represents s none = (s.fmt_mode ≡ false) × (length s.fmt_buf ≡ fmt_buf_size)
Represents s (some cmd) =
    (s.fmt_mode ≡ true)
    × (length s.fmt_buf ≡ fmt_buf_size)
    × (s.fmt_used ≡ length cmd)
    × (length cmd + 2 ≤ fmt_buf_size)
    × (take s.fmt_used s.fmt_buf ≡ cmd)

-- A run that does not fault, writes `out` and ends in a state for `p`.
abbrev pub Shows : Option (List ℕ × Fmt) → List ℕ × Pending → Type 0
Shows r (out, p) = (s : Fmt) × (r ≡ some (out, s)) × Represents s p

putchar-Shows :
    (c : ℕ) (s : Fmt) (p : Pending)
    → c < 2 ^ 8
    → Represents s p
    → Shows (putchar c s) (show_char c p)
unfolding putchar show_char
putchar-Shows c s none h r = elim (Bool-cases (c == dollar)) [
  | inl e ↦ rw e (
    record s { fmt_mode = true; fmt_used = 0 },
    ground arith,
    (refl, r.1, refl, omega arith, refl),
  )
  | inr e ↦ rw e (s, ground arith, r)
]
putchar-Shows c s (some cmd) h (on, size, used, room, held) =
    let fits : s.fmt_used < length s.fmt_buf = omega arith in
    let more : take (s.fmt_used + 1) (set s.fmt_buf s.fmt_used c) ≡ cmd ++ c ∷ [] =
      rw add-one (take-set s.fmt_buf s.fmt_used c fits ∙ ap (λ t. t ++ c ∷ []) held) in
    let longer = length-append cmd (c ∷ []) in
    elim (Bool-cases (c == dollar)) [
      | inl e ↦ rw e (
        record s { fmt_buf = set s.fmt_buf s.fmt_used 0; fmt_mode = false },
        ground arith,
        (refl, length-set s.fmt_buf s.fmt_used 0 ∙ size),
      )
      | inr e ↦ rw e (elim (Bool-cases (length cmd + 2 == fmt_buf_size)) [
        | inl full ↦ rw full (
          record {
            fmt_mode = false;
            fmt_buf = set s.fmt_buf s.fmt_used c;
            fmt_used = s.fmt_used + 1;
          },
          ground arith,
          (refl, length-set s.fmt_buf s.fmt_used c ∙ size),
        )
        | inr free ↦ rw free (
          record s { fmt_buf = set s.fmt_buf s.fmt_used c; fmt_used = s.fmt_used + 1 },
          ground arith,
          (on, length-set s.fmt_buf s.fmt_used c ∙ size, omega arith, ground arith, more),
        )
      ])
    ]

abbrev pub IsBytes : List ℕ → Type 0
IsBytes [] = Unit
IsBytes (c ∷ cs) = (c < 2 ^ 8) × IsBytes cs

-- From statics that stand for a state of the specification, the calls for a text of bytes never
-- write out of `fmt_buf`: they write what the specification shows, and end in its state.
pub putchars-refines :
    (cs : List ℕ) (s : Fmt) (p : Pending)
    → IsBytes cs
    → Represents s p
    → Shows (putchars cs s) (show cs p)
unfolding putchars show
putchars-refines [] s p bytes r = (s, refl, r)
putchars-refines (c ∷ cs) s p bytes r =
    let (s', e, r') = putchar-Shows c s p bytes.0 r in
    let (s'', e', r'') = putchars-refines cs s' (show_char c p).1 bytes.1 r' in
    (s'', rw (e, e', ◌>>=◌), r'')

-- A character from any argument keeps the statics in such a state.
pub putchar-keeps :
    (arg1 : ℕ) (s : Fmt) (p : Pending)
    → Represents s p
    → Shows (putchar arg1 s) (show_char (arg1 % 2 ^ 8) p)
putchar-keeps arg1 s p r =
    subst (λ x. Shows x (show_char (arg1 % 2 ^ 8) p)) same
      (putchar-Shows (arg1 % 2 ^ 8) s p (omega arith) r)
  where
    same : putchar (arg1 % 2 ^ 8) s ≡ putchar arg1 s
    same =
        let twice : arg1 % 2 ^ 8 % 2 ^ 8 ≡ arg1 % 2 ^ 8 = omega arith in unfold putchar in rw twice
