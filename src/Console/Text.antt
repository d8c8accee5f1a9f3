-- ===== src/Console/Text.antt =====
-- What becomes of a text on the console.
use mathlib.Core.List.{append_assoc}
use templeos_loader.Prelude.{
  ℕ, ◌+◌, ◌<◌, ◌≡◌, ◌≢◌, refl, ap, ◌∙◌, subst, arith, false, none, some, List, [], ◌∷◌, ◌++◌, ◌==◌,
  length, length-append, true,
}
use templeos_loader.Console.{dollar, fmt_buf_size, Fmt, putchars}
use templeos_loader.Console.Spec.{
  Pending, show_char, show, Represents, Shows, IsBytes, putchars-refines,
}

-- The text holds no `$`.
abbrev pub NoDollar : List ℕ → Type 0
NoDollar [] = Unit
NoDollar (c ∷ cs) = (c ≢ dollar) × NoDollar cs

abbrev after : List ℕ → List ℕ × Pending → List ℕ × Pending
after cs (out, p) = (cs ++ out, p)

show-plain : (cs rest : List ℕ) → NoDollar cs → show (cs ++ rest) none ≡ after cs (show rest none)
unfolding show show_char
show-plain [] rest h = refl
show-plain (c ∷ cs) rest h = ground (arith, show-plain cs rest)

show-command :
    (cs held rest : List ℕ)
    → NoDollar cs
    → length held + length cs < 49
    → show (cs ++ dollar ∷ rest) (some held) ≡ show rest none
unfolding show show_char
show-command [] held rest h fits = refl
show-command (c ∷ cs) held rest h fits =
    let longer = length-append held (c ∷ []) in
    let other : (c == dollar) ≡ false = ground arith in
    let free : (length held + 2 == fmt_buf_size) ≡ false = ground arith in
    rw (other, free) (show-command cs (held ++ c ∷ []) rest h.1 (omega arith))

-- A character that is no `$` and not the 49th of its command is held.
show-held :
    (c : ℕ) (held rest : List ℕ)
    → c ≢ dollar
    → length held < 48
    → show (c ∷ rest) (some held) ≡ show rest (some (held ++ c ∷ []))
unfolding show show_char
show-held c held rest ne fits =
    let other : (c == dollar) ≡ false = ground arith in
    let free : (length held + 2 == fmt_buf_size) ≡ false = ground arith in rw (other, free) refl

show-flush :
    (c : ℕ) (held rest : List ℕ)
    → c ≢ dollar
    → length held ≡ 48
    → show (c ∷ rest) (some held) ≡ after (dollar ∷ (held ++ c ∷ [])) (show rest none)
unfolding show show_char
show-flush c held rest ne full =
    let other : (c == dollar) ≡ false = ground arith in
    let filled : (length held + 2 == fmt_buf_size) ≡ true = ground arith in rw (other, filled) refl

show-long :
    (c : ℕ) (cs held rest : List ℕ)
    → NoDollar (c ∷ cs)
    → length held + length cs ≡ 48
    → show (c ∷ (cs ++ rest)) (some held) ≡ after (dollar ∷ (held ++ c ∷ cs)) (show rest none)
show-long c [] held rest h full = show-flush c held rest h.0 (omega arith)
show-long c (d ∷ cs) held rest h full =
    show-held c held (d ∷ (cs ++ rest)) h.0 (omega arith)
    ∙ show-long d cs (held ++ c ∷ []) rest h.1 (omega (arith, length-append held (c ∷ [])))
    ∙ ap (λ t. after (dollar ∷ t) (show rest none)) (append_assoc held (c ∷ []) (d ∷ cs))

show-dollar : (rest : List ℕ) → show (dollar ∷ rest) none ≡ show rest (some [])
unfolding show show_char
show-dollar rest = refl

module _ (plain cmd rest : List ℕ) (s : Fmt) (outside : Represents s none) (quiet : NoDollar plain)
    (one : NoDollar cmd) where
  -- Outside of a command, the calls for a text without `$`, a command `$ … $` of fewer than 49
  -- characters and a rest write the text and then what the rest shows: nothing of the command.
  pub putchars-command :
      length cmd < 49
      → IsBytes (plain ++ dollar ∷ (cmd ++ dollar ∷ rest))
      → Shows (putchars (plain ++ dollar ∷ (cmd ++ dollar ∷ rest)) s) (after plain (show rest none))
  putchars-command fits bytes =
      let shown =
        show-plain plain (dollar ∷ (cmd ++ dollar ∷ rest)) quiet
        ∙ ap (after plain)
            (show-dollar (cmd ++ dollar ∷ rest) ∙ show-command cmd [] rest one (omega arith)) in
      subst (Shows (putchars _ s)) shown (putchars-refines _ s none bytes outside)

-- Outside of a command, the calls for a text without `$`, a `$`, 49 characters that are none and
-- a rest write the text, the `$` and the characters, and then what the rest shows.
pub putchars-long :
    (plain : List ℕ) (c : ℕ) (cs rest : List ℕ) (s : Fmt)
    → Represents s none
    → NoDollar plain
    → NoDollar (c ∷ cs)
    → length cs ≡ 48
    → IsBytes (plain ++ dollar ∷ c ∷ (cs ++ rest))
    → Shows
        (putchars (plain ++ dollar ∷ c ∷ (cs ++ rest)) s)
        (after plain (after (dollar ∷ c ∷ cs) (show rest none)))
putchars-long plain c cs rest s outside quiet one full bytes =
    let shown =
      show-plain plain (dollar ∷ c ∷ (cs ++ rest)) quiet
      ∙ ap (after plain)
          (show-dollar (c ∷ (cs ++ rest)) ∙ show-long c cs [] rest one (omega arith)) in
    subst (Shows (putchars _ s)) shown (putchars-refines _ s none bytes outside)
