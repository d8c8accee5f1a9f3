-- ===== src/Console/Tests.antt =====
-- The console at concrete texts.
use templeos_loader.Prelude.{ℕ, ◌≡◌, refl, arith, Option, none, some, List, [], text, replicate}
use templeos_loader.Console.{Fmt, fmt_start, putchars}
use templeos_loader.Console.Spec.{Shows, show, Represents, putchars-refines}

abbrev written : Option (List ℕ × Fmt) → List ℕ
written none = []
written (some (out, s)) = out

hides_command : written (putchars (text "a$FG,4$b") fmt_start) ≡ text "ab"
unfolding putchars
hides_command = refl

fmt_start-Represents : Represents fmt_start none
fmt_start-Represents = (refl, refl)

putchars-refines_example : Shows (putchars (text "a$FG,4$b") fmt_start) (text "ab", none)
unfolding show
putchars-refines_example =
    putchars-refines (text "a$FG,4$b") fmt_start none (omega arith) fmt_start-Represents

abbrev xs : List ℕ
xs = replicate 48 b'x'
