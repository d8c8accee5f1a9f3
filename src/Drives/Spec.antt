-- ===== src/Drives/Spec.antt =====
-- The syntax of `--drive`.
use mathlib.Core.List.{append-nil}
use native.Mathlib.Numerals.{add-one}
use templeos_loader.Prelude.{
  ℕ, zero, suc, ◌+◌, ◌≡◌, ◌≢◌, ◌↔◌, ◌⊎◌, refl, ap, ◌∙◌, arith, Option, none, some, [], ◌∷◌, ◌++◌,
  ◌==◌, CString, take, drop, length, Bool-cases, Option-cases, inl, inr,
}
use templeos_loader.Drives.{DriveMapping, comma, strchr, parse_drive}

abbrev pub NoComma : CString → Type 0
NoComma [] = Unit
NoComma (c ∷ s) = (c ≢ comma) × NoComma s

-- `letter,dir` or `letter,dir,writedir`
abbrev pub write_part : Option CString → CString
write_part none = []
write_part (some w) = comma ∷ w

abbrev pub drive_spec : (letter : ℕ) (dir : CString) (writedir : Option CString) → CString
drive_spec letter dir writedir = letter ∷ comma ∷ (dir ++ write_part writedir)

strchr-none : (s : CString) → strchr s comma ≡ none → NoComma s
unfolding strchr
strchr-none [] h = tt
strchr-none (c ∷ s) h = ground (arith, strchr-none s)

strchr-some :
    (s : CString) (i : ℕ)
    → strchr s comma ≡ some i
    → NoComma (take i s) × (take i s ++ comma ∷ drop (suc i) s ≡ s)
unfolding strchr
strchr-some [] i h = absurd (cc)
strchr-some (c ∷ s) zero h = ground arith
strchr-some (c ∷ s) (suc i) h = ground (arith, strchr-some s i)

strchr-NoComma : (s : CString) → NoComma s → strchr s comma ≡ none
unfolding strchr
strchr-NoComma [] h = refl
strchr-NoComma (c ∷ s) h = ground (arith, strchr-NoComma s h.1)

strchr-append : (s t : CString) → NoComma s → strchr (s ++ comma ∷ t) comma ≡ some (length s)
unfolding strchr
strchr-append [] t h = refl
strchr-append (c ∷ s) t h = ground (arith, strchr-append s t h.1)

take-length-append : (s t : CString) → take (length s) (s ++ t) ≡ s
take-length-append [] t = refl
take-length-append (c ∷ s) t = ap (λ (r : CString). c ∷ r) (take-length-append s t)

drop-length-append : (s t : CString) (c : ℕ) → drop (suc (length s)) (s ++ c ∷ t) ≡ t
drop-length-append [] t c = refl
drop-length-append (d ∷ s) t c = drop-length-append s t c

-- The two parts behind the letter.
parts : CString → CString × Option CString
parts dir = elim (strchr dir comma) [
  | none ↦ (dir, none)
  | some i ↦ (take i dir, some (drop (i + 1) dir))
]

parts-write_part :
    (dir : CString) (writedir : Option CString)
    → NoComma dir
    → parts (dir ++ write_part writedir) ≡ (dir, writedir)
unfolding parts
parts-write_part dir none h = rw (append-nil dir) (rw (strchr-NoComma dir h, parts))
parts-write_part dir (some w) h =
    rw (strchr-append dir w h, parts)
      (rw
        (add-one (length dir), take-length-append dir (comma ∷ w), drop-length-append dir w comma))

write_part-parts :
    (dir : CString) → NoComma (parts dir).0 × ((parts dir).0 ++ write_part (parts dir).1 ≡ dir)
unfolding parts
write_part-parts dir = elim (Option-cases (strchr dir comma)) [
  | inl e ↦ rw (e, parts) (strchr-none dir e, append-nil dir)
  | inr (i, e) ↦ rw (e, parts) (rw (add-one i) (strchr-some dir i e))
]

abbrev mapping : ℕ → CString × Option CString → DriveMapping
mapping letter p = record { letter = letter; dir = some p.0; writedir = p.1 }

parse_drive-parts :
    (letter d : ℕ) (dir : CString)
    → letter ≢ comma
    → d ≡ comma
    → parse_drive (letter ∷ d ∷ dir) ≡ some (mapping letter (parts dir))
unfolding parse_drive parts
parse_drive-parts letter d dir ne e = ground arith

parse_drive-bad :
    (c d : ℕ) (s : CString) → (c ≡ comma) ⊎ (d ≢ comma) → parse_drive (c ∷ d ∷ s) ≡ none
unfolding parse_drive
parse_drive-bad c d s bad = ground arith

-- A text parses to a mapping exactly if it is the mapping's text, with a letter that is no comma
-- and a directory without one. The second directory may hold commas.
pub parse_drive_iff :
    (sval : CString) (letter : ℕ) (dir : CString) (writedir : Option CString)
    → (parse_drive sval ≡ some (record { letter = letter; dir = some dir; writedir = writedir }))
      ↔ ((sval ≡ drive_spec letter dir writedir) × (letter ≢ comma) × NoComma dir)
parse_drive_iff sval letter dir writedir = (parsed sval, λ h. accepted h)
  where
    m : DriveMapping
    m = record { letter = letter; dir = some dir; writedir = writedir }

    parsed :
        (s : CString)
        → parse_drive s ≡ some m
        → (s ≡ drive_spec letter dir writedir) × (letter ≢ comma) × NoComma dir
    parsed [] h = absurd (unfold parse_drive in cc)
    parsed (c ∷ []) h = absurd (unfold parse_drive in ground arith)
    parsed (c ∷ d ∷ r) h = elim (Bool-cases (c == comma)) [
      | inl e ↦ absurd (ground (arith, parse_drive-bad c d r))
      | inr e ↦ elim (Bool-cases (d == comma)) [
        | inl e' ↦ ground (arith, parse_drive-parts c d r, write_part-parts r)
        | inr e' ↦ absurd (ground (arith, parse_drive-bad c d r))
      ]
    ]

    accepted :
        (sval ≡ drive_spec letter dir writedir) × (letter ≢ comma) × NoComma dir
        → parse_drive sval ≡ some m
    accepted (e, ne, nc) = rw e (
        parse_drive-parts letter comma (dir ++ write_part writedir) ne refl
        ∙ ap (λ (p : CString × Option CString). some (mapping letter p))
            (parts-write_part dir writedir nc))
