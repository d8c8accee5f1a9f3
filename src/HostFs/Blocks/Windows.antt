-- ===== src/HostFs/Blocks/Windows.antt =====
-- Lists of bytes with other bytes stored over some of them.
use mathlib.Core.List.{append-nil}
use templeos_loader.Prelude.{
  ℕ, zero, suc, ◌+◌, ◌-◌, ◌≤◌, ◌≡◌, ◌⊎◌, inl, inr, refl, arith, ap, ◌∙◌, sym, ltb, List, [], ◌∷◌,
  ◌++◌, length, take, drop, length-append, length-take, Bool-cases,
}
use templeos_loader.HostFs.Blocks.{grow, store}

drop-append : (xs ys : List ℕ) (j : ℕ) → drop (length xs + j) (xs ++ ys) ≡ drop j ys
drop-append [] ys j = ap (λ k. drop k ys) (omega arith)
drop-append (x ∷ xs) ys j =
    let next : suc (length xs) + j ≡ suc (length xs + j) = omega arith in
    ap (λ k. drop k (x ∷ xs ++ ys)) next ∙ drop-append xs ys j

drop-nil : (j : ℕ) → drop {A = ℕ} j [] ≡ []
drop-nil zero = refl
drop-nil (suc j) = refl

drop-drop : (n j : ℕ) (xs : List ℕ) → drop j (drop n xs) ≡ drop (n + j) xs
drop-drop zero j xs = ap (λ k. drop k xs) (omega arith)
drop-drop (suc n) j [] = drop-nil j ∙ sym (drop-nil (suc n + j))
drop-drop (suc n) j (x ∷ xs) =
    let next : suc n + j ≡ suc (n + j) = omega arith in
    drop-drop n j xs ∙ ap (λ k. drop k (x ∷ xs)) (sym next)

-- `m` elements from position `k` on.
abbrev pub window : ℕ → ℕ → List ℕ → List ℕ
window k m xs = take m (drop k xs)

take-append : (m : ℕ) (xs ys : List ℕ) → m ≤ length xs → take m (xs ++ ys) ≡ take m xs
take-append zero xs ys h = refl
take-append (suc m) [] ys h = absurd (omega arith)
take-append (suc m) (x ∷ xs) ys h = ap (λ (l : List ℕ). x ∷ l) (take-append m xs ys (omega arith))

pub window-append :
    (k m : ℕ) (xs ys : List ℕ) → k + m ≤ length xs → window k m (xs ++ ys) ≡ window k m xs
window-append zero m xs ys h = take-append m xs ys (omega arith)
window-append (suc k) m [] ys h = absurd (omega arith)
window-append (suc k) m (x ∷ xs) ys h = window-append k m xs ys (omega arith)

take-take : (m n : ℕ) (xs : List ℕ) → m ≤ n → take m (take n xs) ≡ take m xs
take-take zero n xs h = refl
take-take (suc m) zero xs h = absurd (omega arith)
take-take (suc m) (suc n) [] h = refl
take-take (suc m) (suc n) (x ∷ xs) h = ap (λ (l : List ℕ). x ∷ l) (take-take m n xs (omega arith))

window-take : (k m n : ℕ) (xs : List ℕ) → k + m ≤ n → window k m (take n xs) ≡ window k m xs
window-take zero m n xs h = take-take m n xs (omega arith)
window-take (suc k) m zero xs h = absurd (omega arith)
window-take (suc k) m (suc n) [] h = refl
window-take (suc k) m (suc n) (x ∷ xs) h = window-take k m n xs (omega arith)

take-length : (xs : List ℕ) → take (length xs) xs ≡ xs
take-length [] = refl
take-length (x ∷ xs) = ap (λ (l : List ℕ). x ∷ l) (take-length xs)

length-drop : (n : ℕ) (xs : List ℕ) → length (drop n xs) ≡ length xs - n
length-drop zero xs = omega arith
length-drop (suc n) [] = omega arith
length-drop (suc n) (x ∷ xs) = omega (arith, length-drop n xs)

module _ (malloc : ℕ → List ℕ) (given : (n : ℕ) → n ≤ length (malloc n)) where
  abbrev pub stored : List ℕ → ℕ → List ℕ → List ℕ
  stored = store malloc

  abbrev pub grown : List ℕ → ℕ → List ℕ
  grown = grow malloc

  -- A buffer that is long enough stays, and one that is not gets the bytes that it lacks.
  pub grown-cases :
      (buf : List ℕ) (n : ℕ)
      → (extra : List ℕ) × (grown buf n ≡ buf ++ extra) × (n ≤ length buf + length extra)
  grown-cases buf n = elim (Bool-cases (ltb (length buf) n)) [
    | inl short ↦
        let more = length-drop (length buf) (malloc n) in
        (drop (length buf) (malloc n), rw short refl, omega (arith, given n, more))
    | inr long ↦ ([], rw long (sym (append-nil buf)), ground (arith, long))
  ]

  module _ (buf src : List ℕ) (at : ℕ) (fits : at + length src ≤ length buf) where
    abbrev before : List ℕ
    before = take at buf

    abbrev behind : List ℕ
    behind = drop (at + length src) buf

    length-front : length (before ++ src) ≡ at + length src
    length-front = omega (arith, length-append before src, length-take at buf (omega arith))

    -- What was stored is there.
    pub stored-window : window at (length src) (stored buf at src) ≡ src
    stored-window =
        window-append at (length src) (before ++ src) behind (omega (arith, length-front))
        ∙ ap (λ (k : ℕ). take (length src) (drop k (before ++ src))) at_end
        ∙ ap (λ (l : List ℕ). take (length src) l) (drop-append before src 0)
        ∙ take-length src
      where
        at_end : at ≡ length before + 0
        at_end = omega (arith, length-take at buf (omega arith))

    -- What lies before and behind it is as before.
    stored-before : (k m : ℕ) → k + m ≤ at → window k m (stored buf at src) ≡ window k m buf
    stored-before k m h =
        window-append k m (before ++ src) behind (omega (arith, length-front))
        ∙ window-append k m before src (omega (arith, length-take at buf (omega arith)))
        ∙ window-take k m at buf h

    stored-behind :
        (k m : ℕ) → at + length src ≤ k → window k m (stored buf at src) ≡ window k m buf
    stored-behind k m h =
        let j = k - (at + length src) in
        let start : k ≡ length (before ++ src) + j = omega (arith, length-front) in
        let back : at + length src + j ≡ k = omega arith in
        ap (λ i. take m (drop i (stored buf at src))) start
        ∙ ap (λ (l : List ℕ). take m l)
            (drop-append (before ++ src) behind j ∙ drop-drop (at + length src) j buf)
        ∙ ap (λ i. take m (drop i buf)) back

    pub stored-other :
        (k m : ℕ)
        → (k + m ≤ at) ⊎ (at + length src ≤ k)
        → window k m (stored buf at src) ≡ window k m buf
    stored-other k m (inl h) = stored-before k m h
    stored-other k m (inr h) = stored-behind k m h

    pub length-stored : length (stored buf at src) ≡ length buf
    length-stored = omega (
      arith,
      length-append (before ++ src) behind,
      length-front,
      length-drop (at + length src) buf,
    )
