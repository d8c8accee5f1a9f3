-- ===== src/LoadKernel/Split.antt =====
-- The part of a patch table that an import ends at, and the bytes behind that.
use mathlib.Core.List.{append_assoc}
use templeos_loader.Prelude.{
  ℕ, suc, ◌≡◌, refl, arith, ap, ◌∙◌, subst, sym, List, [], ◌∷◌, ◌++◌, CString, length,
}
use templeos_loader.LoadKernel.Memory.{Mem, Holds, NoNul, word}
use templeos_loader.LoadKernel.Table.{
  Use, entry, encode_uses, encode_import, Stop, ending, next_entry, encode_stop, IsStop,
}
use templeos_loader.LoadKernel.Items.{
  Item, plain, imported, absolute, encode_words, encode_items, StartsNamed, AreItems,
}

pub Holds-take : (xs ys : List ℕ) (p : ℕ) (m : Mem) → Holds m p (xs ++ ys) → Holds m p xs
unfolding Holds
Holds-take [] ys p m h = tt
Holds-take (x ∷ xs) ys p m h = (h.0, Holds-take xs ys (suc p) m h.1)

entry-append :
    (etype i : ℕ) (name xs ys : List ℕ)
    → entry etype i name xs ++ ys ≡ entry etype i name (xs ++ ys)
entry-append etype i name xs ys =
    ap (λ (t : List ℕ). etype ∷ word i ++ t) (append_assoc name (0 ∷ xs) ys)

encode_uses-append :
    (us : List Use) (xs ys : List ℕ) → encode_uses us xs ++ ys ≡ encode_uses us (xs ++ ys)
encode_uses-append [] xs ys = refl
encode_uses-append (u ∷ us) xs ys =
    entry-append (suc u.etype_pred) u.place [] (encode_uses us xs) ys
    ∙ ap (entry (suc u.etype_pred) u.place []) (encode_uses-append us xs ys)

pub encode_import-append :
    (c : ℕ) (name : CString) (u : Use) (us : List Use) (xs ys : List ℕ)
    → encode_import c name u us xs ++ ys ≡ encode_import c name u us (xs ++ ys)
encode_import-append c name u us xs ys =
    entry-append (suc u.etype_pred) u.place (suc c ∷ name) (encode_uses us xs) ys
    ∙ ap (entry (suc u.etype_pred) u.place (suc c ∷ name)) (encode_uses-append us xs ys)

-- A table that starts with a name starts as a stop.
pub record Starts (bytes : List ℕ) : Type 0 where
  pub stop : Stop
  pub tail : List ℕ
  pub is_stop : IsStop stop
  pub split : bytes ≡ encode_stop stop ++ tail

entry-Starts :
    (e i c : ℕ) (s name rest : List ℕ)
    → name ≡ suc c ∷ s
    → NoNul name
    → Starts (entry (suc e) i name rest)
unfolding IsStop NoNul
entry-Starts e i c s name rest same nn = record {
  stop = next_entry e i c s;
  tail = rest;
  is_stop = (subst NoNul same nn).1;
  split =
      ap (λ (t : List ℕ). entry (suc e) i t rest) same
      ∙ sym (entry-append (suc e) i (suc c ∷ s) [] rest);
}

pub encode_items-Starts : (is : List Item) → StartsNamed is → AreItems is → Starts (encode_items is)
unfolding AreItems IsStop NoNul
encode_items-Starts [] n ok = record { stop = ending; tail = []; is_stop = tt; split = refl }
encode_items-Starts (plain e ∷ is) n ok =
    entry-Starts e.etype_pred e.word_field n.0 n.1 e.name (encode_items is) n.2 ok.0.0
encode_items-Starts (imported c name u us ∷ is) n ok =
    entry-Starts u.etype_pred u.place c name (suc c ∷ name) (encode_uses us (encode_items is)) refl
      ((λ x. ground arith), ok.0)
encode_items-Starts (absolute name os ∷ is) n ok =
    entry-Starts 19 (length os) n.0 n.1 name (encode_words os (encode_items is)) n.2 ok.0
