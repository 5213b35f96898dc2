-- ===== src/Common/Text.antt =====
-- Go strings as lists of bytes, their equality, and `strings.Split` and `strings.Join` by a
-- separator of one byte, as the source uses them.
use Prim.Native.Nat.{ℕ}
use Prim.Native.Char.{code}
use Prim.Native.String.{String}
use mathlib.Core.Path.{◌≡◌, refl, sym, ap, ◌∙◌}
use mathlib.Core.Logic.{◌≢◌, ◌↔◌, inl, inr}
use mathlib.Core.Bool.{Bool, true, false, ◌&&◌}
use mathlib.Core.List.{List, [], ◌∷◌, ◌++◌}
use native.Mathlib.Omega.{arith}
use authorino.Common.Tests.{==_iff, ◌==◌, ==_refl, Bool-cases}

abbrev pub Bytes : Type 0
Bytes = List ℕ

-- The bytes of an ASCII literal.
abbrev pub codes : String → Bytes
codes String.[] = []
codes (String.◌∷◌ c s) = code c ∷ codes s

-- `a == b` on strings.
unfoldable pub bytes_eq : Bytes → Bytes → Bool
bytes_eq [] [] = true
bytes_eq [] (y ∷ ys) = false
bytes_eq (x ∷ xs) [] = false
bytes_eq (x ∷ xs) (y ∷ ys) = x == y && bytes_eq xs ys

pub bytes_eq_refl : (a : Bytes) → bytes_eq a a ≡ true
unfolding bytes_eq
bytes_eq_refl [] = refl
bytes_eq_refl (x ∷ xs) = ground (arith, bytes_eq_refl xs)

pub bytes_eq_sound : (a b : Bytes) → bytes_eq a b ≡ true → a ≡ b
unfolding bytes_eq
bytes_eq_sound [] [] h = refl
bytes_eq_sound [] (y ∷ ys) h = cc
bytes_eq_sound (x ∷ xs) [] h = cc
bytes_eq_sound (x ∷ xs) (y ∷ ys) h = ground (arith, bytes_eq_sound xs ys)

pub bytes_eq_iff : (a b : Bytes) → (bytes_eq a b ≡ true) ↔ (a ≡ b)
bytes_eq_iff a b = (bytes_eq_sound a b, λ e. rw e (bytes_eq_refl b))

unfoldable pub is_empty : Bytes → Bool
is_empty [] = true
is_empty (x ∷ xs) = false

-- Equality of lists of strings.
unfoldable pub labels_eq : List Bytes → List Bytes → Bool
labels_eq [] [] = true
labels_eq [] (y ∷ ys) = false
labels_eq (x ∷ xs) [] = false
labels_eq (x ∷ xs) (y ∷ ys) = bytes_eq x y && labels_eq xs ys

pub labels_eq_refl : (a : List Bytes) → labels_eq a a ≡ true
unfolding labels_eq
labels_eq_refl [] = refl
labels_eq_refl (x ∷ xs) = ground (arith, labels_eq_refl xs, bytes_eq_refl x)

pub labels_eq_sound : (a b : List Bytes) → labels_eq a b ≡ true → a ≡ b
unfolding labels_eq
labels_eq_sound [] [] h = refl
labels_eq_sound [] (y ∷ ys) h = cc
labels_eq_sound (x ∷ xs) [] h = cc
labels_eq_sound (x ∷ xs) (y ∷ ys) h = ground (arith, labels_eq_sound xs ys, bytes_eq_sound x y)

pub labels_eq_iff : (a b : List Bytes) → (labels_eq a b ≡ true) ↔ (a ≡ b)
labels_eq_iff a b = (labels_eq_sound a b, λ e. rw e (labels_eq_refl b))

-- `strings.Split(s, sep)`: one part more than there are separators.
split_byte : Bool → ℕ → List Bytes → List Bytes
split_byte true c parts = [] ∷ parts
split_byte false c [] = (c ∷ []) ∷ []
split_byte false c (part ∷ parts) = (c ∷ part) ∷ parts

unfoldable pub split : ℕ → Bytes → List Bytes
unfolding split_byte
split sep [] = [] ∷ []
split sep (c ∷ s) = split_byte (c == sep) c (split sep s)

-- `strings.Join(parts, sep)`.
unfoldable pub join : ℕ → List Bytes → Bytes
join sep [] = []
join sep (part ∷ []) = part
join sep (part ∷ next ∷ parts) = part ++ (sep ∷ join sep (next ∷ parts))

abbrev pub NoByte : ℕ → Bytes → Type 0
NoByte sep [] = Unit
NoByte sep (c ∷ s) = ((c == sep) ≡ false) × NoByte sep s

abbrev pub AllNoByte : ℕ → List Bytes → Type 0
AllNoByte sep [] = Unit
AllNoByte sep (part ∷ parts) = NoByte sep part × AllNoByte sep parts

split_byte-AllNoByte :
    (sep c : ℕ) (parts : List Bytes)
    → AllNoByte sep parts
    → AllNoByte sep (split_byte (c == sep) c parts)
unfolding split_byte
split_byte-AllNoByte sep c parts h = elim (Bool-cases (c == sep)) [
  | inl e ↦ rw e (tt, h)
  | inr e ↦ rw e (go parts e h)
]
  where
    go :
        (ps : List Bytes)
        → (c == sep) ≡ false
        → AllNoByte sep ps
        → AllNoByte sep (split_byte false c ps)
    go [] e h = ((e, tt), tt)
    go (p ∷ ps) e h = ((e, h.0), h.1)

-- No part of a split has the separator.
pub split-AllNoByte : (sep : ℕ) (s : Bytes) → AllNoByte sep (split sep s)
unfolding split
split-AllNoByte sep [] = (tt, tt)
split-AllNoByte sep (c ∷ s) = split_byte-AllNoByte sep c (split sep s) (split-AllNoByte sep s)

pub split-ne-nil : (sep : ℕ) (s : Bytes) → split sep s ≢ []
unfolding split
split-ne-nil sep [] e = cc
split-ne-nil sep (c ∷ s) e = go (c == sep) (split sep s) e
  where
    go : (b : Bool) (ps : List Bytes) → split_byte b c ps ≢ []
    go true ps e = cc
    go false [] e = cc
    go false (p ∷ ps) e = cc

split-append : (sep : ℕ) (p s : Bytes) → NoByte sep p → split sep (p ++ (sep ∷ s)) ≡ p ∷ split sep s
unfolding split
split-append sep [] s h = rw (==_refl sep)
split-append sep (c ∷ p) s h = rw h.0 (rw (split-append sep p s h.1))

split-single : (sep : ℕ) (p : Bytes) → NoByte sep p → split sep p ≡ p ∷ []
unfolding split
split-single sep [] h = refl
split-single sep (c ∷ p) h = rw h.0 (rw (split-single sep p h.1))

-- Splitting what was joined gives the parts back.
pub split-join :
    (sep : ℕ) (part : Bytes) (parts : List Bytes)
    → AllNoByte sep (part ∷ parts)
    → split sep (join sep (part ∷ parts)) ≡ part ∷ parts
unfolding join
split-join sep part [] h = split-single sep part h.0
split-join sep part (next ∷ parts) h =
    split-append sep part (join sep (next ∷ parts)) h.0
    ∙ ap (λ (t : List Bytes). part ∷ t) (split-join sep next parts h.1)

join-split_byte :
    (sep c : ℕ) (part : Bytes) (parts : List Bytes)
    → join sep (split_byte (c == sep) c (part ∷ parts)) ≡ c ∷ join sep (part ∷ parts)
unfolding join split_byte
join-split_byte sep c part parts = elim (Bool-cases (c == sep)) [
  | inl e ↦ rw e (ap (λ (t : ℕ). t ∷ join sep (part ∷ parts)) (sym ((==_iff c sep).0 e)))
  | inr e ↦ rw e (joined parts)
]
  where
    joined : (ps : List Bytes) → join sep ((c ∷ part) ∷ ps) ≡ c ∷ join sep (part ∷ ps)
    joined [] = refl
    joined (p ∷ ps) = refl

-- Joining what was split gives the text back.
pub join-split : (sep : ℕ) (s : Bytes) → join sep (split sep s) ≡ s
unfolding split join
join-split sep [] = refl
join-split sep (c ∷ s) = go (split sep s) (split-ne-nil sep s) (join-split sep s)
  where
    go :
        (parts : List Bytes)
        → parts ≢ []
        → join sep parts ≡ s
        → join sep (split_byte (c == sep) c parts) ≡ c ∷ s
    go [] full e = absurd (full refl)
    go (part ∷ parts) full e = join-split_byte sep c part parts ∙ ap (λ (t : Bytes). c ∷ t) e
