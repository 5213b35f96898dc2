-- ===== src/Priorities/Order.antt =====
-- `sort.Ints` as pkg/service/auth_pipeline.go uses it, on numbers of which none is twice.
use authorino.Common.{
  Bool, true, false, ◌||◌, List, [], ◌∷◌, ◌≡◌, inl, inr, refl, ap, ◌∙◌, arith, Bool-cases,
}
use authorino.Common.Int.{ℤ, leb_ℤ, eq_ℤ}
use authorino.Priorities.{insert_int, sort_ints}

unfoldable pub mem_int : ℤ → List ℤ → Bool
mem_int p [] = false
mem_int p (q ∷ qs) = eq_ℤ q p || mem_int p qs

-- Every number of the list is greater.
abbrev pub AllAbove : ℤ → List ℤ → Type 0
AllAbove p [] = Unit
AllAbove p (q ∷ qs) = (leb_ℤ q p ≡ false) × AllAbove p qs

abbrev pub IsAscending : List ℤ → Type 0
IsAscending [] = Unit
IsAscending (p ∷ ps) = AllAbove p ps × IsAscending ps

abbrev pub NoTwice : List ℤ → Type 0
NoTwice [] = Unit
NoTwice (p ∷ ps) = (mem_int p ps ≡ false) × NoTwice ps

above_trans : (a b c : ℤ) → leb_ℤ b a ≡ false → leb_ℤ c b ≡ false → leb_ℤ c a ≡ false
above_trans a b c h k = ground arith

above_of : (a b : ℤ) → leb_ℤ a b ≡ true → eq_ℤ b a ≡ false → leb_ℤ b a ≡ false
above_of a b h k = ground arith

AllAbove-mono : (a b : ℤ) (qs : List ℤ) → leb_ℤ b a ≡ false → AllAbove b qs → AllAbove a qs
AllAbove-mono a b [] h k = tt
AllAbove-mono a b (q ∷ qs) h k = (above_trans a b q h k.0, AllAbove-mono a b qs h k.1)

AllAbove-insert :
    (a p : ℤ) (qs : List ℤ) → leb_ℤ p a ≡ false → AllAbove a qs → AllAbove a (insert_int p qs)
unfolding insert_int
AllAbove-insert a p [] h k = (h, tt)
AllAbove-insert a p (q ∷ qs) h k = elim (Bool-cases (leb_ℤ p q)) [
  | inl e ↦ rw e (h, k)
  | inr e ↦ rw e (k.0, AllAbove-insert a p qs h k.1)
]

IsAscending-insert :
    (p : ℤ) (qs : List ℤ) → mem_int p qs ≡ false → IsAscending qs → IsAscending (insert_int p qs)
unfolding insert_int mem_int
IsAscending-insert p [] n h = (tt, tt)
IsAscending-insert p (q ∷ qs) n h = elim (Bool-cases (leb_ℤ p q)) [
  | inl e ↦
      let above : leb_ℤ q p ≡ false = above_of p q e (ground (arith, n)) in
      rw e ((above, AllAbove-mono p q qs above h.0), h)
  | inr e ↦ rw e (AllAbove-insert q p qs e h.0, IsAscending-insert p qs (ground (arith, n)) h.1)
]

mem-insert : (x p : ℤ) (qs : List ℤ) → mem_int x (insert_int p qs) ≡ (eq_ℤ p x || mem_int x qs)
unfolding insert_int mem_int
mem-insert x p [] = refl
mem-insert x p (q ∷ qs) = ground (arith, mem-insert x p qs)

pub mem-sort : (x : ℤ) (ps : List ℤ) → mem_int x (sort_ints ps) ≡ mem_int x ps
unfolding sort_ints mem_int
mem-sort x [] = refl
mem-sort x (p ∷ ps) =
    mem-insert x p (sort_ints ps) ∙ ap (λ (b : Bool). eq_ℤ p x || b) (mem-sort x ps)

pub IsAscending-sort : (ps : List ℤ) → NoTwice ps → IsAscending (sort_ints ps)
unfolding sort_ints
IsAscending-sort [] h = tt
IsAscending-sort (p ∷ ps) h =
    IsAscending-insert p (sort_ints ps) (mem-sort p ps ∙ h.0) (IsAscending-sort ps h.1)
