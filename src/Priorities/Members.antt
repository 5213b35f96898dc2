-- ===== src/Priorities/Members.antt =====
-- The configs in the groups of `groupAuthConfigsByPriority` of pkg/service/auth_pipeline.go.
use mathlib.Core.Path.{subst}
use mathlib.Core.List.{flatten, Memᴰ}
use mathlib.Core.List.Memᴰ
use authorino.Common.{
  true, List, [], ◌∷◌, map, ◌≡◌, ◌↔◌, inl, inr, refl, ap, sym, ◌∙◌, arith, Bool-cases,
}
use authorino.Common.Int.{ℤ, eq_ℤ, eq_ℤ_iff}
use authorino.Priorities.{group_by_priority}
use authorino.Priorities.Order.{mem_int}
use authorino.Priorities.Groups.{with_priority, some_with, group_by_priority_lem}

module _ {A : Type 0} (priority : A → ℤ) where
  Mem-extend :
      (a c : A) (xs ys : List A) → (Memᴰ a xs → Memᴰ a ys) → Memᴰ a (c ∷ xs) → Memᴰ a (c ∷ ys)
  Mem-extend a c xs ys k (Memᴰ.head e) = Memᴰ.head e
  Mem-extend a c xs ys k (Memᴰ.tail m) = Memᴰ.tail (k m)

  with_priority-Mem :
      (p : ℤ) (a : A) (configs : List A)
      → Memᴰ a (with_priority priority p configs)
      → Memᴰ a configs
  unfolding with_priority
  with_priority-Mem p a [] m = elim m [ ]
  with_priority-Mem p a (c ∷ configs) m = elim (Bool-cases (eq_ℤ (priority c) p)) [
    | inl e ↦
        Mem-extend a c (with_priority priority p configs) configs (with_priority-Mem p a configs)
          (rw e at m)
    | inr e ↦ Memᴰ.tail (with_priority-Mem p a configs (rw e at m))
  ]

  Mem-with_priority :
      (a : A) (configs : List A)
      → Memᴰ a configs
      → Memᴰ a (with_priority priority (priority a) configs)
  unfolding with_priority
  Mem-with_priority a [] m = elim m [ ]
  Mem-with_priority a (c ∷ configs) (Memᴰ.head e) =
      rw
        (ap (λ (x : A). eq_ℤ (priority x) (priority a)) (sym e)
          ∙ (eq_ℤ_iff (priority a) (priority a)).1 refl)
        (Memᴰ.head e)
  Mem-with_priority a (c ∷ configs) (Memᴰ.tail m) =
      elim (Bool-cases (eq_ℤ (priority c) (priority a))) [
        | inl e ↦ rw e (Memᴰ.tail (Mem-with_priority a configs m))
        | inr e ↦ rw e (Mem-with_priority a configs m)
      ]

  Mem-some_with :
      (a : A) (configs : List A) → Memᴰ a configs → some_with priority (priority a) configs ≡ true
  unfolding some_with
  Mem-some_with a [] m = elim m [ ]
  Mem-some_with a (c ∷ configs) (Memᴰ.head e) =
      ground (arith, eq_ℤ_iff (priority c) (priority a), ap priority e)
  Mem-some_with a (c ∷ configs) (Memᴰ.tail m) = ground (arith, Mem-some_with a configs m)

  in_flatten :
      (a : A) (p : ℤ) (ps : List ℤ) (f : ℤ → List A)
      → mem_int p ps ≡ true
      → Memᴰ a (f p)
      → Memᴰ a (flatten (map f ps))
  unfolding mem_int flatten
  in_flatten a p [] f h m = cc
  in_flatten a p (q ∷ ps) f h m = elim (Bool-cases (eq_ℤ q p)) [
    | inl e ↦
        Memᴰ.append_left (flatten (map f ps))
          (subst (λ (x : ℤ). Memᴰ a (f x)) (sym ((eq_ℤ_iff q p).0 e)) m)
    | inr e ↦ Memᴰ.append_right (f q) (in_flatten a p ps f (ground (arith, h, e)) m)
  ]

  out_flatten :
      (a : A) (ps : List ℤ) (f : ℤ → List A) (xs : List A)
      → ((p : ℤ) → Memᴰ a (f p) → Memᴰ a xs)
      → Memᴰ a (flatten (map f ps))
      → Memᴰ a xs
  unfolding flatten
  out_flatten a [] f xs k m = elim m [ ]
  out_flatten a (q ∷ ps) f xs k m = elim (Memᴰ.append_cases (f q) m) [
    | inl h ↦ k q h
    | inr h ↦ out_flatten a ps f xs k h
  ]

  -- The groups hold the configs that were given, each of them and no other.
  pub group_by_priority-Mem :
      (a : A) (configs : List A)
      → Memᴰ a (flatten (group_by_priority priority configs)) ↔ Memᴰ a configs
  group_by_priority-Mem a configs =
      let (ps, same, _, present) = group_by_priority_lem priority configs in
      let f : ℤ → List A = λ p. with_priority priority p configs in
      rw same (
        out_flatten a ps f configs (λ p. with_priority-Mem p a configs),
        λ m.
            in_flatten a (priority a) ps f (present (priority a) ∙ Mem-some_with a configs m)
              (Mem-with_priority a configs m),
      )
