-- ===== src/Priorities/Groups.antt =====
-- `groupAuthConfigsByPriority` of pkg/service/auth_pipeline.go against its description.
use mathlib.Core.Path.{subst, ap₂}
use mathlib.Core.List.{append-nil, append_assoc}
use authorino.Common.{
  Bool, false, ◌||◌, List, [], ◌∷◌, ◌++◌, map, ◌≡◌, inl, inr, refl, sym, ◌∙◌, arith, Bool-cases,
  if◌then◌else◌,
}
use authorino.Common.Int.{ℤ, eq_ℤ, eq_ℤ_iff}
use authorino.Priorities.{
  configs_at, has_priority, add_config, sort_ints, collect, group_by_priority,
}
use authorino.Priorities.Order.{mem_int, IsAscending, NoTwice, mem-sort, IsAscending-sort}

mem-append : (x : ℤ) (ps : List ℤ) (p : ℤ) → mem_int x (ps ++ (p ∷ [])) ≡ (mem_int x ps || eq_ℤ p x)
unfolding mem_int
mem-append x [] p = ground arith
mem-append x (q ∷ ps) p = ground (arith, mem-append x ps p)

NoTwice-append :
    (ps : List ℤ) (p : ℤ) → NoTwice ps → mem_int p ps ≡ false → NoTwice (ps ++ (p ∷ []))
unfolding mem_int
NoTwice-append [] p h k = (refl, tt)
NoTwice-append (q ∷ ps) p h k = (
  ground (arith, mem-append q ps p, h.0, k, eq_ℤ_iff q p, eq_ℤ_iff p q),
  NoTwice-append ps p h.1 (ground (arith, k)),
)

module _ {A : Type 0} (priority : A → ℤ) where
  -- The configs with a priority, in their order.
  unfoldable pub with_priority : ℤ → List A → List A
  with_priority p [] = []
  with_priority p (a ∷ configs) =
      let rest = with_priority p configs in if eq_ℤ (priority a) p then a ∷ rest else rest

  unfoldable pub some_with : ℤ → List A → Bool
  some_with p [] = false
  some_with p (a ∷ configs) = eq_ℤ (priority a) p || some_with p configs

  with_priority-append :
      (p : ℤ) (xs : List A) (a : A)
      → with_priority p (xs ++ (a ∷ []))
        ≡ (if eq_ℤ (priority a) p then with_priority p xs ++ (a ∷ []) else with_priority p xs)
  unfolding with_priority
  with_priority-append p [] a = refl
  with_priority-append p (x ∷ xs) a = ground (arith, with_priority-append p xs a)

  some_with-append :
      (p : ℤ) (xs : List A) (a : A)
      → some_with p (xs ++ (a ∷ [])) ≡ (some_with p xs || eq_ℤ (priority a) p)
  unfolding some_with
  some_with-append p [] a = ground arith
  some_with-append p (x ∷ xs) a = ground (arith, some_with-append p xs a)

  has_priority-add :
      (p q : ℤ) (a : A) (m : List (ℤ × List A))
      → has_priority p (add_config q a m) ≡ (has_priority p m || eq_ℤ q p)
  unfolding has_priority add_config
  has_priority-add p q a [] = ground arith
  has_priority-add p q a ((r, configs) ∷ m) = ground (arith, has_priority-add p q a m, eq_ℤ_iff r q)

  configs_at-add :
      (p q : ℤ) (a : A) (m : List (ℤ × List A))
      → configs_at p (add_config q a m)
        ≡ (if eq_ℤ q p then configs_at p m ++ (a ∷ []) else configs_at p m)
  unfolding configs_at add_config
  configs_at-add p q a [] = refl
  configs_at-add p q a ((r, configs) ∷ m) =
      ground (arith, configs_at-add p q a m, eq_ℤ_iff r q, eq_ℤ_iff q p)

  -- What the loop over the configs has made of those before.
  record Collected (done : List A) (m : List (ℤ × List A)) (ps : List ℤ) : Type 0 where
    at_priority : (p : ℤ) → configs_at p m ≡ with_priority p done
    known : (p : ℤ) → has_priority p m ≡ mem_int p ps
    present : (p : ℤ) → mem_int p ps ≡ some_with p done
    once : NoTwice ps

  Collected-add :
      (done : List A) (a : A) (m : List (ℤ × List A)) (ps : List ℤ)
      → Collected done m ps
      → Collected
          (done ++ (a ∷ []))
          (add_config (priority a) a m)
          (if has_priority (priority a) m then ps else ps ++ (priority a ∷ []))
  Collected-add done a m ps v = elim (Bool-cases (has_priority (priority a) m)) [
    | inl e ↦ rw e (record {
      at_priority = λ p. ground (
        arith,
        configs_at-add p (priority a) a m,
        v.at_priority p,
        with_priority-append p done a,
      );
      known = λ p.
          ground
            (arith, has_priority-add p (priority a) a m, v.known p, e, eq_ℤ_iff (priority a) p);
      present = λ p.
          ground
            (arith, v.present p, v.known p, e, some_with-append p done a, eq_ℤ_iff (priority a) p);
      once = v.once;
    })
    | inr e ↦ rw e (record {
      at_priority = λ p. ground (
        arith,
        configs_at-add p (priority a) a m,
        v.at_priority p,
        with_priority-append p done a,
      );
      known = λ p.
          ground
            (arith, has_priority-add p (priority a) a m, v.known p, mem-append p ps (priority a));
      present =
          λ p. ground (arith, v.present p, mem-append p ps (priority a), some_with-append p done a);
      once = NoTwice-append ps (priority a) v.once (sym (v.known (priority a)) ∙ e);
    })
  ]

  Collected-collect :
      (done rest : List A) (m : List (ℤ × List A)) (ps : List ℤ)
      → Collected done m ps
      → let (n, qs) = collect priority rest m ps in Collected (done ++ rest) n qs
  unfolding collect
  Collected-collect done [] m ps v = rw append-nil v
  Collected-collect done (a ∷ rest) m ps v =
      let added = Collected-add done a m ps v in
      subst
        (λ (xs : List A).
          let (n, qs) =
            collect priority rest (add_config (priority a) a m)
              (if has_priority (priority a) m then ps else ps ++ (priority a ∷ [])) in
          Collected xs n qs)
        (append_assoc done (a ∷ []) rest) (Collected-collect (done ++ (a ∷ [])) rest _ _ added)

  Collected-start : Collected [] [] []
  unfolding configs_at with_priority has_priority mem_int some_with
  Collected-start = record {
    at_priority = λ p. refl;
    known = λ p. refl;
    present = λ p. refl;
    once = tt;
  }

  map-same : {B : Type 0} (f g : ℤ → B) (ps : List ℤ) → ((p : ℤ) → f p ≡ g p) → map f ps ≡ map g ps
  map-same f g [] h = refl
  map-same f g (p ∷ ps) h = ap₂ (λ x y. x ∷ y) (h p) (map-same f g ps h)

  -- The groups of configs are those of the distinct priorities of the configs in ascending order,
  -- and the group of a priority is all the configs that have it, in the order they are listed.
  pub group_by_priority_lem :
      (configs : List A)
      → (ps : List ℤ) × (group_by_priority priority configs ≡ map (λ p. with_priority p configs) ps)
        × IsAscending ps
        × ((p : ℤ) → mem_int p ps ≡ some_with p configs)
  unfolding group_by_priority
  group_by_priority_lem configs =
      let (m, ps) = collect priority configs [] [] in
      let v = Collected-collect [] configs [] [] Collected-start in
      (
        sort_ints ps,
        map-same (λ p. configs_at p m) (λ p. with_priority p configs) (sort_ints ps) v.at_priority,
        IsAscending-sort ps v.once,
        λ p. mem-sort p ps ∙ v.present p,
      )
