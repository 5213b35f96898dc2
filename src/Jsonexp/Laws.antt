-- ===== src/Jsonexp/Laws.antt =====
-- `All` and `Any` of pkg/jsonexp/expressions.go against their description.
use authorino.Common.{
  Bytes, Bool, true, false, some, List, [], ◌∷◌, ◌++◌, Outcome, ok, err, ◌≡◌, ◌≢◌, ◌⊎◌, inl, inr,
  refl, ap,
}
use authorino.Jsonexp.{JsonLib, Expression, matches, all, any, and_matches, or_matches}

module _ (lib : JsonLib) (json : Bytes) where
  -- Every expression gives `b`.
  abbrev pub AllGive : Bool → List Expression → Type 0
  AllGive b [] = Unit
  AllGive b (e ∷ es) = (matches lib json e ≡ ok b) × AllGive b es

  -- The outcome is `b` if every expression gives `b`, and else that of the first that does not.
  pub data FirstNot (b : Bool) (es : List Expression) (o : Outcome Bool) : Type 0 where
    every : AllGive b es → o ≡ ok b → FirstNot b es o
    first :
        (before : List Expression) (e : Expression) (after : List Expression)
        → es ≡ before ++ (e ∷ after)
        → AllGive b before
        → matches lib json e ≢ ok b
        → o ≡ matches lib json e
        → FirstNot b es o

  later :
      {b : Bool} {es : List Expression} {o : Outcome Bool} (e : Expression)
      → matches lib json e ≡ ok b
      → FirstNot b es o
      → FirstNot b (e ∷ es) o
  later e h (every hs p) = every (h, hs) p
  later e h (first before f after q hs n p) =
      first (e ∷ before) f after (ap (λ (t : List Expression). e ∷ t) q) (h, hs) n p

  decided :
      {b : Bool} (e : Expression) (es : List Expression) {o : Outcome Bool}
      → matches lib json e ≢ ok b
      → o ≡ matches lib json e
      → FirstNot b (e ∷ es) o
  decided e es n p = first [] e es refl tt n p

  all_step :
      (e : Expression) (es : List Expression)
      → ((matches lib json e ≡ ok true)
          × (matches lib json (all (e ∷ es)) ≡ matches lib json (all es)))
        ⊎ ((matches lib json e ≢ ok true) × (matches lib json (all (e ∷ es)) ≡ matches lib json e))
  unfolding all matches
  all_step e es = go (matches lib json e) (matches lib json (all es))
    where
      go :
          (o rest : Outcome Bool)
          → ((o ≡ ok true) × (and_matches (some o) (some rest) ≡ rest))
            ⊎ ((o ≢ ok true) × (and_matches (some o) (some rest) ≡ o))
      go (ok true) (ok b) = inl (refl, refl)
      go (ok true) (err m) = inl (refl, refl)
      go (ok false) rest = inr (λ p. cc, refl)
      go (err m) rest = inr (λ p. cc, refl)

  any_step :
      (e : Expression) (es : List Expression)
      → ((matches lib json e ≡ ok false)
          × (matches lib json (any (e ∷ es)) ≡ matches lib json (any es)))
        ⊎ ((matches lib json e ≢ ok false) × (matches lib json (any (e ∷ es)) ≡ matches lib json e))
  unfolding any matches
  any_step e es = go (matches lib json e) (matches lib json (any es))
    where
      go :
          (o rest : Outcome Bool)
          → ((o ≡ ok false) × (or_matches (some o) (some rest) ≡ rest))
            ⊎ ((o ≢ ok false) × (or_matches (some o) (some rest) ≡ o))
      go (ok false) (ok b) = inl (refl, refl)
      go (ok false) (err m) = inl (refl, refl)
      go (ok true) rest = inr (λ p. cc, refl)
      go (err m) rest = inr (λ p. cc, refl)

  FirstNot-all : (es : List Expression) → FirstNot true es (matches lib json (all es))
  FirstNot-all [] = every tt (unfold all matches in refl)
  FirstNot-all (e ∷ es) = elim (all_step e es) [
    | inl (h, p) ↦ rw p (later e h (FirstNot-all es))
    | inr (n, p) ↦ decided e es n p
  ]

  FirstNot-any : (es : List Expression) → FirstNot false es (matches lib json (any es))
  FirstNot-any [] = every tt (unfold any matches in refl)
  FirstNot-any (e ∷ es) = elim (any_step e es) [
    | inl (h, p) ↦ rw p (later e h (FirstNot-any es))
    | inr (n, p) ↦ decided e es n p
  ]

  -- `All` gives true if all its expressions do, and else the outcome, also an error, of the first
  -- that does not. `Any` gives false if all its expressions do, and else the outcome, also an
  -- error, of the first that does not.
  pub all_any :
      (es : List Expression)
      → FirstNot true es (matches lib json (all es)) × FirstNot false es (matches lib json (any es))
  all_any es = (FirstNot-all es, FirstNot-any es)
