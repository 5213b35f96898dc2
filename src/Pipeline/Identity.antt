-- ===== src/Pipeline/Identity.antt =====
-- The identity phase of pkg/service/auth_pipeline.go, in every interleaving of its goroutines.
use mathlib.Core.Path.{subst}
use mathlib.Core.Option.{some-injective}
use authorino.Common.{
  [], ℕ, Bytes, Bool, some, List, Outcome, ok, err, ◌≡◌, refl, ap, arith, length,
}
use authorino.Evaluators.{Config, IdentitySettings, AuthConfig, StringMap, put_config}
use authorino.Group.{Event}
use authorino.Group.Loop.{PhaseEnd}
use authorino.Group.Successes.{Answered}
use authorino.Group.Verdicts.{loop_returned}
use authorino.Pipeline.{AuthPipeline, Env, resolve_extended_properties}
use authorino.Pipeline.Phases.{
  IdentityState, identity_phase, identity_result, identity_extended, identity_failed, run_identity,
  grouped,
}

abbrev pub IdentityEnd : Type 0 → Type 0
IdentityEnd O = PhaseEnd (Config (IdentitySettings O)) O (IdentityState O) (Outcome O)

module _ {O : Type 0} (env : Env O) where
  failed_not_ok :
      (count : ℕ) (s : IdentityState O) (name e : Bytes) (obj : O)
      → (identity_failed env count s name e).1 ≡ some (ok obj)
      → ⊥
  unfolding identity_failed
  failed_not_ok count (pl, errors) name e obj h = ground (arith, h)

  extended_of :
      (count : ℕ) (c : Config (IdentitySettings O)) (given obj : O) (pl : AuthPipeline O)
      (errors : StringMap Bytes) (extended : Outcome O)
      → (identity_extended env count c given pl errors extended).1 ≡ some (ok obj)
      → (given ≡ obj) × ((object : O) × (extended ≡ ok object))
  unfolding identity_extended
  extended_of count c given obj pl errors (err e) h =
      absurd (failed_not_ok count (pl, errors) c.name e obj h)
  extended_of count c given obj pl errors (ok object) h =
      (ground (arith, some-injective (ok given) (ok obj) h), (object, refl))

  -- The pipeline with the object of a config stored, as `ResolveExtendedProperties` sees it.
  abbrev pub Verified : Config (IdentitySettings O) → O → Type 0
  Verified c obj =
      (pl : AuthPipeline O) × (object : O) × (resolve_extended_properties env c
          (record pl { identity = put_config c obj pl.identity })
        ≡ ok object)

  identity_result-Verified :
      (count : ℕ) (c : Config (IdentitySettings O)) (s : IdentityState O) (o : Outcome O) (obj : O)
      → (identity_result env count c s o).1 ≡ some (ok obj)
      → (o ≡ ok obj) × Verified c obj
  unfolding identity_result
  identity_result-Verified count c (pl, errors) (ok given) obj h =
      let stored = record pl { identity = put_config c given pl.identity } in
      let (same, (object, extends)) =
        extended_of count c given obj stored errors (resolve_extended_properties env c stored) h in
      (ap ok same, subst (Verified c) same (pl, object, extends))
  identity_result-Verified count c s (err e) obj h = absurd (failed_not_ok count s c.name e obj h)

  -- In every interleaving in which the identity phase returns an object, the `Call` of some identity
  -- config answered with that object, and its extended properties were resolved without an error on
  -- a pipeline that has the object stored for the config.
  pub identity-Verified :
      (config : AuthConfig O) (schedule : List (List (Event O))) (expired : Bool)
      (pl : AuthPipeline O) (e : IdentityEnd O) (obj : O)
      → run_identity env config schedule expired pl ≡ some e
      → e.returned ≡ some (ok obj)
      → (c : Config (IdentitySettings O)) × Answered e.log c (ok obj) × Verified c obj
  unfolding run_identity
  identity-Verified config schedule expired pl e obj h ret =
      let count = length config.identity_configs in
      let (c, o, s, answered, returned) =
        loop_returned (identity_phase env count) (grouped config.identity_configs) schedule expired
          (pl, []) e (ok obj) h ret in
      let (same, verified) =
        identity_result-Verified count c s o obj (unfold identity_phase in returned) in
      (c, subst (Answered e.log c) same answered, verified)
