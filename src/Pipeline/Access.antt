-- ===== src/Pipeline/Access.antt =====
-- What the code of the result of `Evaluate` of pkg/service/auth_pipeline.go says about the phases,
-- in every interleaving.
use mathlib.Core.List.{Memᴰ}
use authorino.Common.{
  Bytes, Bool, true, Option, none, some, Outcome, ok, err, ◌≡◌, ◌⊎◌, inl, inr, refl, Bool-cases,
  arith,
}
use authorino.Evaluators.{Config, IdentitySettings, AuthConfig}
use authorino.Group.{Stage}
use authorino.Group.Failures.{Passed}
use authorino.Group.Successes.{Answered}
use authorino.Pipeline.{
  AuthPipeline, Env, Code, rpc_ok, unauthenticated, permission_denied, AuthResult,
  new_auth_pipeline,
}
use authorino.Pipeline.Phases.{Schedule, authorization_phase, run_identity}
use authorino.Pipeline.Evaluate.{evaluate}
use authorino.Pipeline.Identity.{IdentityEnd, Verified, identity-Verified}
use authorino.Pipeline.Authorization.{AuthorizationEnd, authorization_granted, authorization_denied}
use authorino.Pipeline.Results.{
  AuthorizationRun, AuthorizedCode, IdentifiedCode, Unmatched, evaluate-parts,
}

module _ {O : Type 0} (env : Env O) (config : AuthConfig O) (schedule : Schedule O) where
  -- The identity phase of the run returned an object, with which an identity config answered and
  -- whose properties could be extended.
  abbrev pub Authenticated : Bool → IdentityEnd O → Type 0
  Authenticated expired i =
      (obj : O) × (c : Config (IdentitySettings O)) × (run_identity env config schedule.identity
          expired new_auth_pipeline
        ≡ some i)
      × (i.returned ≡ some (ok obj))
      × Answered i.log c (ok obj)
      × Verified env c obj

  -- Each policy of the config has a worker that passed.
  abbrev pub AllPassed : AuthorizationEnd O → Type 0
  AllPassed e =
      (c : Config (Unit {0}))
      → Memᴰ c config.authorization_configs
      → (st : Stage O) × Memᴰ (c, st) e.log × Passed (authorization_phase env) c st

  -- The authorization phase is the one that follows the identity phase in the run.
  abbrev pub Granted : Bool → Type 0
  Granted expired =
      (i : IdentityEnd O) × Authenticated expired i
      × ((e : AuthorizationEnd O) × AuthorizationRun env config schedule i.expired i.state.0 e
          × (e.returned ≡ none)
          × ((e.expired ≡ true) ⊎ AllPassed e))

  returned_none :
      (ret : Option Bytes) (c : Code)
      → AuthorizedCode env config schedule ret c
      → c ≡ rpc_ok
      → ret ≡ none
  returned_none none c h e = refl
  returned_none (some m) c h e = absurd (ground (arith, h, e))

  returned_some :
      (ret : Option Bytes) (c : Code)
      → AuthorizedCode env config schedule ret c
      → c ≡ permission_denied
      → (m : Bytes) × (ret ≡ some m)
  returned_some none c h e = absurd (ground (arith, h, e))
  returned_some (some m) c h e = (m, refl)

  granted_of :
      (late : Bool) (pl : AuthPipeline O) (e : AuthorizationEnd O)
      → AuthorizationRun env config schedule late pl e
      → e.returned ≡ none
      → (e.expired ≡ true) ⊎ AllPassed e
  granted_of late pl e (m, _, run) ret = elim (Bool-cases e.expired) [
    | inl passed ↦ inl passed
    | inr intime ↦
        inr (
          authorization_granted env config schedule.authorization m.expired m.state e run ret
            intime)
  ]

  -- If `Evaluate` ends with the code OK, in any interleaving, then the conditions of the config did
  -- not match the request; or the identity phase of the run returned an object, with which some
  -- identity config answered and which it could extend, and the authorization phase that followed it
  -- in the run returned no failure, and either the deadline passed before that phase ended, or each
  -- policy has a worker in it that ended either with an answer without an error or at conditions
  -- that did not match.
  pub access-Granted :
      (expired : Bool) (end : AuthResult O × AuthPipeline O)
      → evaluate env config schedule expired ≡ some end
      → end.0.code ≡ rpc_ok
      → Unmatched env config schedule ⊎ Granted expired
  access-Granted expired end h code = elim (evaluate-parts env config schedule expired end h) [
    | inl (unmatched, _) ↦ inl unmatched
    | inr (i, run, c) ↦ inr (go i run i.returned refl c)
  ]
    where
      go :
          (i : IdentityEnd O)
          → run_identity env config schedule.identity expired new_auth_pipeline ≡ some i
          → (ret : Option (Outcome O)) → i.returned ≡ ret
          → IdentifiedCode env config schedule i ret end.0.code
          → Granted expired
      go i run none same c = absurd (ground (arith, c, code))
      go i run (some (err e)) same c = absurd (ground (arith, c, code))
      go i run (some (ok obj)) same (e, ran, c) =
          let (conf, answered, verified) =
            identity-Verified env config schedule.identity expired new_auth_pipeline i obj run
              same in
          let ret = returned_none e.returned end.0.code c code in
          (
            i,
            (obj, conf, run, same, answered, verified),
            (e, ran, ret, granted_of i.expired i.state.0 e ran ret),
          )

  -- If `Evaluate` ends with the code PERMISSION_DENIED, in any interleaving, then the identity
  -- phase of the run returned an object, with which some identity config answered and which it could
  -- extend, and in the authorization phase that followed it in the run the `Call` of some policy
  -- answered with an error, which the phase returned.
  pub access_denied :
      (expired : Bool) (end : AuthResult O × AuthPipeline O)
      → evaluate env config schedule expired ≡ some end
      → end.0.code ≡ permission_denied
      → (i : IdentityEnd O) × Authenticated expired i
        × ((e : AuthorizationEnd O) × (message : Bytes) × (c : Config (Unit {0})) × AuthorizationRun
              env config schedule i.expired i.state.0 e
            × (e.returned ≡ some message)
            × Answered e.log c (err message))
  access_denied expired end h code = elim (evaluate-parts env config schedule expired end h) [
    | inl (_, fine) ↦ absurd (ground (arith, fine, code))
    | inr (i, run, c) ↦ go i run i.returned refl c
  ]
    where
      go :
          (i : IdentityEnd O)
          → run_identity env config schedule.identity expired new_auth_pipeline ≡ some i
          → (ret : Option (Outcome O)) → i.returned ≡ ret
          → IdentifiedCode env config schedule i ret end.0.code
          → (i : IdentityEnd O) × Authenticated expired i
            × ((e : AuthorizationEnd O) × (message : Bytes) × (c : Config (Unit {0}))
                × AuthorizationRun env config schedule i.expired i.state.0 e
                × (e.returned ≡ some message)
                × Answered e.log c (err message))
      go i run none same c = absurd (ground (arith, c, code))
      go i run (some (err e)) same c = absurd (ground (arith, c, code))
      go i run (some (ok obj)) same (e, (m, meta, ran), c) =
          let (conf, answered, verified) =
            identity-Verified env config schedule.identity expired new_auth_pipeline i obj run
              same in
          let (message, ret) = returned_some e.returned end.0.code c code in
          let (policy, failed) =
            authorization_denied env config schedule.authorization m.expired m.state e message ran
              ret in
          (
            i,
            (obj, conf, run, same, answered, verified),
            (e, message, policy, (m, meta, ran), ret, failed),
          )

  -- If `Evaluate` ends with the code UNAUTHENTICATED, in any interleaving, then the identity phase
  -- ended and returned no object: it returned an error or no response at all.
  pub access_unauthenticated :
      (expired : Bool) (end : AuthResult O × AuthPipeline O)
      → evaluate env config schedule expired ≡ some end
      → end.0.code ≡ unauthenticated
      → (i : IdentityEnd O) × (run_identity env config schedule.identity expired new_auth_pipeline
          ≡ some i)
        × ((i.returned ≡ none) ⊎ ((message : Bytes) × (i.returned ≡ some (err message))))
  access_unauthenticated expired end h code =
      elim (evaluate-parts env config schedule expired end h) [
        | inl (_, fine) ↦ absurd (ground (arith, fine, code))
        | inr (i, run, c) ↦ (i, run, go i i.returned c)
      ]
    where
      go :
          (i : IdentityEnd O) (ret : Option (Outcome O))
          → IdentifiedCode env config schedule i ret end.0.code
          → (ret ≡ none) ⊎ ((message : Bytes) × (ret ≡ some (err message)))
      go i none c = inl refl
      go i (some (err e)) c = inr (e, refl)
      go i (some (ok obj)) (e, ran, c) = absurd (not_unauthenticated e.returned c)
        where
          not_unauthenticated :
              (ret : Option Bytes) → AuthorizedCode env config schedule ret end.0.code → ⊥
          not_unauthenticated none c = ground (arith, c, code)
          not_unauthenticated (some m) c = ground (arith, c, code)
