-- ===== src/Service/Decisions.antt =====
-- When `Check` of pkg/service/auth.go lets a request through, and when not.
use mathlib.Core.Option.{some-injective}
use authorino.Common.{
  ℕ, Bytes, Bool, true, false, Option, none, some, ◌≡◌, ◌≢◌, ◌⊎◌, inl, inr, refl, arith, sym,
}
use authorino.RadixTree.{Search, found, panic, out_of_fuel}
use authorino.Evaluators.{AuthConfig, StringMap}
use authorino.Pipeline.{
  AuthPipeline, Code, rpc_ok, unauthenticated, permission_denied, not_found, unavailable,
  AuthResult,
}
use authorino.Pipeline.Phases.{Schedule}
use authorino.Pipeline.Evaluate.{evaluate}
use authorino.Pipeline.Results.{Unmatched}
use authorino.Pipeline.Access.{Granted, access-Granted}
use authorino.Service.{
  Request, CheckResponse, ok_response, denied_response, Server, lookup, lookup_host, respond_result,
  denied, success_response, identify, evaluated, decide, check,
}

module _ {O M : Type 0} (server : Server O M) where
  abbrev pipeline_run :
      Request → AuthConfig O → Schedule O → Bool → Option (AuthResult O × AuthPipeline O)
  pipeline_run req config schedule expired =
      evaluate (server.env (identify server req)) config schedule expired

  ok_code :
      (c : Code) (r : AuthResult O) (hs : StringMap Bytes) (m : Option M)
      → respond_result server c r ≡ ok_response hs m
      → c ≡ rpc_ok
  unfolding respond_result denied
  ok_code rpc_ok r hs m h = refl
  ok_code unauthenticated r hs m h = cc
  ok_code permission_denied r hs m h = cc
  ok_code not_found r hs m h = cc
  ok_code unavailable r hs m h = cc

  denied_code :
      (c code : Code) (r : AuthResult O) (st : ℕ) (hs : StringMap Bytes) (body : Bytes)
      → r.code ≡ c
      → respond_result server c r ≡ denied_response code st hs body
      → (r.code ≡ code) × (code ≢ rpc_ok)
  unfolding respond_result denied success_response
  denied_code rpc_ok code r st hs body e h = cc
  denied_code unauthenticated code r st hs body e h = (cc, λ k. cc)
  denied_code permission_denied code r st hs body e h = (cc, λ k. cc)
  denied_code not_found code r st hs body e h = (cc, λ k. cc)
  denied_code unavailable code r st hs body e h = (cc, λ k. cc)

  evaluated-parts :
      (o : Option (AuthResult O × AuthPipeline O)) (r : CheckResponse M)
      → evaluated server o ≡ some r
      → (end : AuthResult O × AuthPipeline O) × (o ≡ some end)
        × (respond_result server end.0.code end.0 ≡ r)
  unfolding evaluated
  evaluated-parts none r h = cc
  evaluated-parts (some (a, pl)) r h = ((a, pl), refl, some-injective _ r h)

  found-injective : {A : Type 0} (a b : A) → ◌≡◌ {A = Search A} (found a) (found b) → a ≡ b
  found-injective a b h = cc

  check-parts :
      (req : Request) (schedule : Schedule O) (late expired : Bool) (r : CheckResponse M)
      → check server req schedule late expired ≡ found (some r)
      → (c : Option (AuthConfig O)) × (lookup server.index (lookup_host req) ≡ found c)
        × (decide server req schedule late expired c ≡ some r)
  unfolding check
  check-parts req schedule late expired r h = go (lookup server.index (lookup_host req)) refl h
    where
      go :
          (l : Search (Option (AuthConfig O)))
          → lookup server.index (lookup_host req) ≡ l
          → ◌≡◌ {A = Search (Option (CheckResponse M))}
              (elim l [
                | found c ↦ found (decide server req schedule late expired c)
                | panic ↦ panic
                | out_of_fuel ↦ out_of_fuel
              ])
              (found (some r))
          → (c : Option (AuthConfig O)) × (lookup server.index (lookup_host req) ≡ found c)
            × (decide server req schedule late expired c ≡ some r)
      go (found c) e h = (c, e, found-injective _ (some r) h)
      go panic e h = cc
      go out_of_fuel e h = cc

  -- If `Check` answers OK, in any interleaving, then the index has a config for the request's host,
  -- the deadline had not passed when the context was tested, and either the conditions of that
  -- config did not match the request, or the identity phase of the run returned an object with which
  -- some identity config answered and which it could extend, the authorization phase that followed it
  -- in the run returned no failure, and either the deadline passed before that phase ended or each
  -- policy has a worker in it that passed.
  pub check-Granted :
      (req : Request) (schedule : Schedule O) (late expired : Bool) (hs : StringMap Bytes)
      (m : Option M)
      → check server req schedule late expired ≡ found (some (ok_response hs m))
      → (config : AuthConfig O) × (lookup server.index (lookup_host req) ≡ found (some config))
        × (late ≡ false)
        × (Unmatched (server.env (identify server req)) config schedule
            ⊎ Granted (server.env (identify server req)) config schedule expired)
  check-Granted req schedule late expired hs m h =
      let (c, looked, k) = check-parts req schedule late expired (ok_response hs m) h in
      go c late looked k
    where
      go :
          (c : Option (AuthConfig O)) (late' : Bool)
          → lookup server.index (lookup_host req) ≡ found c
          → decide server req schedule late' expired c ≡ some (ok_response hs m)
          → (config : AuthConfig O) × (lookup server.index (lookup_host req) ≡ found (some config))
            × (late' ≡ false)
            × (Unmatched (server.env (identify server req)) config schedule
                ⊎ Granted (server.env (identify server req)) config schedule expired)
      go none late' e k = absurd (unfold decide denied in ground (arith, k))
      go (some config) true e k = absurd (unfold decide denied in ground (arith, k))
      go (some config) false e k =
          let (end, run, answer) =
            evaluated-parts (pipeline_run req config schedule expired) (ok_response hs m)
              (unfold decide in k) in
          (
            config,
            e,
            refl,
            access-Granted (server.env (identify server req)) config schedule expired end run
                (ok_code end.0.code end.0 hs m answer),
          )

  -- If `Check` denies a request, in any interleaving, then the code of the response is not OK, and
  -- it is NOT_FOUND as the index has no config for the host, or UNAVAILABLE as the deadline had
  -- passed when the context was tested, or the code of the result of `Evaluate` on the config that
  -- the index has for the host.
  pub check_denied :
      (req : Request) (schedule : Schedule O) (late expired : Bool) (code : Code) (st : ℕ)
      (hs : StringMap Bytes) (body : Bytes)
      → check server req schedule late expired ≡ found (some (denied_response code st hs body))
      → (code ≢ rpc_ok)
        × (((lookup server.index (lookup_host req) ≡ found none) × (code ≡ not_found))
            ⊎ ((config : AuthConfig O) × (lookup server.index (lookup_host req)
                  ≡ found (some config))
                × (((late ≡ true) × (code ≡ unavailable))
                    ⊎ ((end : AuthResult O × AuthPipeline O) × (evaluate
                            (server.env (identify server req))
                            config
                            schedule
                            expired
                          ≡ some end)
                        × (end.0.code ≡ code)))))
  check_denied req schedule late expired code st hs body h =
      let (c, looked, k) =
        check-parts req schedule late expired (denied_response code st hs body) h in
      go c late looked k
    where
      go :
          (c : Option (AuthConfig O)) (late' : Bool)
          → lookup server.index (lookup_host req) ≡ found c
          → decide server req schedule late' expired c ≡ some (denied_response code st hs body)
          → (code ≢ rpc_ok)
            × (((lookup server.index (lookup_host req) ≡ found none) × (code ≡ not_found))
                ⊎ ((config : AuthConfig O) × (lookup server.index (lookup_host req)
                      ≡ found (some config))
                    × (((late' ≡ true) × (code ≡ unavailable))
                        ⊎ ((end : AuthResult O × AuthPipeline O) × (evaluate
                                (server.env (identify server req))
                                config
                                schedule
                                expired
                              ≡ some end)
                            × (end.0.code ≡ code)))))
      go none late' e k =
          let same : not_found ≡ code = unfold decide denied in ground (arith, k) in
          (λ q. cc, inl (e, sym same))
      go (some config) true e k =
          let same : unavailable ≡ code = unfold decide denied in ground (arith, k) in
          (λ q. cc, inr (config, e, inl (refl, sym same)))
      go (some config) false e k =
          let (end, run, answer) =
            evaluated-parts (pipeline_run req config schedule expired)
              (denied_response code st hs body) (unfold decide in k) in
          let (same, bad) = denied_code end.0.code code end.0 st hs body refl answer in
          (bad, inr (config, e, inr (end, run, same)))
