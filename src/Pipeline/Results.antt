-- ===== src/Pipeline/Results.antt =====
-- The result of `Evaluate` of pkg/service/auth_pipeline.go, in every interleaving of every phase.
use mathlib.Core.Option.{some-injective}
use authorino.Common.{
  [], ◌∷◌, Bytes, Bool, Option, none, some, Outcome, ok, err, ◌≡◌, ◌⊎◌, inl, inr, refl, ap, sym,
  ◌∙◌,
}
use authorino.Evaluators.{Config, AuthConfig, DenyWithValues, evaluate_conditions, wrap_responses}
use authorino.Group.Loop.{PhaseEnd, run_groups}
use authorino.Pipeline.{
  AuthPipeline, Env, Code, rpc_ok, unauthenticated, permission_denied, AuthResult,
  new_auth_pipeline, get_authorization_json, customize_deny_with,
}
use authorino.Pipeline.Phases.{
  Schedule, metadata_phase, callback_phase, response_phase, grouped, run_identity,
  run_authorization,
}
use authorino.Pipeline.Evaluate.{
  finish_callbacks, respond, deny, authorized_end, ◌>>=◌, initial_result, authorize,
  unauthenticated_end, identified, evaluate,
}
use authorino.Pipeline.Identity.{IdentityEnd}
use authorino.Pipeline.Authorization.{AuthorizationEnd}

bind-some :
    {A B : Type 0} (o : Option A) (f : A → Option B) (b : B)
    → (o >>= f) ≡ some b
    → (a : A) × (o ≡ some a) × (f a ≡ some b)
bind-some none f b h = cc
bind-some (some a) f b h = (a, refl, h)

abbrev pub MetadataEnd : Type 0 → Type 0
MetadataEnd O = PhaseEnd (Config (Unit {0})) O (AuthPipeline O) (Unit {0})

module _ {O : Type 0} (env : Env O) (config : AuthConfig O) (schedule : Schedule O) where
  finish-result :
      (r : AuthResult O) (expired : Bool) (pl : AuthPipeline O)
      (end : AuthResult O × AuthPipeline O)
      → finish_callbacks env config schedule r expired pl ≡ some end
      → end.0 ≡ r
  unfolding finish_callbacks
  finish-result r expired pl end h =
      let (e, _, k) =
        bind-some
          (run_groups (callback_phase env) (grouped config.callback_configs) schedule.callbacks
            expired pl)
          (λ e. some (r, e.state)) end h in
      ap (λ (x : AuthResult O × AuthPipeline O). x.0) (sym (some-injective (r, e.state) end k))

  respond-code :
      (expired : Bool) (pl : AuthPipeline O) (end : AuthResult O × AuthPipeline O)
      → respond env config schedule expired pl ≡ some end
      → end.0.code ≡ rpc_ok
  unfolding respond
  respond-code expired pl end h =
      let (e, _, k) =
        bind-some
          (run_groups (response_phase env) (grouped config.response_configs) schedule.response
            expired pl)
          (λ e.
            let (headers, metadata) = wrap_responses env.header_value e.state.response [] [] in
            finish_callbacks env config schedule
              (record initial_result { headers = headers ∷ []; metadata = metadata }) e.expired
              e.state)
          end h in
      ap (λ (x : AuthResult O). x.code) (finish-result _ e.expired e.state end k)

  customize-code :
      (r : AuthResult O) (v : Option (DenyWithValues O)) (pl : AuthPipeline O)
      → (customize_deny_with env r v pl).code ≡ r.code
  unfolding customize_deny_with
  customize-code r none pl = refl
  customize-code r (some v) pl = refl

  deny-code :
      (r : AuthResult O) (v : Option (DenyWithValues O)) (expired : Bool) (pl : AuthPipeline O)
      (end : AuthResult O × AuthPipeline O)
      → deny env config schedule r v expired pl ≡ some end
      → end.0.code ≡ r.code
  unfolding deny
  deny-code r v expired pl end h =
      ap (λ (x : AuthResult O). x.code) (finish-result _ expired pl end h) ∙ customize-code r v pl

  -- The codes of `Evaluate`'s results, by how the authorization phase ended.
  abbrev pub AuthorizedCode : Option Bytes → Code → Type 0
  AuthorizedCode none c = c ≡ rpc_ok
  AuthorizedCode (some m) c = c ≡ permission_denied

  authorized_end-code :
      (e : AuthorizationEnd O) (end : AuthResult O × AuthPipeline O)
      → authorized_end env config schedule e ≡ some end
      → AuthorizedCode e.returned end.0.code
  unfolding authorized_end
  authorized_end-code e end h = go e.returned h
    where
      go :
          (ret : Option Bytes)
          → ◌≡◌ {A = Option (AuthResult O × AuthPipeline O)}
              (elim ret [
                | none ↦ respond env config schedule e.expired e.state
                | some message ↦
                    deny env config schedule
                      (record initial_result { code = permission_denied; message = message })
                      config.unauthorized
                      e.expired
                      e.state
              ])
              (some end)
          → AuthorizedCode ret end.0.code
      go none h = respond-code e.expired e.state end h
      go (some m) h = deny-code _ config.unauthorized e.expired e.state end h

  -- How the authorization phase of a run ended: it began where the metadata phase left the
  -- pipeline, which in turn began with the given deadline and pipeline.
  abbrev pub AuthorizationRun : Bool → AuthPipeline O → AuthorizationEnd O → Type 0
  AuthorizationRun expired pl e =
      (m : MetadataEnd O) × (run_groups (metadata_phase env) (grouped config.metadata_configs)
          schedule.metadata expired pl
        ≡ some m)
      × (run_authorization env config schedule.authorization m.expired m.state ≡ some e)

  authorize-parts :
      (expired : Bool) (pl : AuthPipeline O) (end : AuthResult O × AuthPipeline O)
      → authorize env config schedule expired pl ≡ some end
      → (e : AuthorizationEnd O) × AuthorizationRun expired pl e
        × AuthorizedCode e.returned end.0.code
  unfolding authorize
  authorize-parts expired pl end h =
      let (m, ran, k) =
        bind-some
          (run_groups (metadata_phase env) (grouped config.metadata_configs) schedule.metadata
            expired pl)
          (λ m.
            run_authorization env config schedule.authorization m.expired m.state
            >>= authorized_end env config schedule)
          end h in
      let (e, run, l) =
        bind-some (run_authorization env config schedule.authorization m.expired m.state)
          (authorized_end env config schedule) end k in
      (e, (m, ran, run), authorized_end-code e end l)

  -- How a run of `Evaluate` ended, by the code of its result: the authorization phase follows where
  -- the identity phase ended.
  abbrev pub IdentifiedCode : IdentityEnd O → Option (Outcome O) → Code → Type 0
  IdentifiedCode i (some (ok obj)) c =
      (e : AuthorizationEnd O) × AuthorizationRun i.expired i.state.0 e
      × AuthorizedCode e.returned c
  IdentifiedCode i _ c = c ≡ unauthenticated

  identified-code :
      (i : IdentityEnd O) (end : AuthResult O × AuthPipeline O)
      → identified env config schedule i ≡ some end
      → IdentifiedCode i i.returned end.0.code
  unfolding identified unauthenticated_end
  identified-code i end h = go i.returned h
    where
      go :
          (ret : Option (Outcome O))
          → ◌≡◌ {A = Option (AuthResult O × AuthPipeline O)}
              (elim ret [
                | none ↦
                    unauthenticated_end env config schedule
                      (env.errors_json i.state.1)
                      i.expired
                      i.state.0
                | some (ok obj) ↦ authorize env config schedule i.expired i.state.0
                | some (err message) ↦
                    unauthenticated_end env config schedule message i.expired i.state.0
              ])
              (some end)
          → IdentifiedCode i ret end.0.code
      go none h = deny-code _ config.unauthenticated i.expired i.state.0 end h
      go (some (ok obj)) h = authorize-parts i.expired i.state.0 end h
      go (some (err message)) h = deny-code _ config.unauthenticated i.expired i.state.0 end h

  -- The conditions of the config as a whole do not let the request be evaluated.
  abbrev pub Unmatched : Type 0
  Unmatched =
      (reason : Bytes) × (evaluate_conditions env.lib config.conditions
          (get_authorization_json env new_auth_pipeline)
        ≡ some reason)

  pub evaluate-parts :
      (expired : Bool) (end : AuthResult O × AuthPipeline O)
      → evaluate env config schedule expired ≡ some end
      → (Unmatched × (end.0.code ≡ rpc_ok))
        ⊎ ((i : IdentityEnd O) × (run_identity env config schedule.identity expired
                new_auth_pipeline
              ≡ some i)
            × IdentifiedCode i i.returned end.0.code)
  unfolding evaluate
  evaluate-parts expired end h =
      go
        (evaluate_conditions env.lib config.conditions
          (get_authorization_json env new_auth_pipeline))
        refl h
    where
      go :
          (c : Option Bytes)
          → evaluate_conditions env.lib config.conditions
              (get_authorization_json env new_auth_pipeline)
            ≡ c
          → ◌≡◌ {A = Option (AuthResult O × AuthPipeline O)}
              (elim c [
                | some reason ↦ some (initial_result, new_auth_pipeline)
                | none ↦
                    run_identity env config schedule.identity expired new_auth_pipeline
                    >>= identified env config schedule
              ])
              (some end)
          → (Unmatched × (end.0.code ≡ rpc_ok))
            ⊎ ((i : IdentityEnd O) × (run_identity env config schedule.identity expired
                    new_auth_pipeline
                  ≡ some i)
                × IdentifiedCode i i.returned end.0.code)
      go (some reason) e h = inl (
        (reason, e),
        ap (λ (x : AuthResult O × AuthPipeline O). x.0.code)
            (sym (some-injective (initial_result, new_auth_pipeline) end h)),
      )
      go none e h =
          let (i, run, k) =
            bind-some (run_identity env config schedule.identity expired new_auth_pipeline)
              (identified env config schedule) end h in
          inr (i, run, identified-code i end k)
