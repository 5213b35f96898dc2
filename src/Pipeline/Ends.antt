-- ===== src/Pipeline/Ends.antt =====
-- `Evaluate` of pkg/service/auth_pipeline.go can always end.
use authorino.Common.{
  length, Option-cases, inl, inr, Bytes, Bool, Option, none, some, List, [], ◌∷◌, Outcome, ok, err,
  ◌≡◌, refl, ap, ◌∙◌,
}
use authorino.Evaluators.{AuthConfig, DenyWithValues, evaluate_conditions, wrap_responses}
use authorino.Group.{Event}
use authorino.Group.Completion.{loop_completes}
use authorino.Pipeline.{
  AuthPipeline, Env, permission_denied, AuthResult, new_auth_pipeline, get_authorization_json,
  customize_deny_with,
}
use authorino.Pipeline.Phases.{
  Schedule, identity_phase, metadata_phase, authorization_phase, response_phase, callback_phase,
  grouped, run_identity, run_authorization,
}
use authorino.Pipeline.Evaluate.{
  ◌>>=◌, initial_result, finish_callbacks, respond, deny, authorized_end, authorize,
  unauthenticated_end, identified, evaluate,
}
use authorino.Pipeline.Identity.{IdentityEnd}
use authorino.Pipeline.Authorization.{AuthorizationEnd}

module _ {O : Type 0} (env : Env O) (config : AuthConfig O) (o : Outcome O) where
  abbrev Result : Type 0
  Result = AuthResult O × AuthPipeline O

  -- The steps of the last two phases of a schedule replaced.
  abbrev late : Schedule O → List (List (Event O)) → List (List (Event O)) → Schedule O
  late sched rs cs = record sched { response = rs; callbacks = cs }

  finish_ends :
      (sched : Schedule O) (r : AuthResult O) (expired : Bool) (pl : AuthPipeline O)
      → (cs : List (List (Event O))) × (end : Result) × (finish_callbacks env config
            (record sched { callbacks = cs })
            r
            expired
            pl
          ≡ some end)
  unfolding finish_callbacks
  finish_ends sched r expired pl =
      let (cs, e, h) =
        loop_completes (callback_phase env) o (grouped config.callback_configs) expired pl in
      (cs, (r, e.state), ap (λ x. x >>= (λ e. some (r, e.state))) h)

  respond_ends :
      (sched : Schedule O) (expired : Bool) (pl : AuthPipeline O)
      → (rs cs : List (List (Event O))) × (end : Result) × (respond env config
            (late sched rs cs)
            expired
            pl
          ≡ some end)
  unfolding respond
  respond_ends sched expired pl =
      let (rs, e, h) =
        loop_completes (response_phase env) o (grouped config.response_configs) expired pl in
      let (headers, metadata) = wrap_responses env.header_value e.state.response [] [] in
      let (cs, end, k) =
        finish_ends (record sched { response = rs })
          (record initial_result { headers = headers ∷ []; metadata = metadata }) e.expired
          e.state in
      (
        rs,
        cs,
        end,
        ap
              (λ x. x >>= (λ e.
                let (headers, metadata) = wrap_responses env.header_value e.state.response [] [] in
                finish_callbacks env config (late sched rs cs)
                  (record initial_result { headers = headers ∷ []; metadata = metadata }) e.expired
                  e.state))
              h
            ∙ k,
      )

  deny_ends :
      (sched : Schedule O) (r : AuthResult O) (v : Option (DenyWithValues O)) (expired : Bool)
      (pl : AuthPipeline O)
      → (rs cs : List (List (Event O))) × (end : Result) × (deny env config
            (late sched rs cs)
            r
            v
            expired
            pl
          ≡ some end)
  unfolding deny
  deny_ends sched r v expired pl =
      let (cs, end, h) = finish_ends sched (customize_deny_with env r v pl) expired pl in
      (sched.response, cs, end, h)

  authorized_ends :
      (sched : Schedule O) (e : AuthorizationEnd O)
      → (rs cs : List (List (Event O))) × (end : Result) × (authorized_end env config
            (late sched rs cs)
            e
          ≡ some end)
  unfolding authorized_end respond
  authorized_ends sched e = elim (Option-cases e.returned) [
    | inl none_eq ↦
        let (rs, cs, end, h) = respond_ends sched e.expired e.state in
        (rs, cs, end, rw (none_eq, authorized_end) h)
    | inr (message, some_eq) ↦
        let (rs, cs, end, h) =
          deny_ends sched (record initial_result { code = permission_denied; message = message })
            config.unauthorized e.expired e.state in
        (rs, cs, end, rw (some_eq, authorized_end) h)
  ]

  authorize_ends :
      (sched : Schedule O) (expired : Bool) (pl : AuthPipeline O)
      → (sched' : Schedule O) × (end : Result) × (sched'.identity ≡ sched.identity)
        × (authorize env config sched' expired pl ≡ some end)
  unfolding authorize run_authorization
  authorize_ends sched expired pl =
      let (ms, m, h) =
        loop_completes (metadata_phase env) o (grouped config.metadata_configs) expired pl in
      let (xs, e, k) =
        loop_completes (authorization_phase env) o (grouped config.authorization_configs) m.expired
          m.state in
      let (rs, cs, end, l) =
        authorized_ends (record sched { metadata = ms; authorization = xs }) e in
      let sched' : Schedule O = record sched {
        metadata = ms;
        authorization = xs;
        response = rs;
        callbacks = cs;
      } in
      (
        sched',
        end,
        refl,
        ap
              (λ x. x >>= (λ m.
                run_authorization env config xs m.expired m.state
                >>= authorized_end env config sched'))
              h
            ∙ ap (λ x. x >>= authorized_end env config sched') k
            ∙ l,
      )

  identified_ends :
      (sched : Schedule O) (i : IdentityEnd O)
      → (sched' : Schedule O) × (end : Result) × (sched'.identity ≡ sched.identity)
        × (identified env config sched' i ≡ some end)
  unfolding identified unauthenticated_end
  identified_ends sched i = go i.returned refl
    where
      denied :
          (message : Bytes)
          → (sched' : Schedule O) × (end : Result) × (sched'.identity ≡ sched.identity)
            × (unauthenticated_end env config sched' message i.expired i.state.0 ≡ some end)
      denied message =
          let (rs, cs, end, h) = deny_ends sched _ config.unauthenticated i.expired i.state.0 in
          (late sched rs cs, end, refl, h)

      go :
          (ret : Option (Outcome O))
          → i.returned ≡ ret
          → (sched' : Schedule O) × (end : Result) × (sched'.identity ≡ sched.identity)
            × (identified env config sched' i ≡ some end)
      go none e = rw (e, identified) (denied (env.errors_json i.state.1))
      go (some (err message)) e = rw (e, identified) (denied message)
      go (some (ok obj)) e = rw (e, identified) (authorize_ends sched i.expired i.state.0)

  -- Whatever the config, the deadline and an outcome for the calls that are made, there is an
  -- interleaving in which `Evaluate` ends with a result.
  pub evaluate_ends :
      (expired : Bool)
      → (schedule : Schedule O) × (end : Result) × (evaluate env config schedule expired ≡ some end)
  unfolding evaluate run_identity
  evaluate_ends expired =
      let (is, i, h) =
        loop_completes (identity_phase env (length config.identity_configs)) o
          (grouped config.identity_configs) expired (new_auth_pipeline, []) in
      let none_sched : Schedule O = record {
        identity = is;
        metadata = [];
        authorization = [];
        response = [];
        callbacks = [];
      } in
      let (sched, end, same, k) = identified_ends none_sched i in
      let run : run_identity env config sched.identity expired new_auth_pipeline ≡ some i =
        ap (λ (x : List (List (Event O))). run_identity env config x expired new_auth_pipeline) same
        ∙ h in
      go sched
        (evaluate_conditions env.lib config.conditions
          (get_authorization_json env new_auth_pipeline))
        (end, ap (λ x. x >>= identified env config sched) run ∙ k)
    where
      go :
          (sched : Schedule O) (c : Option Bytes)
          → ((end : Result) × ((run_identity env config sched.identity expired new_auth_pipeline
                  >>= identified env config sched)
                ≡ some end))
          → (schedule : Schedule O) × (end : Result) × ◌≡◌ {A = Option Result}
              (elim c [
                | some reason ↦ some (initial_result, new_auth_pipeline)
                | none ↦
                    run_identity env config schedule.identity expired new_auth_pipeline
                    >>= identified env config schedule
              ])
              (some end)
      go sched none (end, h) = (sched, end, h)
      go sched (some reason) h = (sched, _, refl)
