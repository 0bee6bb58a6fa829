-- ===== src/Controller/Hub/Sync/Total.antt =====
-- ensureVariableSynchronized of internal/controller/hub_adapter.go replies for every hub that the
-- webhook of internal/webhook/v1/mdaihub_webhook.go accepts.
use mdai_operator.Prelude.{
  ◌≡◌, ◌≢◌, refl, sym, ap, ◌∙◌, String, List, [], ◌∷◌, Option, none, some, true, all, is_nil,
  insert,
}
use mdai_operator.Api.{Variable, MdaiHubSpec}
use mdai_operator.Webhook.{Parsers, Accepts}
use mdai_operator.Webhook.Hub.Variables.WellFormed.{is_well_formed}
use mdai_operator.Webhook.Hub.Variables.Accepted.{is_nil-validate_variables}
use mdai_operator.Webhook.Hub.Updates.{validate}
use mdai_operator.Webhook.Hub.Updates.Accepted.{validate-Accepts}
use mdai_operator.Controller.Lifecycle.{ApiError}
use mdai_operator.Controller.Hub.Values.{Attempt, ok, err, panic, Values}
use mdai_operator.Controller.Hub.Env.{Env, Synced}
use mdai_operator.Controller.Hub.Env.Panics.{joins_have_settings, IsReliable, sync-safe}
use mdai_operator.Controller.Hub.Requests.{HubState, HubApi}
use mdai_operator.Controller.Hub.Sync.{
  Encoders, schema_env, write_schema, after_schema, after_values, ensure_variable_synchronized,
}

module _ (hub : HubApi) (encoders : Encoders) (values : Values)
    (encodes : (v : Variable) → encoders.schema_json v ≢ panic) where
  schema_env-safe : (vs : List Variable) (env : Env) → schema_env hub encoders values vs env ≢ panic
  unfolding schema_env
  schema_env-safe [] env = λ p. cc
  schema_env-safe (v ∷ vs) env =
      on_json (encoders.schema_json v) (encodes v)
        (λ json. schema_env-safe vs (insert v.key json env))
    where
      on_json :
          (x : Attempt String)
          → x ≢ panic
          → ((json : String) → schema_env hub encoders values vs (insert v.key json env) ≢ panic)
          → (elim x [
            | ok json ↦ schema_env hub encoders values vs (insert v.key json env)
            | err e ↦ err e
            | panic ↦ panic
          ])
            ≢ panic
      on_json (ok json) h next = next json
      on_json (err e) h next = λ p. cc
      on_json panic h next = λ p. h refl

  after_values-replies :
      (x : Attempt Synced) (s : HubState) → x ≢ panic → after_values hub encoders values x s ≢ none
  unfolding after_values
  after_values-replies (ok synced) s h = λ p. cc
  after_values-replies (err e) s h = λ p. cc
  after_values-replies panic s h = λ p. h refl

  after_schema-replies :
      IsReliable values
      → (vs : List Variable) (r : Option ApiError × HubState) → all joins_have_settings vs ≡ true
      → is_well_formed vs ≡ true
      → after_schema hub encoders values vs r ≢ none
  unfolding after_schema
  after_schema-replies reliable vs (some e, s) h k = λ p. cc
  after_schema-replies reliable vs (none, s) h k =
      after_values-replies _ s (sync-safe values reliable vs _ h k)

  write_schema-replies :
      IsReliable values
      → (vs : List Variable) (x : Attempt Env) (s : HubState) → all joins_have_settings vs ≡ true
      → is_well_formed vs ≡ true
      → x ≢ panic
      → write_schema hub encoders values vs x s ≢ none
  unfolding write_schema
  write_schema-replies reliable vs (ok env) s h k q = after_schema-replies reliable vs _ h k
  write_schema-replies reliable vs (err e) s h k q = λ p. cc
  write_schema-replies reliable vs panic s h k q = λ p. q refl

  well_formed-replies :
      IsReliable values
      → (vs : List Variable) (s : HubState) → all joins_have_settings vs ≡ true
      → is_well_formed vs ≡ true
      → ensure_variable_synchronized hub encoders values vs s ≢ none
  unfolding ensure_variable_synchronized
  well_formed-replies reliable [] s h k = λ p. cc
  well_formed-replies reliable (v ∷ vs) s h k =
      write_schema-replies reliable (v ∷ vs) _ s h k (schema_env-safe (v ∷ vs) [])

  -- Suppose that neither a read of the store nor the encoding of a variable's schema panics, and that
  -- each join has its settings. For the variables of a hub that `Validate` accepts,
  -- ensureVariableSynchronized replies in every state: it does not panic.
  pub accepted-replies :
      IsReliable values
      → (parsers : Parsers) (spec : MdaiHubSpec) (s : HubState) → Accepts (validate parsers spec)
      → all joins_have_settings spec.variables ≡ true
      → ensure_variable_synchronized hub encoders values spec.variables s ≢ none
  accepted-replies reliable parsers spec s h joins =
      let clean = ((validate-Accepts parsers spec).0 h).0 in
      let formed = sym (is_nil-validate_variables spec.variables) ∙ ap is_nil clean in
      well_formed-replies reliable spec.variables s joins formed
