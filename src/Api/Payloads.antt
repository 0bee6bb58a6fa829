-- ===== src/Api/Payloads.antt =====
-- How many of the optional members of an action of api/v1/mdaihub_types.go are there.
use mdai_operator.Prelude.{ℕ, ◌+◌, Option, none, some}
use mdai_operator.Api.Hub.{Action}

abbrev pub one_if {ℓ} : {A : Type ℓ} → Option A → ℕ
one_if none = 0
one_if (some a) = 1

abbrev pub payload_count : Action → ℕ
payload_count a =
    one_if a.add_to_set
    + one_if a.remove_from_set
    + one_if a.set_variable
    + one_if a.add_to_map
    + one_if a.remove_from_map
    + one_if a.call_webhook
    + one_if a.deploy_replay
    + one_if a.clean_up_replay
