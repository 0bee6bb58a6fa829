-- ===== src/Controller/Events/Commands.antt =====
-- How many commands the actions of a rule become.
use mdai_operator.Prelude.{
  ℕ, suc, ◌+◌, ◌≤◌, ◌≡◌, refl, String, List, [], ◌∷◌, ◌++◌, Option, none, some, arith, length,
  length-append, All,
}
use mdai_operator.Api.{Action, payload_count, one_if}
use mdai_operator.Controller.Events.{
  Payload, Command, CommandType, set_payload, scalar_payload, map_payload, webhook_payload,
  deploy_payload, clean_up_payload, var_set_add, var_set_remove, var_scalar_update, var_map_add,
  var_map_remove, webhook_call, deploy_replay, clean_up_replay, Result, ok, append_cmd,
  append_action, check_progress, append_actions, transform_then_to_commands,
}

module _ (marshal : Payload → Result String)
    (total : (p : Payload) → (text : String) × (marshal p ≡ ok text)) where
  -- The result is a list of commands of the given length.
  abbrev Yields : ℕ → Result (List Command) → Type 0
  Yields n r = (cmds : List Command) × (r ≡ ok cmds) × (length cmds ≡ n)

  append_cmd-Yields :
      {A : Type 0} (type : CommandType) (payload : A → Payload) (o : Option A) (cmds : List Command)
      → Yields (length cmds + one_if o) (append_cmd marshal type payload o cmds)
  unfolding append_cmd
  append_cmd-Yields type payload none cmds = (cmds, refl, omega arith)
  append_cmd-Yields type payload (some a) cmds =
      let (text, h) = total (payload a) in
      let added : List Command = record { type = type; inputs = text } ∷ [] in
      (cmds ++ added, rw h refl, omega (arith, length-append cmds added))

  append_action-Yields :
      (a : Action) (cmds : List Command)
      → Yields (length cmds + payload_count a) (append_action marshal a cmds)
  unfolding append_action
  append_action-Yields a cmds =
      let (c1, e1, n1) = append_cmd-Yields var_set_add set_payload a.add_to_set cmds in
      let (c2, e2, n2) = append_cmd-Yields var_set_remove set_payload a.remove_from_set c1 in
      let (c3, e3, n3) = append_cmd-Yields var_scalar_update scalar_payload a.set_variable c2 in
      let (c4, e4, n4) = append_cmd-Yields var_map_add map_payload a.add_to_map c3 in
      let (c5, e5, n5) = append_cmd-Yields var_map_remove map_payload a.remove_from_map c4 in
      let (c6, e6, n6) = append_cmd-Yields webhook_call webhook_payload a.call_webhook c5 in
      let (c7, e7, n7) = append_cmd-Yields deploy_replay deploy_payload a.deploy_replay c6 in
      let (c8, e8, n8) = append_cmd-Yields clean_up_replay clean_up_payload a.clean_up_replay c7 in
      (
        c8,
        rw e1 (rw e2 (rw e3 (rw e4 (rw e5 (rw e6 (rw e7 e8)))))),
        omega (arith, n1, n2, n3, n4, n5, n6, n7, n8),
      )

  check_progress-grown :
      (i start : ℕ) (cmds : List Command)
      → suc start ≤ length cmds
      → check_progress marshal i start cmds ≡ ok cmds
  unfolding check_progress
  check_progress-grown i start cmds h = ground arith

  abbrev pub total_count : List Action → ℕ
  total_count [] = 0
  total_count (a ∷ actions) = payload_count a + total_count actions

  append_actions-Yields :
      (i : ℕ) (actions : List Action) (cmds : List Command)
      → All (λ a. 1 ≤ payload_count a) actions
      → Yields (length cmds + total_count actions) (append_actions marshal i actions cmds)
  unfolding append_actions
  append_actions-Yields i [] cmds h = (cmds, refl, omega arith)
  append_actions-Yields i (a ∷ actions) cmds h =
      let (cs, e, n) = append_action-Yields a cmds in
      let (ds, e', m) = append_actions-Yields (suc i) actions cs h.1 in
      (
        ds,
        rw e (rw (check_progress-grown i (length cmds) cs (omega (arith, n, h.0))) e'),
        omega (arith, n, m),
      )

  -- If every payload can be encoded and every action holds a payload, then the actions become commands
  -- without an error, as many as they hold payloads.
  pub transform_then-total :
      (actions : List Action)
      → All (λ a. 1 ≤ payload_count a) actions
      → (cmds : List Command) × (transform_then_to_commands marshal actions ≡ ok cmds)
        × (length cmds ≡ total_count actions)
  unfolding transform_then_to_commands
  transform_then-total actions h =
      let (cmds, e, n) = append_actions-Yields 0 actions [] h in (cmds, e, omega (arith, n))
