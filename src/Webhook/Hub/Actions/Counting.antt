-- ===== src/Webhook/Hub/Actions/Counting.antt =====
-- What `validateAction` makes of the number of payloads that an action holds.
use mathlib.Core.Option
use mdai_operator.Prelude.{
  ◌+◌, ◌≡◌, refl, sym, ◌∙◌, String, List, [], ◌∷◌, Option, none, some, arith, length, present,
}
use mdai_operator.Field.{FieldPath, quoted, FieldError, invalid}
use mdai_operator.Api.{Action, payload_count, one_if}
use mdai_operator.Webhook.External.{Parsers}
use mdai_operator.Webhook.Hub.Actions.{select, candidates, validate_action}

abbrev pub at_least_one : FieldPath → List FieldError
at_least_one path = invalid path (quoted "<action>") "at least one action must be specified" ∷ []

abbrev pub only_one : FieldPath → List FieldError
only_one path = invalid path (quoted "<action>") "only one action may be specified" ∷ []

-- What is found, by the list of what is there.
abbrev pub chosen : FieldPath → List (List FieldError) → List FieldError
chosen path [] = at_least_one path
chosen path (es ∷ []) = es
chosen path (es ∷ fs ∷ rest) = only_one path

found_first : Option (List FieldError) → List (List FieldError) → List (List FieldError)
found_first none rest = rest
found_first (some es) rest = es ∷ rest

select_lem :
    (path : FieldPath) (found : Option (List FieldError)) (os : List (Option (List FieldError)))
    → select path found os ≡ chosen path (found_first found (present os))
unfolding select found_first
select_lem path none [] = refl
select_lem path (some es) [] = refl
select_lem path none (none ∷ os) = select_lem path none os
select_lem path (some es) (none ∷ os) = select_lem path (some es) os
select_lem path none (some fs ∷ os) = select_lem path (some fs) os
select_lem path (some es) (some fs ∷ os) = refl

length-present-cons :
    {A B : Type 0} (f : A → B) (o : Option A) (rest : List (Option B))
    → length (present (Option.map f o ∷ rest)) ≡ one_if o + length (present rest)
length-present-cons f none rest = omega arith
length-present-cons f (some a) rest = omega arith

module _ (parsers : Parsers) (path : FieldPath) (action : Action) (known : List String) where
  length-candidates : length (present (candidates parsers path action known)) ≡ payload_count action
  unfolding candidates
  length-candidates = omega (
    arith,
    length-present-cons _ action.add_to_set _,
    length-present-cons _ action.remove_from_set _,
    length-present-cons _ action.set_variable _,
    length-present-cons _ action.add_to_map _,
    length-present-cons _ action.remove_from_map _,
    length-present-cons _ action.call_webhook _,
    length-present-cons _ action.deploy_replay _,
    length-present-cons _ action.clean_up_replay _,
  )

  length-of-chosen : (found : List (List FieldError)) → chosen path found ≡ [] → length found ≡ 1
  length-of-chosen [] h = cc
  length-of-chosen (es ∷ []) h = refl
  length-of-chosen (es ∷ fs ∷ rest) h = cc

  -- The errors of an action are chosen among the results of the validators of its payloads: without a
  -- payload the only error asks for one, with two or more the only error allows just one, and with
  -- exactly one the errors are those of that payload. There are as many results as payloads.
  pub validate_action-chosen :
      (validate_action parsers path action known
        ≡ chosen path (present (candidates parsers path action known)))
      × (length (present (candidates parsers path action known)) ≡ payload_count action)
  unfolding validate_action found_first
  validate_action-chosen =
      (select_lem path none (candidates parsers path action known), length-candidates)

  -- An action that is accepted holds exactly one payload.
  pub payload_count-accepted :
      validate_action parsers path action known ≡ [] → payload_count action ≡ 1
  unfolding validate_action found_first
  payload_count-accepted h =
      sym length-candidates
      ∙ length-of-chosen _ (sym (select_lem path none (candidates parsers path action known)) ∙ h)
