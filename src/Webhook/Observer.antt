-- ===== src/Webhook/Observer.antt =====
-- internal/webhook/v1/mdaiobserver_webhook.go
use Prim.Native.String
use mdai_operator.Prelude.{
  String, List, [], ◌∷◌, ◌++◌, Option, none, some, Bool, true, false, ◌&&◌, ◌≡◌, refl, ◌↔◌, arith,
  is_nil, all, if◌then◌else◌, not,
}
use mdai_operator.Api.{MdaiObserver, Observer}
use mdai_operator.Webhook.Verdicts.{Verdict, Accepts}

pub data ObserverError : Type 0 where
  no_metric_name : (observer : String) → ObserverError

unfoldable pub is_absent : Option String → Bool
is_absent none = true
is_absent (some s) = false

label_warnings : Observer → List String
label_warnings o =
    if is_nil o.label_resource_attributes
    then String.◌++◌ "observer "
        (String.◌++◌ o.name " does not define any labels to apply to counts")
      ∷ []
    else []

-- The loop over the observers, on the warnings so far.
unfoldable pub check_observers : List String → List Observer → Verdict ObserverError
unfolding is_absent label_warnings
check_observers warnings [] = record { warnings = warnings; error = none }
check_observers warnings (o ∷ os) =
    let rest = check_observers (warnings ++ label_warnings o) os in
    if is_absent o.bytes_metric_name && is_absent o.count_metric_name
    then record { warnings = warnings; error = some (no_metric_name o.name) }
    else rest

resource_warnings : MdaiObserver → List String
resource_warnings observer =
    if observer.has_resources
    then []
    else String.◌++◌ "ObserverResource "
        (String.◌++◌ observer.name " does not define resource requests/limits")
      ∷ []

with_observers : List String → List Observer → Verdict ObserverError
unfolding check_observers
with_observers warnings [] = record {
  warnings = warnings ++ "Observers are not specified" ∷ [];
  error = none;
}
with_observers warnings (o ∷ os) = check_observers warnings (o ∷ os)

-- validateObserversAndObserverResources: `ValidateCreate` and `ValidateUpdate`.
unfoldable pub validate_observer : MdaiObserver → Verdict ObserverError
unfolding with_observers resource_warnings
validate_observer observer = with_observers (resource_warnings observer) observer.observers

-- `ValidateDelete`
unfoldable pub validate_delete_observer : MdaiObserver → Verdict ObserverError
validate_delete_observer observer = record { warnings = []; error = none }

-- A metric name for bytes or for counts.
abbrev pub has_metric : Observer → Bool
has_metric o = not (is_absent o.bytes_metric_name && is_absent o.count_metric_name)

check_observers-Accepts :
    (warnings : List String) (os : List Observer)
    → (Accepts (check_observers warnings os) → all has_metric os ≡ true)
      × (all has_metric os ≡ true → Accepts (check_observers warnings os))
unfolding check_observers
check_observers-Accepts warnings [] = ((λ h. refl), λ h. refl)
check_observers-Accepts warnings (o ∷ os) =
    let (f, g) = check_observers-Accepts (warnings ++ label_warnings o) os in
    ((λ h. ground (arith, f)), λ h. ground (arith, g))

-- An observer resource is accepted exactly if each of its observers names a metric for bytes or for
-- counts.
pub observer-Accepts :
    (observer : MdaiObserver)
    → Accepts (validate_observer observer) ↔ (all has_metric observer.observers ≡ true)
unfolding validate_observer
observer-Accepts observer = by_list (resource_warnings observer) observer.observers
  where
    by_list :
        (warnings : List String) (os : List Observer)
        → Accepts (with_observers warnings os) ↔ (all has_metric os ≡ true)
    by_list warnings [] = ((λ h. refl), λ h. refl)
    by_list warnings (o ∷ os) = check_observers-Accepts warnings (o ∷ os)
