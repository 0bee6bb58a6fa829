-- ===== src/Controller/Hub/Alerts/Synchronized.antt =====
-- The PrometheusRule that ensurePrometheusAlertsSynchronized of internal/controller/hub_adapter.go
-- leaves, also after runs in which requests failed.
use mdai_operator.Prelude.{
  String, List, [], ◌∷◌, ◌++◌, map, Option, none, some, true, false, is_nil, ◌≡◌, refl, sym, ap,
  ◌∙◌, subst, arith,
}
use mdai_operator.Api.{PrometheusAlert, MdaiHubSpec}
use mdai_operator.Controller.Operation.{continue_processing}
use mdai_operator.Controller.Lifecycle.{ApiError, not_found, conflict, already_exists, other_error}
use mdai_operator.Controller.Hub.Alerts.{
  Hub, RuleGroup, PrometheusRule, Faults, get_rule, Run, compose_prometheus_rule, new_rule,
  first_group, evaluation_interval_of, with_interval, with_rules, fill_groups, update_rule, filled,
  fill_rule, create_rule, create_error, after_get, synchronize_alerts,
  ensure_prometheus_alerts_synchronized,
}

abbrev pub no_faults : Faults
no_faults = record { get = none; create = none; update = none; delete = none }

-- Runs one after the other, each with the errors that its requests meet; `none` if one panics.
unfoldable pub run_all :
    Hub → MdaiHubSpec → List Faults → Option PrometheusRule → Option (Option PrometheusRule)
run_all hub spec [] stored = some stored
run_all hub spec (f ∷ fs) stored = elim (ensure_prometheus_alerts_synchronized hub spec f stored) [
  | none ↦ none
  | some r ↦ run_all hub spec fs r.1
]

unfoldable pub new_interval : Option String → Option String → Option String
new_interval none old = old
new_interval (some i) old = some i

module _ (hub : Hub) (interval : Option String) (alerts : List PrometheusAlert) where
  unfoldable pub desired_groups : List RuleGroup → List RuleGroup
  unfolding new_interval
  desired_groups [] = []
  desired_groups (g ∷ gs) =
      record g {
        interval = new_interval interval g.interval;
        rules = map (compose_prometheus_rule hub) alerts;
      }
      ∷ gs

  -- An object with the rules for the alerts.
  unfoldable pub desired : PrometheusRule → PrometheusRule
  unfolding desired_groups
  desired r = record r { groups = desired_groups r.groups }

  fill_groups-desired_groups :
      (gs : List RuleGroup)
      → is_nil gs ≡ false
      → fill_groups hub interval alerts gs ≡ some (desired_groups gs)
  unfolding fill_groups with_interval with_rules first_group desired_groups new_interval
  fill_groups-desired_groups gs h = ground arith

  desired_groups_idem :
      (gs : List RuleGroup) → desired_groups (desired_groups gs) ≡ desired_groups gs
  unfolding desired_groups new_interval
  desired_groups_idem [] = refl
  desired_groups_idem (g ∷ gs) = ground arith

  is_nil-desired_groups :
      (gs : List RuleGroup) → is_nil gs ≡ false → is_nil (desired_groups gs) ≡ false
  unfolding desired_groups
  is_nil-desired_groups [] h = h
  is_nil-desired_groups (g ∷ gs) h = refl

  -- An object that the alerts make the same as a new one.
  abbrev Fits : PrometheusRule → Type 0
  Fits r = is_nil r.groups ≡ false × desired r ≡ desired (new_rule hub)

  abbrev FitsStored : Option PrometheusRule → Type 0
  FitsStored stored = elim stored [ none ↦ Fits (new_rule hub) | some r ↦ Fits r ]

  abbrev Keeps : Run → Type 0
  Keeps run = elim run [ none ↦ false ≡ true | some r ↦ FitsStored r.1 ]

  filled-Keeps :
      (fault : Option ApiError) (r : PrometheusRule)
      → Fits r
      → Keeps (filled fault r (some (desired_groups r.groups)))
  unfolding filled update_rule desired
  filled-Keeps none r (p, q) = (
    is_nil-desired_groups r.groups p,
    ap (λ gs. record r { groups = gs }) (desired_groups_idem r.groups) ∙ q,
  )
  filled-Keeps (some e) r h = h

  fill_rule-Keeps :
      (fault : Option ApiError) (r : PrometheusRule)
      → Fits r
      → Keeps (fill_rule hub interval alerts fault r)
  unfolding fill_rule
  fill_rule-Keeps fault r h =
      subst (λ gs. Keeps (filled fault r gs)) (sym (fill_groups-desired_groups r.groups h.0))
        (filled-Keeps fault r h)

  create_rule-Keeps :
      (create update : Option ApiError) (stored : Option PrometheusRule)
      → FitsStored stored
      → Fits (new_rule hub)
      → Keeps (create_rule hub interval alerts create update stored)
  unfolding create_rule
  create_rule-Keeps none update stored h new = fill_rule-Keeps update (new_rule hub) new
  create_rule-Keeps (some e) update stored h new = h

  synchronize-Keeps :
      (f : Faults) (stored : Option PrometheusRule)
      → FitsStored stored
      → Fits (new_rule hub)
      → Keeps (synchronize_alerts hub interval f stored (some alerts))
  unfolding synchronize_alerts after_get get_rule
  synchronize-Keeps f stored h new = after f.get stored h
    where
      after :
          (fault : Option ApiError) (st : Option PrometheusRule)
          → FitsStored st
          → Keeps (after_get hub interval alerts f (get_rule fault st) st)
      after (some not_found) st k = create_rule-Keeps (create_error f.create st) f.update st k new
      after (some conflict) st k = k
      after (some already_exists) st k = k
      after (some (other_error e)) st k = k
      after none none k = create_rule-Keeps (create_error f.create none) f.update none k new
      after none (some r) k = fill_rule-Keeps f.update r k

  synchronize-desired :
      (stored : Option PrometheusRule)
      → FitsStored stored
      → Fits (new_rule hub)
      → synchronize_alerts hub interval no_faults stored (some alerts)
        ≡ some (continue_processing, some (desired (new_rule hub)))
  unfolding synchronize_alerts after_get get_rule create_rule create_error fill_rule filled
      update_rule desired
  synchronize-desired none h new =
      ap (filled none (new_rule hub)) (fill_groups-desired_groups _ new.0)
  synchronize-desired (some r) h new =
      ap (filled none r) (fill_groups-desired_groups _ h.0)
      ∙ ap (λ x. some (continue_processing, some x)) h.1

  new_rule-Fits : Fits (new_rule hub)
  unfolding new_rule
  new_rule-Fits = (refl, refl)

module _ (hub : Hub) (spec : MdaiHubSpec) (alerts : List PrometheusAlert)
    (given : spec.prometheus_alerts ≡ some alerts) where
  abbrev every : Option String
  every = evaluation_interval_of spec.config

  run_all-desired :
      (fs : List Faults) (stored : Option PrometheusRule)
      → FitsStored hub every alerts stored
      → run_all hub spec (fs ++ no_faults ∷ []) stored
        ≡ some (some (desired hub every alerts (new_rule hub)))
  unfolding run_all ensure_prometheus_alerts_synchronized
  run_all-desired [] stored h =
      ap (λ x. elim x [ none ↦ none | some r ↦ some r.1 ])
        (ap (synchronize_alerts hub every no_faults stored) given
          ∙ synchronize-desired hub every alerts stored h (new_rule-Fits hub every alerts))
  run_all-desired (f ∷ fs) stored h =
      next _
        (subst (λ o. Keeps hub every alerts (synchronize_alerts hub every f stored o)) (sym given)
          (synchronize-Keeps hub every alerts f stored h (new_rule-Fits hub every alerts)))
        (λ st k. run_all-desired fs st k)
    where
      next :
          (x : Run)
          → Keeps hub every alerts x
          → ((st : Option PrometheusRule)
              → FitsStored hub every alerts st
              → run_all hub spec (fs ++ no_faults ∷ []) st
                ≡ some (some (desired hub every alerts (new_rule hub))))
          → elim x [ none ↦ none | some r ↦ run_all hub spec (fs ++ no_faults ∷ []) r.1 ]
            ≡ some (some (desired hub every alerts (new_rule hub)))
      next none k rest = cc
      next (some r) k rest = rest r.1 k

  -- For a hub with alerts and no PrometheusRule yet: after any runs, whatever requests failed in
  -- them, a run in which none fails leaves the new PrometheusRule with the rule of each alert, in
  -- order, and the evaluation interval of the hub. None of the runs panics.
  pub alerts-synchronized :
      (fs : List Faults)
      → run_all hub spec (fs ++ no_faults ∷ []) none
        ≡ some (some (desired hub every alerts (new_rule hub)))
  alerts-synchronized fs = run_all-desired fs none (new_rule-Fits hub every alerts)
