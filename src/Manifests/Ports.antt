-- ===== src/Manifests/Ports.antt =====
-- internal/manifests/collector/service.go, and servicePortsFromCfg and toServicePorts of ingress.go.
-- Names are lists of bytes; the ports that the collector's configuration yields are the answer of
-- `GetReceiverPorts` or `GetAllPorts` of the OpenTelemetry operator.
use mdai_operator.Prelude.{
  ℕ, ◌≡◌, refl, ap, sym, String, List, [], ◌∷◌, ◌++◌, Option, none, some, Bool, true, false, not,
  ◌&&◌, ◌||◌, ◌==◌, eqb, arith, all, is_nil, member_text, if◌then◌else◌,
}
use mdai_operator.Naming.Port.{pos, numbered}

-- A port of a Service.
pub record CollectorPort : Type 0 where
  pub name : List ℕ
  pub port : ℕ
  pub protocol : String
  pub app_protocol : Option String

pub record PortNumberKey : Type 0 where
  pub port : ℕ
  pub protocol : String

-- An empty protocol is TCP.
unfoldable pub new_port_number_key : ℕ → String → PortNumberKey
new_port_number_key port protocol = record {
  port = port;
  protocol = if protocol == "" then "TCP" else protocol;
}

unfoldable pub same_key : PortNumberKey → PortNumberKey → Bool
same_key k l = eqb k.port l.port && k.protocol == l.protocol

unfoldable pub member_key : PortNumberKey → List PortNumberKey → Bool
unfolding same_key
member_key k [] = false
member_key k (l ∷ ls) = same_key l k || member_key k ls

-- extractPortNumbersAndNames: the keys of both maps.
unfoldable pub port_numbers : List CollectorPort → List PortNumberKey
unfolding new_port_number_key
port_numbers [] = []
port_numbers (p ∷ ps) = new_port_number_key p.port p.protocol ∷ port_numbers ps

unfoldable pub port_names : List CollectorPort → List (List ℕ)
port_names [] = []
port_names (p ∷ ps) = p.name ∷ port_names ps

unfoldable pub filter_port :
    CollectorPort → List PortNumberKey → List (List ℕ) → Option CollectorPort
unfolding new_port_number_key member_key member_text numbered
filter_port candidate numbers names =
    let fallback = numbered (pos candidate.port) in
    if member_key (new_port_number_key candidate.port candidate.protocol) numbers
    then none
    else if member_text candidate.name names
    then (if member_text fallback names then none else some (record candidate { name = fallback }))
    else some candidate

-- The loop over the inferred ports.
unfoldable pub filter_ports :
    List PortNumberKey → List (List ℕ) → List CollectorPort → List CollectorPort
unfolding filter_port
filter_ports numbers names [] = []
filter_ports numbers names (p ∷ ps) =
    let rest = filter_ports numbers names ps in
    elim (filter_port p numbers names) [ none ↦ rest | some q ↦ q ∷ rest ]

-- The ports of the specification come first.
unfoldable pub merge_ports : (spec inferred : List CollectorPort) → List CollectorPort
unfolding filter_ports port_numbers port_names
merge_ports spec inferred =
    if is_nil spec
    then inferred
    else spec ++ filter_ports (port_numbers spec) (port_names spec) inferred

-- A port that takes neither a number nor a name that is taken.
abbrev pub is_free : List PortNumberKey → List (List ℕ) → CollectorPort → Bool
is_free numbers names p =
    not (member_key (new_port_number_key p.port p.protocol) numbers)
    && not (member_text p.name names)

-- The port under the name of last resort.
unfoldable renamed : CollectorPort → CollectorPort
unfolding numbered
renamed p = record p { name = numbered (pos p.port) }

-- Each port in order: as it is if it is free, else renamed if it is free then, else left out.
unfoldable pub fitted : List PortNumberKey → List (List ℕ) → List CollectorPort → List CollectorPort
unfolding renamed
fitted numbers names [] = []
fitted numbers names (p ∷ ps) =
    let rest = fitted numbers names ps in
    if is_free numbers names p
    then p ∷ rest
    else if is_free numbers names (renamed p)
    then renamed p ∷ rest
    else rest

filter_ports-fitted :
    (numbers : List PortNumberKey) (names : List (List ℕ)) (ps : List CollectorPort)
    → filter_ports numbers names ps ≡ fitted numbers names ps
unfolding filter_ports filter_port fitted renamed
filter_ports-fitted numbers names [] = refl
filter_ports-fitted numbers names (p ∷ ps) = ground (arith, filter_ports-fitted numbers names ps)

all-fitted :
    (numbers : List PortNumberKey) (names : List (List ℕ)) (ps : List CollectorPort)
    → all (is_free numbers names) (fitted numbers names ps) ≡ true
unfolding fitted
all-fitted numbers names [] = refl
all-fitted numbers names (p ∷ ps) = ground (arith, all-fitted numbers names ps)

fitted-nil : (ps : List CollectorPort) → fitted [] [] ps ≡ ps
unfolding fitted member_key member_text
fitted-nil [] = refl
fitted-nil (p ∷ ps) = ap (λ rest. p ∷ rest) (fitted-nil ps)

-- The ports of a service are those of the specification, unchanged and first, and then the inferred
-- ports in order: one that takes neither a number with its protocol nor a name of the specification
-- as it is, another one under the name `port-` with its number if it takes neither then, and the
-- rest not at all. None of those added takes a number or a name of the specification.
pub merge_ports-free :
    (spec inferred : List CollectorPort)
    → (merge_ports spec inferred ≡ spec ++ fitted (port_numbers spec) (port_names spec) inferred)
      × (all
            (is_free (port_numbers spec) (port_names spec))
            (fitted (port_numbers spec) (port_names spec) inferred)
          ≡ true)
unfolding merge_ports port_numbers port_names
merge_ports-free [] inferred = (sym (fitted-nil inferred), all-fitted [] [] inferred)
merge_ports-free (p ∷ ps) inferred =
    (ap (λ extra. (p ∷ ps) ++ extra) (filter_ports-fitted _ _ inferred), all-fitted _ _ inferred)
