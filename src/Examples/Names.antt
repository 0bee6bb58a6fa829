-- ===== src/Examples/Names.antt =====
-- The theorems on the names of internal/naming at concrete texts.
use mdai_operator.Prelude.{ℕ, ◌≤◌, ◌≡◌, refl, List, [], ◌∷◌, true, length, codes}
use mdai_operator.Naming.Truncate.{Part, fixed, text, truncate, is_alphanumeric}
use mdai_operator.Naming.Port.{pos, port_name, is_dns_label}
use mdai_operator.Naming.Names.{
  label, service, headless_service, monitoring_service, extension_service, grpc_service,
  non_grpc_service, ingress, config_map_extra,
}
use mdai_operator.Naming.Labels.{length-truncate, IsLabel, label-IsLabel}
use mdai_operator.Naming.Services.{services-IsLabel}
use mdai_operator.Naming.PortNames.{port_name_label}

-- No letter outside ASCII is lowered.
abbrev same : ℕ → ℕ
same c = c

abbrev headless : List Part
headless = text (codes "My_Gateway-") ∷ fixed (codes "-headless") ∷ []

length-truncate_example : length (truncate 8 headless) ≤ 8
length-truncate_example = length-truncate 8 headless

label-IsLabel_example : IsLabel same (label same headless)
unfolding is_alphanumeric
label-IsLabel_example = label-IsLabel same headless refl refl

services-IsLabel_example :
    IsLabel same (service same (codes "gateway"))
    × IsLabel same (headless_service same (codes "gateway"))
    × IsLabel same (monitoring_service same (codes "gateway"))
    × IsLabel same (extension_service same (codes "gateway"))
    × IsLabel same (grpc_service same (codes "gateway"))
    × IsLabel same (non_grpc_service same (codes "gateway"))
    × IsLabel same (ingress same (codes "gateway"))
    × IsLabel same (config_map_extra same (codes "gateway"))
services-IsLabel_example = services-IsLabel same (codes "gateway") refl

port_name_label_example :
    (length (port_name (codes "otlp/grpc.") (pos 4317)) ≤ 15)
    × (is_dns_label (port_name (codes "otlp/grpc.") (pos 4317)) ≡ true)
port_name_label_example = port_name_label (codes "otlp/grpc.") 4317
