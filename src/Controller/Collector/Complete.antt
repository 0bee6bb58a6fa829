-- ===== src/Controller/Collector/Complete.antt =====
-- The invariant of the routing table for the whole of getMdaiCollectorConfig of
-- internal/controller/mdaicollector_adapter.go.
use mdai_operator.Prelude.{◌≡◌, String, List, Bool, true, lookup, all}
use mdai_operator.Controller.Collector.{Blocks}
use mdai_operator.Controller.Collector.Routed.{is_some, serves, is_routed}

-- What was routed and served stays so.
record Good (b c : Blocks) : Type 0 where
  routed : is_routed b ≡ true → is_routed c ≡ true
  kept : (name : String) → serves b name ≡ true → serves c name ≡ true

-- A part of the configuration: it keeps what was there and serves its own defaults.
abbrev GoodPart : Blocks → List String × Blocks → Type 0
GoodPart b (defaults, c) = Good b c × (all (serves c) defaults ≡ true)

has_otlp : Blocks → Bool
has_otlp b = is_some (lookup "otlp" b.exporters)
