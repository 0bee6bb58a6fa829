-- ===== src/Controller/Observer/Wired.antt =====
-- The configuration of an observer is valid: what its pipelines name is there.
use mdai_operator.Prelude.{
  ◌≡◌, String, [], ◌∷◌, Bool, true, ◌&&◌, ◌||◌, eq_iff, arith, Dict, lookup, insert,
  lookup_after-insert, all, member, and-eq-true,
}
use mdai_operator.Controller.Collector.{Pipeline}
use mdai_operator.Controller.Collector.Routed.{is_some, all-implies}
use mdai_operator.Controller.Observer.{
  Processor, Connector, ObserverConfig, set_processor, set_connector, set_pipeline,
}

abbrev pub has {ℓ} : {A : Type ℓ} → Dict A → String → Bool
has m key = is_some (lookup key m)

-- A component is what the collector has under its name, or a connector.
abbrev pub is_source : ObserverConfig → String → Bool
is_source c name = member name c.receivers || has c.connectors name

abbrev pub is_sink : ObserverConfig → String → Bool
is_sink c name = member name c.exporters || has c.connectors name

abbrev pub fits : ObserverConfig → Pipeline → Bool
fits c p =
    all (is_source c) p.receivers
    && (all (has c.processors) p.processors && all (is_sink c) p.exporters)

-- Every pipeline names components that are there.
abbrev pub is_valid : ObserverConfig → Bool
is_valid c = all (λ (e : String × Pipeline). fits c e.1) c.pipelines

-- The components that the code takes from the base configuration.
abbrev pub has_base : ObserverConfig → Bool
has_base c =
    member "otlp" c.receivers
    && (has c.processors "batch"
        && (has c.processors "deltatocumulative" && member "prometheus" c.exporters))

pub record Grows (c d : ObserverConfig) : Type 0 where
  pub sources : (name : String) → is_source c name ≡ true → is_source d name ≡ true
  pub sinks : (name : String) → is_sink c name ≡ true → is_sink d name ≡ true
  pub processors : (name : String) → has c.processors name ≡ true → has d.processors name ≡ true
  pub pipelines : (name : String) → has c.pipelines name ≡ true → has d.pipelines name ≡ true
  pub base : has_base c ≡ true → has_base d ≡ true

pub Grows-refl : (c : ObserverConfig) → Grows c c
Grows-refl c = record {
  sources = λ name h. h;
  sinks = λ name h. h;
  processors = λ name h. h;
  pipelines = λ name h. h;
  base = λ h. h;
}

pub Grows-trans : (b c d : ObserverConfig) → Grows b c → Grows c d → Grows b d
Grows-trans b c d g h = record {
  sources = λ name i. h.sources name (g.sources name i);
  sinks = λ name i. h.sinks name (g.sinks name i);
  processors = λ name i. h.processors name (g.processors name i);
  pipelines = λ name i. h.pipelines name (g.pipelines name i);
  base = λ i. h.base (g.base i);
}

pub has-insert :
    {A : Type 0} (k j : String) (a : A) (m : Dict A) → has m j ≡ true → has (insert k a m) j ≡ true
has-insert k j a m h = rw (lookup_after-insert k j a m) (ground arith)

pub has_inserted : {A : Type 0} (k : String) (a : A) (m : Dict A) → has (insert k a m) k ≡ true
has_inserted k a m = rw (lookup_after-insert k k a m) (ground (arith, eq_iff k k))

pub Grows-set_processor :
    (k : String) (p : Processor) (c : ObserverConfig) → Grows c (set_processor k p c)
unfolding set_processor
Grows-set_processor k p c = record {
  sources = λ name h. h;
  sinks = λ name h. h;
  processors = λ name. has-insert k name p c.processors;
  pipelines = λ name h. h;
  base = λ h.
      ground (
        arith,
        has-insert k "batch" p c.processors,
        has-insert k "deltatocumulative" p c.processors,
      );
}

pub Grows-set_connector :
    (k : String) (x : Connector) (c : ObserverConfig) → Grows c (set_connector k x c)
unfolding set_connector
Grows-set_connector k x c = record {
  sources = λ name h. ground (arith, has-insert k name x c.connectors);
  sinks = λ name h. ground (arith, has-insert k name x c.connectors);
  processors = λ name h. h;
  pipelines = λ name h. h;
  base = λ h. h;
}

pub fits-Grows :
    (c d : ObserverConfig) (p : Pipeline) → Grows c d → fits c p ≡ true → fits d p ≡ true
fits-Grows c d p g h =
    let (i, jk) = and-eq-true (all (is_source c) p.receivers) _ h in
    let (j, k) = and-eq-true (all (has c.processors) p.processors) _ jk in
    rw (all-implies (is_source c) (is_source d) p.receivers g.sources i) (
      rw (all-implies (has c.processors) (has d.processors) p.processors g.processors j)
        (all-implies (is_sink c) (is_sink d) p.exporters g.sinks k))

pub valid-Grows :
    (c d : ObserverConfig)
    → Grows c d
    → d.pipelines ≡ c.pipelines
    → is_valid c ≡ true
    → is_valid d ≡ true
valid-Grows c d g same h = rw same (
    all-implies (λ (e : String × Pipeline). fits c e.1) (λ (e : String × Pipeline). fits d e.1)
      c.pipelines (λ e. fits-Grows c d e.1 g) h)

all-insert :
    {A : Type 0} (q : A → Bool) (k : String) (a : A) (m : Dict A)
    → q a ≡ true
    → all (λ (e : String × A). q e.1) m ≡ true
    → all (λ (e : String × A). q e.1) (insert k a m) ≡ true
unfolding insert
all-insert q k a [] h i = ground arith
all-insert q k a (e ∷ m) h i = ground (arith, all-insert q k a m h)

pub valid-set_pipeline :
    (k : String) (p : Pipeline) (c : ObserverConfig)
    → fits c p ≡ true
    → is_valid c ≡ true
    → is_valid (set_pipeline k p c) ≡ true
unfolding set_pipeline
valid-set_pipeline k p c h i = all-insert (fits c) k p c.pipelines h i
