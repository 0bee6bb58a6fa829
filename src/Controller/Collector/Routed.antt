-- ===== src/Controller/Collector/Routed.antt =====
-- The configuration has no dangling route: what the router sends to is a pipeline, whose exporter is
-- configured.
use mdai_operator.Prelude.{
  ◌≡◌, refl, sym, String, List, [], ◌∷◌, ◌++◌, Option, none, some, Bool, true, false, ◌==◌, eq_iff,
  arith, Dict, lookup, insert, lookup_after-insert, all, if◌then◌else◌, Bool-cases, Option-cases,
  inl, inr, and-eq-true,
}
use mdai_operator.Controller.Collector.{
  LogStream, stream_name, Exporter, Pipeline, RoutingEntry, RoutingTable, Blocks, is_other,
  extend_entry, add_routing, add_pipeline, set_exporter,
}

abbrev pub is_some {ℓ} : {A : Type ℓ} → Option A → Bool
is_some none = false
is_some (some a) = true

-- Every exporter of the pipeline is configured.
abbrev pub is_served : Dict Exporter → Option Pipeline → Bool
is_served exporters none = false
is_served exporters (some p) = all (λ e. is_some (lookup e exporters)) p.exporters

abbrev pub serves : Blocks → String → Bool
serves b name = is_served b.exporters (lookup name b.pipelines)

-- Each pipeline of the routing table is served.
abbrev pub is_routed : Blocks → Bool
is_routed b = all (λ (e : String × RoutingEntry). all (serves b) e.1.pipelines) b.table

pub all-implies {ℓ} :
    {A : Type ℓ} (p q : A → Bool) (xs : List A)
    → ((x : A) → p x ≡ true → q x ≡ true)
    → all p xs ≡ true
    → all q xs ≡ true
all-implies p q [] f h = refl
all-implies p q (x ∷ xs) f h =
    let (k, l) = and-eq-true (p x) _ h in rw (f x k) (all-implies p q xs f l)

pub all-append {ℓ} :
    {A : Type ℓ} (p : A → Bool) (xs ys : List A)
    → all p xs ≡ true
    → all p ys ≡ true
    → all p (xs ++ ys) ≡ true
all-append p [] ys h k = k
all-append p (x ∷ xs) ys h k = let (i, j) = and-eq-true (p x) _ h in rw i (all-append p xs ys j k)

-- Setting an entry leaves the others.
is_some-insert :
    {A : Type 0} (k j : String) (a : A) (m : Dict A)
    → is_some (lookup j m) ≡ true
    → is_some (lookup j (insert k a m)) ≡ true
is_some-insert k j a m h = rw (lookup_after-insert k j a m) (ground arith)

pub serves-set_exporter :
    (k : String) (x : Exporter) (b : Blocks) (name : String)
    → serves b name ≡ true
    → serves (set_exporter k x b) name ≡ true
unfolding set_exporter
serves-set_exporter k x b name h = on_pipeline (lookup name b.pipelines) h
  where
    on_pipeline :
        (o : Option Pipeline)
        → is_served b.exporters o ≡ true
        → is_served (insert k x b.exporters) o ≡ true
    on_pipeline none i = i
    on_pipeline (some p) i =
        all-implies (λ e. is_some (lookup e b.exporters))
          (λ e. is_some (lookup e (insert k x b.exporters))) p.exporters
          (λ e. is_some-insert k e x b.exporters) i

pub routed-set_exporter :
    (k : String) (x : Exporter) (b : Blocks)
    → is_routed b ≡ true
    → is_routed (set_exporter k x b) ≡ true
unfolding set_exporter
routed-set_exporter k x b h =
    all-implies _ _ b.table
      (λ e.
        all-implies (serves b) (serves (set_exporter k x b)) e.1.pipelines
          (serves-set_exporter k x b))
      h

-- A new pipeline with a configured exporter.
pub serves-add_pipeline :
    (stream : LogStream) (n : String) (p : Pipeline) (b : Blocks) (name : String)
    → is_served b.exporters (some p) ≡ true
    → serves b name ≡ true
    → serves (add_pipeline stream n p b) name ≡ true
unfolding add_pipeline
serves-add_pipeline stream n p b name h k =
    rw (lookup_after-insert n name p b.pipelines) (ground arith)

pub serves_new :
    (stream : LogStream) (n : String) (p : Pipeline) (b : Blocks)
    → is_served b.exporters (some p) ≡ true
    → serves (add_pipeline stream n p b) n ≡ true
unfolding add_pipeline
serves_new stream n p b h = rw (lookup_after-insert n n p b.pipelines) (ground (arith, eq_iff n n))

-- The entries of a table, all with a property.
abbrev all_entries : (String → Bool) → RoutingTable → Bool
all_entries p table = all (λ (e : String × RoutingEntry). all p e.1.pipelines) table

all_entries-lookup :
    (p : String → Bool) (k : String) (t : RoutingTable) (entry : RoutingEntry)
    → all_entries p t ≡ true
    → lookup k t ≡ some entry
    → all p entry.pipelines ≡ true
unfolding lookup
all_entries-lookup p k [] entry h i = cc
all_entries-lookup p k (e ∷ t) entry h i = elim (Bool-cases (e.0 == k)) [
  | inl j ↦
      let same : some e.1 ≡ some entry = ground arith in
      let eq : e.1 ≡ entry = cc in rw (sym eq) (and-eq-true (all p e.1.pipelines) _ h).0
  | inr j ↦ all_entries-lookup p k t entry (and-eq-true (all p e.1.pipelines) _ h).1 (ground arith)
]

all_entries-insert :
    (p : String → Bool) (k : String) (entry : RoutingEntry) (t : RoutingTable)
    → all p entry.pipelines ≡ true
    → all_entries p t ≡ true
    → all_entries p (insert k entry t) ≡ true
unfolding insert
all_entries-insert p k entry [] h i = ground arith
all_entries-insert p k entry (e ∷ t) h i = ground (arith, all_entries-insert p k entry t h)

all_entries-add_routing :
    (p : String → Bool) (stream : LogStream) (n : String) (t : RoutingTable)
    → p n ≡ true
    → all_entries p t ≡ true
    → all_entries p (add_routing stream n t) ≡ true
unfolding add_routing extend_entry
all_entries-add_routing p stream n t h i = elim (Option-cases (lookup (stream_name stream) t)) [
  | inl k ↦ by_other (is_other stream) (
      all_entries-insert p (stream_name stream)
        (extend_entry stream n (lookup (stream_name stream) t)) t (rw k (ground arith)) i)
  | inr (entry, k) ↦ by_other (is_other stream) (
      all_entries-insert p (stream_name stream)
        (extend_entry stream n (lookup (stream_name stream) t)) t
        (rw k (
          all-append p entry.pipelines (n ∷ [])
            (all_entries-lookup p (stream_name stream) t entry i k) (ground arith)))
        i)
]
  where
    by_other :
        (b : Bool)
        → all_entries p
            (insert (stream_name stream) (extend_entry stream n (lookup (stream_name stream) t)) t)
          ≡ true
        → all_entries p (
            if b
            then t
            else insert
                (stream_name stream)
                (extend_entry stream n (lookup (stream_name stream) t))
                t)
          ≡ true
    by_other true k = i
    by_other false k = k

pub routed-add_pipeline :
    (stream : LogStream) (n : String) (p : Pipeline) (b : Blocks)
    → is_served b.exporters (some p) ≡ true
    → is_routed b ≡ true
    → is_routed (add_pipeline stream n p b) ≡ true
unfolding add_pipeline
routed-add_pipeline stream n p b h i =
    all_entries-add_routing (serves (add_pipeline stream n p b)) stream n b.table
      (serves_new stream n p b h)
      (all-implies _ _ b.table
        (λ e.
          all-implies (serves b) (serves (add_pipeline stream n p b)) e.1.pipelines
            (λ name. serves-add_pipeline stream n p b name h))
        i)
