-- ===== src/Scheduler/Nodes.antt =====
-- What the first two loops build: a node for each call, with its dependencies counted.
use gopheragent.Base.{
  suc, ◌≡◌, refl, ap, sym, subst, ◌∙◌, inl, inr, true, false, List, [], ◌∷◌, arith, All, Text, same,
  Bool-cases, ok, Result-cases,
}
use gopheragent.Scheduler.{
  PendingToolCall, Node, has_key, ids_of, calls_of, index_calls, add_deps, fresh_node, build_nodes,
}
use gopheragent.Scheduler.Refs.{OutputRef, parse_refs}
use gopheragent.Scheduler.Counts.{Distinct, Apart, Tallied, count_open}
use gopheragent.Scheduler.Layers.{Inv, Recorded}

index_calls-Distinct :
    (seen : List Text) (cs : List PendingToolCall) (known : List Text)
    → index_calls seen cs ≡ ok known
    → Distinct (ids_of cs) × Apart seen (ids_of cs)
unfolding index_calls
index_calls-Distinct seen [] known h = (tt, tt)
index_calls-Distinct seen (c ∷ cs) known h = elim (Bool-cases (has_key seen c.id)) [
  | inl dup ↦ absurd (ground arith)
  | inr new ↦
      let (distinct, apart) = index_calls-Distinct (c.id ∷ seen) cs known (rw new at h) in
      ((no_key (ids_of cs) apart, distinct), (new, smaller (ids_of cs) apart))
]
  where
    no_key : (ids : List Text) → Apart (c.id ∷ seen) ids → has_key ids c.id ≡ false
    no_key [] a = refl
    no_key (i ∷ ids) a = ground (arith, no_key ids a.1)

    smaller : (ids : List Text) → Apart (c.id ∷ seen) ids → Apart seen ids
    smaller [] a = tt
    smaller (i ∷ ids) a = (ground arith, smaller ids a.1)

-- What `add_deps` makes of a node.
abbrev Built : Node → List OutputRef → Node → Type 0
Built n rs m =
    (m.call ≡ n.call)
    × Tallied [] m
    × ((d : Text) → has_key n.deps d ≡ true → has_key m.deps d ≡ true)
    × All (λ (r : OutputRef). has_key m.deps r.ref_id ≡ true) rs

count_open-none : (d : Text) (ds : List Text) → count_open [] (d ∷ ds) ≡ suc (count_open [] ds)
unfolding count_open
count_open-none d ds = refl

add_deps-Built :
    (known : List Text) (rs : List OutputRef) (n m : Node)
    → Tallied [] n
    → add_deps known n rs ≡ ok m
    → Built n rs m
unfolding add_deps
add_deps-Built known [] n m t h = subst (Built n []) (ground arith) (refl, t, λ d e. e, tt)
add_deps-Built known (r ∷ rs) n m t h = elim (Bool-cases (has_key known r.ref_id)) [
  | inl k ↦ elim (Bool-cases (same r.ref_id n.call.id)) [
    | inl self ↦ absurd (ground arith)
    | inr other ↦ elim (Bool-cases (has_key n.deps r.ref_id)) [
      | inl old ↦
          let b = add_deps-Built known rs n m t (rw (k, other, old) at h) in
          (b.0, b.1, b.2, (b.2 r.ref_id old, b.3))
      | inr new ↦
          let n' : Node = record n { deps = r.ref_id ∷ n.deps; indeg = suc n.indeg } in
          let b =
            add_deps-Built known rs n' m
              ((new, t.0), ap suc t.1 ∙ sym (count_open-none r.ref_id n.deps))
              (rw (k, other, new) at h) in
          (b.0, b.1, λ d e. b.2 d (ground arith), (b.2 r.ref_id (ground arith), b.3))
    ]
  ]
  | inr unknown ↦ absurd (ground arith)
]

abbrev Nodes : List PendingToolCall → List Node → Type 0
Nodes cs ns = (calls_of ns ≡ cs) × All (Tallied []) ns × All Recorded ns

fresh_node-Tallied : (c : PendingToolCall) → Tallied [] (fresh_node c)
unfolding count_open
fresh_node-Tallied c = (tt, refl)

Nodes-cons :
    (c : PendingToolCall) (cs : List PendingToolCall) (m : Node) (ms : List Node)
    → Built (fresh_node c) (parse_refs c.args_json) m
    → Nodes cs ms
    → Nodes (c ∷ cs) (m ∷ ms)
Nodes-cons c cs m ms b rest =
    (ap (◌∷◌ m.call) rest.0 ∙ ap (λ d. d ∷ cs) b.0, (b.1, rest.1), (rw b.0 b.3, rest.2))

build_nodes-Nodes :
    (known : List Text) (cs : List PendingToolCall) (ns : List Node)
    → build_nodes known cs ≡ ok ns
    → Nodes cs ns
unfolding build_nodes
build_nodes-Nodes known [] [] h = (refl, tt, tt)
build_nodes-Nodes known [] (n ∷ ns) h = cc
build_nodes-Nodes known (c ∷ cs) ns h =
    elim (Result-cases (add_deps known (fresh_node c) (parse_refs c.args_json))) [
      | inl (bad, e) ↦ absurd (ground arith)
      | inr (m, e) ↦ elim (Result-cases (build_nodes known cs)) [
        | inl (bad, q) ↦ absurd (ground arith)
        | inr (ms, q) ↦
            let b =
              add_deps-Built known (parse_refs c.args_json) (fresh_node c) m (fresh_node-Tallied c)
                e in
            let rest = build_nodes-Nodes known cs ms q in
            subst (Nodes (c ∷ cs)) {x = m ∷ ms} (ground arith) (Nodes-cons c cs m ms b rest)
      ]
    ]

pub calls_of-build_nodes :
    (calls : List PendingToolCall) (known : List Text) (nodes : List Node)
    → build_nodes known calls ≡ ok nodes
    → calls_of nodes ≡ calls
calls_of-build_nodes calls known nodes h = (build_nodes-Nodes known calls nodes h).0

-- The invariant holds before the first wave.
pub build_nodes-Inv :
    (calls : List PendingToolCall) (known : List Text) (nodes : List Node)
    → index_calls [] calls ≡ ok known
    → build_nodes known calls ≡ ok nodes
    → Inv [] nodes
build_nodes-Inv calls known nodes e h =
    let (same_calls, tallied, recorded) = build_nodes-Nodes known calls nodes h in
    let (distinct, apart) = index_calls-Distinct [] calls known e in
    record {
      distinct = rw same_calls distinct;
      apart = rw same_calls apart;
      tallied = tallied;
      recorded = recorded;
    }
