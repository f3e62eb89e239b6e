-- ===== src/Mirror/Kahn/Drain.antt =====
-- `kahn_toposort` as a whole: the tables are built right, and the loop runs until `ready` is empty.
use Prim.Native.Nat.{ℕ, zero, suc, ◌+◌, ◌≤◌}
use mathlib.Core.Option.{get_or}
use mathlib.Core.List.{append_assoc, append-nil}
use dojjo.Prelude.{
  List, [], ◌∷◌, ◌++◌, ◌≡◌, refl, ap, ◌∙◌, true, ◌&&◌, none, some, arith, nat_eq, if◌then◌else◌,
  length, length-append, Bool-cases, List-cases, ok, err, inl, inr,
}
use dojjo.Prelude.Order.{Order, ◌==◌, beq_refl}
use dojjo.Prelude.Order.Sets.{Map, update, contains, set_of, IsIncreasing}
use dojjo.Prelude.Order.Laws.{
  contains-set_of, set_of-IsIncreasing, count-IsIncreasing, length-le_of_count, count-not-contains,
}
use dojjo.Mirror.Kahn.{
  cycle_or_missing, Tables, Queue, drain, zeroes, add_edges, sources, kahn_toposort,
}
use dojjo.Mirror.Kahn.Loop.{targets, waiting}
use dojjo.Mirror.Kahn.Round.{IsGraph, Inv, round_lem}

module _ {K : Type 0} ⦃o : Order K⦄ where
  zeroes_lem : (ns : List K) (a : K) → zeroes ns a ≡ (if contains ns a then some 0 else none)
  unfolding zeroes
  zeroes_lem [] a = refl
  zeroes_lem (n ∷ ns) a = ground (arith, zeroes_lem ns a)

  contains-sources :
      (m : Map K ℕ) (ns : List K) (w : K)
      → contains (sources m ns) w ≡ (contains ns w && nat_eq (get_or (m w) 0) 0)
  unfolding sources
  contains-sources m [] w = refl
  contains-sources m (n ∷ ns) w = ground (arith, contains-sources m ns w, o.beq_iff n w)

  add_edges_lem :
      (nodes : List K) (es : List (K × K)) (D : K → ℕ) (t : Tables K)
      → IsGraph nodes es
      → ((w : K) → contains nodes w ≡ true → t.indegree w ≡ some (D w))
      → (t' : Tables K) × (add_edges nodes es t ≡ ok t')
        × ((w : K) → contains nodes w ≡ true → t'.indegree w ≡ some (D w + waiting es [] w))
        × ((n : K) → get_or (t'.adj n) [] ≡ get_or (t.adj n) [] ++ targets es n)
  unfolding add_edges
  add_edges_lem nodes [] D t g h = (t, refl, λ w k. ground (arith, h w k), λ n. rw append-nil)
  add_edges_lem nodes ((u, v) ∷ es) D t g h =
      let g' : IsGraph nodes es = record {
        tails = λ a b k. g.tails a b (ground (arith, k));
        heads = λ a b k. g.heads a b (ground (arith, k));
      } in
      let u_in : contains nodes u ≡ true = g.tails u v (ground (arith, beq_refl u, beq_refl v)) in
      let v_in : contains nodes v ≡ true = g.heads u v (ground (arith, beq_refl u, beq_refl v)) in
      let t1 : Tables K = record {
        indegree = update t.indegree v (get_or (t.indegree v) 0 + 1);
        adj = update t.adj u (get_or (t.adj u) [] ++ v ∷ []);
      } in
      let (t', e, deg, adj) =
        add_edges_lem nodes es (λ w. D w + (if v == w then 1 else 0)) t1 g'
          (λ w k. ground (arith, h w k, o.beq_iff v w)) in
      (t', rw (u_in, v_in) e, λ w k. ground (arith, deg w k), λ n. adj n ∙ adj_step n)
    where
      adj_step :
          (n : K)
          → get_or (update t.adj u (get_or (t.adj u) [] ++ v ∷ []) n) [] ++ targets es n
            ≡ get_or (t.adj n) [] ++ targets ((u, v) ∷ es) n
      adj_step n = elim (Bool-cases (u == n)) [
        | inl e ↦
            rw e (
              rw ((o.beq_iff u n).0 e) (append_assoc (get_or (t.adj n) []) (v ∷ []) (targets es n)))
        | inr e ↦ rw e refl
      ]

  module _ (nodes : List K) (es : List (K × K)) (adj : Map K (List K)) (inc : IsIncreasing nodes)
      (g : IsGraph nodes es) (adj_eq : (n : K) → get_or (adj n) [] ≡ targets es n) where
    -- Each round takes out one more node, and there is no more to take than `nodes`.
    ready_room :
        (q : Queue K) (n : K) (rest : List K)
        → q.ready ≡ n ∷ rest
        → Inv nodes es q
        → suc (length q.out) ≤ length nodes
    ready_room q n rest e inv = length-le_of_count (n ∷ q.out) nodes (λ a. ground (
      arith,
      inv.balanced.ready_iff n,
      e,
      beq_refl n,
      inv.once a,
      count-IsIncreasing nodes a inc,
      o.beq_iff n a,
      count-not-contains q.out n,
    ))

    pub drain_lem :
        (fuel : ℕ) (q : Queue K)
        → Inv nodes es q
        → length nodes ≤ fuel + length q.out
        → (q' : Queue K) × (drain fuel adj q ≡ ok q') × Inv nodes es q' × (q'.ready ≡ [])
    unfolding drain
    drain_lem zero q inv h = elim (List-cases q.ready) [
      | inl e ↦ (q, refl, inv, e)
      | inr (n, rest, e) ↦ absurd (omega (arith, ready_room q n rest e inv))
    ]
    drain_lem (suc fuel) q inv h = elim (List-cases q.ready) [
      | inl e ↦ (q, ground (arith, e), inv, e)
      | inr (n, rest, e) ↦
          let (q1, run, inv1, same) = round_lem nodes es g q n rest e inv in
          let (q', ends, inv', done) =
            drain_lem fuel q1 inv1 (omega (arith, ap length same, length-append q.out (n ∷ []))) in
          (q', rw (e, drain, adj_eq, run) ends, inv', done)
    ]

  pub kahn_lem :
      (nodes : List K) (es : List (K × K))
      → IsIncreasing nodes
      → IsGraph nodes es
      → (q : Queue K) × Inv nodes es q
        × (q.ready ≡ [])
        × (kahn_toposort nodes es
            ≡ (if nat_eq (length q.out) (length nodes) then ok q.out else err cycle_or_missing))
  unfolding kahn_toposort
  kahn_lem nodes es inc g =
      let (t, built, deg, adj) =
        add_edges_lem nodes es (λ _. 0) (record { indegree = zeroes nodes; adj = λ _. none }) g
          (λ w k. ground (arith, zeroes_lem nodes w)) in
      let q0 : Queue K = record {
        indegree = t.indegree;
        ready = set_of (sources t.indegree nodes);
        out = [];
      } in
      let inv0 : Inv nodes es q0 = record {
        balanced = record {
          increasing = set_of-IsIncreasing _;
          degrees = λ w k. ground (arith, deg w k);
          ready_iff = λ w. ground (
            arith,
            contains-set_of (sources t.indegree nodes) w,
            contains-sources t.indegree nodes w,
            deg w,
          );
        };
        once = λ w. ground arith;
        ordered = λ u v k m. cc;
      } in
      let (q, ran, inv, empty) =
        drain_lem nodes es t.adj inc g adj (length nodes) q0 inv0 (omega arith) in
      (q, inv, empty, ground (arith, built, ran))
