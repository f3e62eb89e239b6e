-- ===== src/Mirror/Kahn/Sorts.antt =====
-- What `kahn_toposort` promises.
use Prim.Native.Nat.{ℕ, zero, suc, ◌<◌, ◌≤◌}
use dojjo.Prelude.{
  List, [], ◌∷◌, ◌≡◌, true, false, not, ◌&&◌, ◌⊎◌, arith, nat_eq, length, Bool-cases, ok, err, inl,
  inr,
}
use dojjo.Prelude.Order.{Order, ◌==◌, beq_refl}
use dojjo.Prelude.Order.Sets.{contains, count, position, IsIncreasing}
use dojjo.Prelude.Order.Laws.{
  count-IsIncreasing, length-le_of_count, count-not-contains, contains-eq-count, count_eq_of_length,
}
use dojjo.Mirror.Kahn.{cycle_or_missing, Queue, kahn_toposort}
use dojjo.Mirror.Kahn.Loop.{has_edge, waiting}
use dojjo.Mirror.Kahn.Round.{IsGraph, Inv}
use dojjo.Mirror.Kahn.Drain.{kahn_lem}

module _ {K : Type 0} ⦃o : Order K⦄ where
  waiting_witness :
      (es : List (K × K)) (out : List K) (w : K)
      → 0 < waiting es out w
      → (u : K) × (has_edge es u w ≡ true) × (contains out u ≡ false)
  waiting_witness [] out w h = absurd (omega arith)
  waiting_witness ((u, v) ∷ es) out w h = elim (Bool-cases (v == w && not (contains out u))) [
    | inl e ↦ (u, ground (arith, e, beq_refl u), ground (arith, e))
    | inr e ↦
        let (a, edge, fresh) = waiting_witness es out w (ground (arith, e, h)) in
        (a, ground (arith, edge), fresh)
  ]

  -- A numbering of the nodes that grows along every edge: there is no cycle.
  abbrev pub IsRank : List (K × K) → (K → ℕ) → Type 0
  IsRank es rank = (u v : K) → has_edge es u v ≡ true → rank u < rank v

  module _ (nodes : List K) (es : List (K × K)) (inc : IsIncreasing nodes)
      (g : IsGraph nodes es) where
    out-le-nodes : (q : Queue K) → Inv nodes es q → (a : K) → count a q.out ≤ count a nodes
    out-le-nodes q inv a = ground (arith, inv.once a, count-IsIncreasing nodes a inc)

    pub kahn_sound :
        (out : List K)
        → kahn_toposort nodes es ≡ ok out
        → ((a : K) → count a out ≡ count a nodes)
          × ((u v : K) → has_edge es u v ≡ true → position u out < position v out)
    kahn_sound out h =
        let (q, inv, empty, e) = kahn_lem nodes es inc g in
        let same : q.out ≡ out = ground (arith, e, h) in
        let len : length q.out ≡ length nodes = ground (arith, e, h) in
        let counts = count_eq_of_length q.out nodes (out-le-nodes q inv) len in
        (
          λ a. rw (← same) (counts a),
          λ u v k. rw (← same) (
              inv.ordered u v k (
                ground (
                  arith,
                  counts v,
                  count-not-contains q.out v,
                  contains-eq-count nodes v,
                  g.heads u v k,
                ))),
        )

    all_out :
        (rank : K → ℕ)
        → IsRank es rank
        → (q : Queue K) → Inv nodes es q
        → q.ready ≡ []
        → (k : ℕ) (w : K) → rank w < k
        → contains nodes w ≡ true
        → contains q.out w ≡ true
    all_out rank ranked q inv empty zero w h m = absurd (omega arith)
    all_out rank ranked q inv empty (suc k) w h m = elim (Bool-cases (contains q.out w)) [
      | inl done ↦ done
      | inr missing ↦
          let (u, edge, fresh) =
            waiting_witness es q.out w (ground (arith, inv.balanced.ready_iff w, empty)) in
          let came =
            all_out rank ranked q inv empty k u (omega (arith, ranked u w edge))
              (g.tails u w edge) in
          cc
    ]

    covers :
        (rank : K → ℕ)
        → IsRank es rank
        → (q : Queue K) → Inv nodes es q
        → q.ready ≡ []
        → length q.out ≡ length nodes
    covers rank ranked q inv empty =
        let fits = length-le_of_count q.out nodes (out-le-nodes q inv) in
        let full = length-le_of_count nodes q.out (λ a. ground (
          arith,
          all_out rank ranked q inv empty (suc (rank a)) a (omega arith),
          count-IsIncreasing nodes a inc,
          contains-eq-count q.out a,
        )) in
        omega (arith, fits, full)

    -- Without a cycle the sort succeeds.
    pub kahn_complete :
        (rank : K → ℕ) → IsRank es rank → (out : List K) × (kahn_toposort nodes es ≡ ok out)
    kahn_complete rank ranked =
        let (q, inv, empty, e) = kahn_lem nodes es inc g in
        let len : length q.out ≡ length nodes = covers rank ranked q inv empty in
        (q.out, ground (arith, e, len))

    -- The sort ends with every node once and every edge leading forward, which no graph with a cycle
    -- allows, or it reports a cycle where there is no such order; it never panics.
    pub kahn_decides :
        ((out : List K) × (kahn_toposort nodes es ≡ ok out)
          × ((a : K) → count a out ≡ count a nodes)
          × IsRank es (λ u. position u out))
        ⊎ (kahn_toposort nodes es ≡ err cycle_or_missing) × ¬ ((rank : K → ℕ) × IsRank es rank)
    kahn_decides =
        let (q, inv, empty, e) = kahn_lem nodes es inc g in
        elim (Bool-cases (nat_eq (length q.out) (length nodes))) [
          | inl full ↦
              let run : kahn_toposort nodes es ≡ ok q.out = rw full at e in
              let (once, forward) = kahn_sound q.out run in inl (q.out, run, once, forward)
          | inr short ↦
              inr (
                rw short at e,
                λ ranked. ground (arith, short, covers ranked.0 ranked.1 q inv empty),
              )
        ]
