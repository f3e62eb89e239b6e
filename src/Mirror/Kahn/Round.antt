-- ===== src/Mirror/Kahn/Round.antt =====
-- The invariant of the `while` loop of `kahn_toposort`, and one round of it.
use Prim.Native.Nat.{◌+◌, ◌<◌, ◌≤◌}
use dojjo.Prelude.{
  List, [], ◌∷◌, ◌++◌, ◌≡◌, true, false, not, ◌&&◌, arith, if◌then◌else◌, All, Bool-cases, ok, inl,
  inr,
}
use dojjo.Prelude.Order.{Order, ◌==◌, beq_refl}
use dojjo.Prelude.Order.Sets.{contains, count, position, IsIncreasing}
use dojjo.Prelude.Order.Laws.{
  contains-append, not-contains-tail, count-append, position-append, position-lt-length,
  position-eq-length, position-le-length, count-not-contains,
}
use dojjo.Mirror.Kahn.{Queue, relax}
use dojjo.Mirror.Kahn.Loop.{targets, has_edge, waiting, waiting-append, IsBalanced, relax_lem}

module _ {K : Type 0} ⦃o : Order K⦄ where
  -- An edge whose tail has not come out keeps its head waiting.
  pub waiting-pos :
      (es : List (K × K)) (out : List K) (u w : K)
      → has_edge es u w ≡ true
      → contains out u ≡ false
      → 0 < waiting es out w
  waiting-pos [] out u w h k = cc
  waiting-pos ((a, b) ∷ es) out u w h k = ground (arith, waiting-pos es out u w, o.beq_iff a u)

  All-targets :
      (P : K → Type 0) (es : List (K × K)) (n : K)
      → ((v : K) → has_edge es n v ≡ true → P v)
      → All P (targets es n)
  All-targets P [] n h = tt
  All-targets P ((u, v) ∷ es) n h =
      let rest = All-targets P es n (λ w k. h w (ground (arith, k))) in
      elim (Bool-cases (u == n)) [
        | inl e ↦ rw e (h v (ground (arith, beq_refl v)), rest)
        | inr e ↦ rw e rest
      ]

  -- `nodes` holds the ends of the edges `es`, and each key once.
  pub record IsGraph (nodes : List K) (es : List (K × K)) : Type 0 where
    pub tails : (u v : K) → has_edge es u v ≡ true → contains nodes u ≡ true
    pub heads : (u v : K) → has_edge es u v ≡ true → contains nodes v ≡ true

  -- What has come out is a sublist of the nodes, and the tail of an edge comes before its head.
  pub record Inv (nodes : List K) (es : List (K × K)) (q : Queue K) : Type 0 where
    pub balanced : IsBalanced nodes (waiting es q.out) q
    pub once : (w : K) → count w q.out ≤ (if contains nodes w then 1 else 0)
    pub ordered :
        (u v : K)
        → has_edge es u v ≡ true
        → contains q.out v ≡ true
        → position u q.out < position v q.out

  module _ (nodes : List K) (es : List (K × K)) (g : IsGraph nodes es) where
    module _ (q : Queue K) (n : K) (rest : List K) (e : q.ready ≡ n ∷ rest)
        (inv : Inv nodes es q) where
      next_lem : (contains nodes n ≡ true) × (contains q.out n ≡ false) × (waiting es q.out n ≡ 0)
      next_lem = ground (arith, inv.balanced.ready_iff n, e, beq_refl n)

      popped : Queue K
      popped = record q { ready = rest; out = q.out ++ n ∷ [] }

      rest_lem : (w : K) → contains rest w ≡ (not (n == w) && contains q.ready w)
      rest_lem w =
          let inc : IsIncreasing (n ∷ rest) = rw e at inv.balanced.increasing in
          rw e (ground (arith, not-contains-tail n rest inc, o.beq_iff n w))

      popped-IsBalanced :
          IsBalanced nodes (λ w. waiting es (q.out ++ n ∷ []) w + count w (targets es n)) popped
      unfolding popped
      popped-IsBalanced =
          let inc : IsIncreasing (n ∷ rest) = rw e at inv.balanced.increasing in
          let (in_nodes, fresh, zero_wait) = next_lem in
          record {
            increasing = inc.1;
            degrees =
                λ w k. ground (arith, inv.balanced.degrees w k, waiting-append es q.out n w fresh);
            ready_iff = λ w. ground (
              arith,
              inv.balanced.ready_iff w,
              waiting-append es q.out n w fresh,
              rest_lem w,
              contains-append q.out (n ∷ []) w,
              o.beq_iff n w,
            );
          }

      target_waits :
          (v : K)
          → has_edge es n v ≡ true
          → (contains nodes v ≡ true) × (contains (q.out ++ n ∷ []) v ≡ false)
      target_waits v k =
          let (in_nodes, fresh, zero_wait) = next_lem in
          (
            g.heads n v k,
            ground (
              arith,
              contains-append q.out (n ∷ []) v,
              inv.ordered n v k,
              position-eq-length n q.out fresh,
              position-le-length v q.out,
              waiting-pos es q.out n v k fresh,
              o.beq_iff n v,
              zero_wait,
            ),
          )

      ordered_next :
          (u v : K)
          → has_edge es u v ≡ true
          → contains (q.out ++ n ∷ []) v ≡ true
          → position u (q.out ++ n ∷ []) < position v (q.out ++ n ∷ [])
      ordered_next u v k m =
          let (in_nodes, fresh, zero_wait) = next_lem in
          ground (
            arith,
            contains-append q.out (n ∷ []) v,
            inv.ordered u v k,
            position-append u q.out (n ∷ []),
            position-append v q.out (n ∷ []),
            position-lt-length u q.out,
            position-eq-length u q.out,
            position-le-length v q.out,
            waiting-pos es q.out u v k,
            o.beq_iff n v,
            zero_wait,
          )

      -- One round succeeds and keeps the invariant.
      pub round_lem :
          (q' : Queue K) × (relax (targets es n) (record q { ready = rest; out = q.out ++ n ∷ [] })
            ≡ ok q')
          × Inv nodes es q'
          × (q'.out ≡ q.out ++ n ∷ [])
      unfolding popped
      round_lem =
          let (q', run, same, b) =
            relax_lem nodes (targets es n) (waiting es (q.out ++ n ∷ [])) popped
              (All-targets (λ w. (contains nodes w ≡ true) × (contains (q.out ++ n ∷ []) w ≡ false))
                es n target_waits)
              popped-IsBalanced in
          (
            q',
            run,
            record {
              balanced = rw same b;
              once = λ w. rw same (
                  ground (
                    arith,
                    inv.once w,
                    count-append w q.out (n ∷ []),
                    next_lem,
                    o.beq_iff n w,
                    count-not-contains q.out n,
                  ));
              ordered = λ u v k m. rw same (ordered_next u v k (rw same at m));
            },
            same,
          )
