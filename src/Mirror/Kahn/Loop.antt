-- ===== src/Mirror/Kahn/Loop.antt =====
-- One round of the loop of `kahn_toposort` keeps the balance of edges, and the loop ends.
use Prim.Native.Nat.{ℕ, ◌+◌}
use dojjo.Prelude.{
  List, [], ◌∷◌, ◌++◌, ◌≡◌, refl, Bool, true, false, not, ◌&&◌, ◌||◌, some, arith, nat_eq,
  if◌then◌else◌, All, ok,
}
use dojjo.Prelude.Order.{Order, ◌==◌, beq_refl}
use dojjo.Prelude.Order.Sets.{update, contains, insert, count, IsIncreasing}
use dojjo.Prelude.Order.Laws.{contains-insert, insert-IsIncreasing, contains-append}
use dojjo.Mirror.Kahn.{Queue, relax}

module _ {K : Type 0} ⦃o : Order K⦄ where
  -- The heads of the edges that leave `n`, in the order of `edges`.
  abbrev pub targets : List (K × K) → K → List K
  targets [] n = []
  targets ((u, v) ∷ es) n = if u == n then v ∷ targets es n else targets es n

  abbrev pub has_edge : List (K × K) → K → K → Bool
  has_edge [] u v = false
  has_edge ((a, b) ∷ es) u v = a == u && b == v || has_edge es u v

  -- The edges into `w` whose tail is not in `out`.
  abbrev pub waiting : List (K × K) → List K → K → ℕ
  waiting [] out w = 0
  waiting ((u, v) ∷ es) out w = (if v == w && not (contains out u) then 1 else 0) + waiting es out w

  pub waiting-append :
      (es : List (K × K)) (out : List K) (n w : K)
      → contains out n ≡ false
      → waiting es (out ++ n ∷ []) w + count w (targets es n) ≡ waiting es out w
  waiting-append [] out n w h = refl
  waiting-append ((u, v) ∷ es) out n w h = ground (
    arith,
    waiting-append es out n w h,
    contains-append out (n ∷ []) u,
    o.beq_iff u n,
    o.beq_iff n u,
  )

  -- The queue agrees with `D`, the number of edges that each node waits for.
  pub record IsBalanced (nodes : List K) (D : K → ℕ) (q : Queue K) : Type 0 where
    pub increasing : IsIncreasing q.ready
    pub degrees : (w : K) → contains nodes w ≡ true → q.indegree w ≡ some (D w)
    pub ready_iff :
        (w : K)
        → contains q.ready w ≡ (contains nodes w && (not (contains q.out w) && nat_eq (D w) 0))

  abbrev Waits : List K → List K → List K → Type 0
  Waits nodes out = All (λ w. (contains nodes w ≡ true) × (contains out w ≡ false))

  -- The `for` loop takes one off for each edge, and never meets a missing or a zero degree.
  pub relax_lem :
      (nodes ws : List K) (D : K → ℕ) (q : Queue K)
      → Waits nodes q.out ws
      → IsBalanced nodes (λ w. D w + count w ws) q
      → (q' : Queue K) × (relax ws q ≡ ok q') × (q'.out ≡ q.out) × IsBalanced nodes D q'
  unfolding relax
  relax_lem nodes [] D q h b = (
    q,
    refl,
    refl,
    record {
      increasing = b.increasing;
      degrees = λ w k. ground (arith, b.degrees w k);
      ready_iff = λ w. ground (arith, b.ready_iff w);
    },
  )
  relax_lem nodes (w ∷ ws) D q h b =
      let q1 : Queue K = record q {
        indegree = update q.indegree w (D w + count w ws);
        ready = if nat_eq (D w + count w ws) 0 then insert w q.ready else q.ready;
      } in
      let (q', e, same, b') = relax_lem nodes ws D q1 h.1 (record {
        increasing = ground (arith, insert-IsIncreasing w q.ready b.increasing, b.increasing);
        degrees = λ v k. ground (arith, b.degrees v k, o.beq_iff w v);
        ready_iff =
            λ v. ground (arith, b.ready_iff v, contains-insert w q.ready v, o.beq_iff w v, h.0);
      }) in
      (q', ground (arith, b.degrees w h.0.0, beq_refl w, e), same, b')
