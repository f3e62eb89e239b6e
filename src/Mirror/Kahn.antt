-- ===== src/Mirror/Kahn.antt =====
-- `kahn_toposort` of dojjo-mirror/src/mirror_apply_order.rs, over any ordered type of nodes.
-- A `HashMap` is a function, a `BTreeSet` an increasing list. The `while` loop takes one unit of
-- fuel for each round.
pub mod Loop
pub mod Round
pub mod Drain
pub mod Sorts
use Prim.Native.Nat.{ℕ, zero, suc, ◌+◌, ◌-◌}
use mathlib.Core.Option.{none, some, get_or}
use dojjo.Prelude.{
  List, [], ◌∷◌, ◌++◌, ltb, nat_eq, if◌then◌else◌, length, Result, ok, panic, assert, guard, ◌>>=◌,
  ◌>>◌,
}
use dojjo.Prelude.Order.{Order}
use dojjo.Prelude.Order.Sets.{Map, update, contains, insert, set_of}

-- "operation graph has a cycle or disconnected node with missing parents"
pub data KahnError : Type 0 where
  cycle_or_missing : KahnError

-- `indegree` and `adj`
pub record Tables (K : Type 0) : Type 0 where
  pub indegree : Map K ℕ
  pub adj : Map K (List K)

-- The variables of the `while` loop.
pub record Queue (K : Type 0) : Type 0 where
  pub indegree : Map K ℕ
  pub ready : List K
  pub out : List K

module _ {K : Type 0} ⦃o : Order K⦄ where
  -- `for n in &nodes { indegree.insert(n.clone(), 0); }`
  unfoldable pub zeroes : List K → Map K ℕ
  zeroes [] a = none
  zeroes (n ∷ ns) a = update (zeroes ns) n 0 a

  -- `for (u, v) in edges`
  unfoldable pub add_edges : List K → List (K × K) → Tables K → Result KahnError (Tables K)
  add_edges nodes [] t = ok t
  add_edges nodes ((u, v) ∷ es) t = do
    assert (contains nodes u)
    assert (contains nodes v)
    add_edges nodes es (record {
      indegree = update t.indegree v (get_or (t.indegree v) 0 + 1);
      adj = update t.adj u (get_or (t.adj u) [] ++ v ∷ []);
    })

  -- The nodes that the `filter` keeps.
  unfoldable pub sources : Map K ℕ → List K → List K
  sources indegree [] = []
  sources indegree (n ∷ ns) =
      let rest = sources indegree ns in if nat_eq (get_or (indegree n) 0) 0 then n ∷ rest else rest

  -- `for w in adj.get(&n).into_iter().flatten()`
  unfoldable pub relax : List K → Queue K → Result KahnError (Queue K)
  relax [] q = ok q
  relax (w ∷ ws) q = elim (q.indegree w) [
    | none ↦ panic
    | some d ↦ do
      assert (ltb 0 d)
      relax ws (record q {
        indegree = update q.indegree w (d - 1);
        ready = if nat_eq (d - 1) 0 then insert w q.ready else q.ready;
      })
  ]

  -- `while let Some(n) = ready.iter().next().cloned()`
  unfoldable pub drain : ℕ → Map K (List K) → Queue K → Result KahnError (Queue K)
  drain zero adj q = ok q
  drain (suc fuel) adj q = elim q.ready [
    | [] ↦ ok q
    | n ∷ rest ↦ do
      q' ← relax (get_or (adj n) []) (record q { ready = rest; out = q.out ++ n ∷ [] })
      drain fuel adj q'
  ]

  unfoldable pub kahn_toposort : List K → List (K × K) → Result KahnError (List K)
  kahn_toposort nodes edges = do
    t ← add_edges nodes edges (record { indegree = zeroes nodes; adj = λ _. none })
    q ←
        drain (length nodes) t.adj
          (record { indegree = t.indegree; ready = set_of (sources t.indegree nodes); out = [] })
    guard (nat_eq (length q.out) (length nodes)) cycle_or_missing
    ok q.out
