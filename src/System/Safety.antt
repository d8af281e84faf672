-- ===== src/System/Safety.antt =====
-- What the threads of live_runtime.cpp and task_executor.cpp, on the nodes of edge_node.cpp, cannot do to
-- the resources of a node, in whatever order their steps come.
use multi_constraint_iot_edg.Common.{ℕ, ◌+◌, ◌≤◌, ◌≡◌, sym, ◌∙◌, [], none, some, arith, Text}
use multi_constraint_iot_edg.Common.Dict.{lookup}
use multi_constraint_iot_edg.Double.{Double, IsCounted, nought, ◌≼◌}
use multi_constraint_iot_edg.Task.{Task}
use multi_constraint_iot_edg.System.{System, Site, idle, Reach, here, next}
use multi_constraint_iot_edg.System.Accounting.{
  Resource, usage, capacity, IsMeasured, HasRoof, IsSound, reserved_for, load,
}
use multi_constraint_iot_edg.System.Interleaving.{Step-IsSound}

module _ {W J : Type 0} ⦃d : Double W⦄ (counted : IsCounted W) (roof : Resource → Text → ℕ) where
  open d use {le, sub}
  open counted use {limit, amount}

  -- The start of a workload: no node has a task or is in use, and `roof` bounds what each lets through.
  pub record IsFresh (s : System W J) : Type 0 where
    pub free : s.placing ≡ idle
    pub workers : (key : Text) (w : Site W J) → lookup key s.sites ≡ some w → w.running ≡ none
    pub queues : (key : Text) (w : Site W J) → lookup key s.sites ≡ some w → w.node.task_queue ≡ []
    pub unused :
        (r : Resource) (key : Text) (w : Site W J)
        → lookup key s.sites ≡ some w
        → usage r w.node ≡ nought
    pub within : (r : Resource) (key : Text) → roof r key ≤ limit
    pub roofed :
        (r : Resource) (key : Text) (w : Site W J)
        → lookup key s.sites ≡ some w
        → HasRoof counted (capacity r w.node) (roof r key)

  IsFresh-IsSound : (s : System W J) → IsFresh s → IsSound counted roof s
  IsFresh-IsSound s fresh = rw fresh.free (
    tt,
    λ key w at. record {
      accounts = λ r. record {
        within = fresh.within r key;
        roofed = fresh.roofed r key w at;
        exact =
            rw (fresh.workers key w at, fresh.queues key w at)
              (fresh.unused r key w at ∙ sym counted.amount_zero);
        room = rw (fresh.workers key w at, fresh.queues key w at) (omega arith);
      };
      queue = rw (fresh.queues key w at) tt;
      worker = rw (fresh.workers key w at) tt;
    },
  )

  module _ (Offered : Task W J → Type 0)
      (measured : (t : Task W J) → Offered t → IsMeasured counted t) where
    -- In every state that is reached from a fresh one, in whatever order the loop and the workers take
    -- their steps, the usage of each resource of each node is exactly what the tasks in its queue, the one
    -- that runs and the one that has been reserved but not queued yet ask for, and that sum, with what has
    -- been checked but not reserved yet, is not above the node's bound. The tasks that the loop is given
    -- ask for whole numbers of units.
    pub Reach-IsSound :
        (start s : System W J) → IsFresh start → Reach Offered start s → IsSound counted roof s
    Reach-IsSound start s fresh here = IsFresh-IsSound start fresh
    Reach-IsSound start s fresh (next r step) =
        Step-IsSound counted roof Offered measured step (Reach-IsSound start _ fresh r)

    -- No interleaving leaks resources: in a reachable state in which the loop is between two tasks, a node
    -- without waiting or running tasks has all of its resources back, so that each is used to 0. The state
    -- is reached from a fresh one, and the tasks ask for whole numbers of units.
    pub Reach-unused :
        (start s : System W J) (r : Resource) (key : Text) (w : Site W J)
        → IsFresh start
        → Reach Offered start s
        → s.placing ≡ idle
        → lookup key s.sites ≡ some w
        → w.node.task_queue ≡ []
        → w.running ≡ none
        → usage r w.node ≡ nought
    Reach-unused start s r key w fresh reach free at queue worker =
        let account = ((Reach-IsSound start s fresh reach).1 key w at).accounts r in
        rw account.exact (rw (free, queue, worker) counted.amount_zero)

    -- No interleaving overcommits a node, although the test of a node and the reservation are two steps: in
    -- every state that is reached from a fresh one the usage of a resource is at most the capacity, if that
    -- is the node's bound in units, and the tasks ask for whole numbers of units.
    pub Reach-within :
        (start s : System W J) (r : Resource) (key : Text) (w : Site W J)
        → IsFresh start
        → Reach Offered start s
        → lookup key s.sites ≡ some w
        → capacity r w.node ≡ amount (roof r key)
        → usage r w.node ≼ capacity r w.node
    Reach-within start s r key w fresh reach at whole =
        let account = ((Reach-IsSound start s fresh reach).1 key w at).accounts r in
        let held = load counted r w + reserved_for counted r key s.placing in
        let fits : held ≤ roof r key = omega (arith, account.room) in
        let small = fresh.within r key in
        rw (account.exact, whole)
          (ground (arith, counted.amount-le held (roof r key) (omega (arith, fits, small)) small))
