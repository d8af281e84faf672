-- ===== src/Allocator/Bounds.antt =====
-- The range of the terms of the suitability score of resource_allocator.cpp.
use multi_constraint_iot_edg.Common.{ℕ, ◌≤◌, ◌<◌, arith, Bool-cases, inl, inr, pos}
use multi_constraint_iot_edg.Double.{
  Double, IsOrdered, ◌≼◌, IsNum, nought, one, hundred, clamp_bounds,
}
use multi_constraint_iot_edg.Task.{TaskPriority, low, medium, high, critical}
use multi_constraint_iot_edg.Edge.{
  EdgeNode, get_available_cpu_percent, get_available_ram_mb, get_available_bandwidth_mbps,
  get_queue_length,
}
use multi_constraint_iot_edg.Allocator.Score.{
  free_share, normalize_cpu_score, normalize_ram_score, normalize_bandwidth_score,
  normalize_latency_score, normalize_queue_score, priority_score, max_queue_length_for_score,
}

module _ {W : Type 0} ⦃d : Double W⦄ (order : IsOrdered W)
    (fractions : (n m : ℕ) → n ≤ m → 0 < m → (nought ≼ d.literal n m) × (d.literal n m ≼ one)) where
  open d use {sub, div, le, of_int}

  -- A term of the score.
  abbrev pub InUnit : W → Type 0
  InUnit x = (nought ≼ x) × (x ≼ one)

  free_share-InUnit : (a c : W) → IsNum (div a c) → InUnit (free_share a c)
  unfolding free_share
  free_share-InUnit a c n = elim (Bool-cases (le c nought)) [
    | inl e ↦ rw e (fractions 0 1 (omega arith) (omega arith))
    | inr e ↦
        rw e
          (clamp_bounds order (div a c) nought one n (fractions 1 1 (omega arith) (omega arith)).0)
  ]

  priority_score-InUnit : (p : TaskPriority) → InUnit (priority_score p)
  unfolding priority_score
  priority_score-InUnit low = fractions 25 100 (omega arith) (omega arith)
  priority_score-InUnit medium = fractions 5 10 (omega arith) (omega arith)
  priority_score-InUnit high = fractions 75 100 (omega arith) (omega arith)
  priority_score-InUnit critical = fractions 1 1 (omega arith) (omega arith)

  -- The quotients that the terms of a node take are numbers.
  pub record IsMeasurable {J : Type 0} (e : EdgeNode W J) : Type 0 where
    pub cpu : IsNum (div (get_available_cpu_percent e) e.capacity.cpu_percent)
    pub ram : IsNum (div (get_available_ram_mb e) e.capacity.ram_mb)
    pub bandwidth : IsNum (div (get_available_bandwidth_mbps e) e.capacity.bandwidth_mbps)
    pub latency : IsNum (sub one (div (of_int e.capacity.latency_ms) hundred))
    pub queue :
        IsNum
          (sub one (div (of_int (get_queue_length e)) (of_int (pos max_queue_length_for_score))))

  -- Each term of the score of a node lies between 0 and 1, and that of the latency is not below 1/100,
  -- if no quotient is NaN and a literal that is a proper fraction lies between 0 and 1.
  pub scores-InUnit :
      {J : Type 0} (e : EdgeNode W J) (p : TaskPriority)
      → IsMeasurable e
      → InUnit (normalize_cpu_score e)
        × InUnit (normalize_ram_score e)
        × InUnit (normalize_bandwidth_score e)
        × InUnit (normalize_latency_score e)
        × (d.literal 1 100 ≼ normalize_latency_score e)
        × InUnit (normalize_queue_score e)
        × InUnit (priority_score p)
  unfolding normalize_cpu_score normalize_ram_score normalize_bandwidth_score
      normalize_latency_score normalize_queue_score
  scores-InUnit e p m =
      let (floor, top) = fractions 1 100 (omega arith) (omega arith) in
      let (at_least, at_most) = clamp_bounds order _ (d.literal 1 100) one m.latency top in
      (
        free_share-InUnit _ _ m.cpu,
        free_share-InUnit _ _ m.ram,
        free_share-InUnit _ _ m.bandwidth,
        (order.le_trans _ _ _ floor at_least, at_most),
        at_least,
        clamp_bounds order _ nought one m.queue (fractions 1 1 (omega arith) (omega arith)).0,
        priority_score-InUnit p,
      )
