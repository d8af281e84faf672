-- ===== src/Runtime/Ending.antt =====
-- That the waiting loops of live_runtime.cpp and main.cpp end, and why.
use multi_constraint_iot_edg.Common.{
  ℕ, zero, suc, ◌+◌, ◌*◌, ◌≡◌, ◌≤◌, refl, Bool, true, false, not, ◌||◌, ◌&&◌, Option, some,
  is_empty, ltb, arith, Bool-cases, inl, inr, ◌⊎◌,
}
use multi_constraint_iot_edg.Runtime.{LiveRuntime, record_resource_snapshots}
use multi_constraint_iot_edg.Runtime.Draining.{
  Found, any_queued, drain_loop, wait_loop, drain_seconds, at_nodes,
}

module _ {W J : Type 0} where
  -- A turn sleeps for `pause` ticks, and the clock does not go back.
  abbrev pub Advances : ℕ → (ℕ → Found W J) → Type 0
  Advances pause found = (k : ℕ) → (found k).now + pause ≤ (found (suc k)).now

  -- Why the loop of the live runtime ends at a turn.
  abbrev pub IsOver : ℕ → Found W J → Type 0
  IsOver deadline f =
      (f.stop_requested ≡ true)
      ⊎ ((deadline ≤ f.now) ⊎ ((any_queued f.nodes ≡ false) × (is_empty f.active_tasks ≡ true)))

  stops→over :
      (deadline : ℕ) (f : Found W J)
      → f.stop_requested || not (ltb f.now deadline) ≡ true
      → IsOver deadline f
  stops→over deadline f h = elim (Bool-cases f.stop_requested) [
    | inl e ↦ inl e
    | inr e ↦ inr (inl (ground (arith, e)))
  ]

  -- The loop ends, at a turn that gives a reason.
  abbrev pub Ends : ℕ → (ℕ → Found W J) → Option (ℕ × LiveRuntime W J) → Type 0
  Ends deadline found result =
      (m : ℕ) × (r : LiveRuntime W J) × (result ≡ some (m, r)) × IsOver deadline (found m)

  drain_turn :
      (fuel deadline : ℕ) (found : ℕ → Found W J) (k : ℕ) (r : LiveRuntime W J)
      → (((found k).stop_requested || not (ltb (found k).now deadline)) ≡ false
          → Ends deadline found (
              drain_loop fuel deadline found
                (suc k)
                (record_resource_snapshots (at_nodes (found k).nodes r))))
      → Ends deadline found (drain_loop (suc fuel) deadline found k r)
  unfolding drain_loop
  drain_turn fuel deadline found k r go_on =
      elim (Bool-cases ((found k).stop_requested || not (ltb (found k).now deadline))) [
        | inl e ↦ (k, r, rw e refl, stops→over deadline (found k) e)
        | inr e ↦
            elim (Bool-cases
              (not (any_queued (found k).nodes) && is_empty (found k).active_tasks)) [
                | inl i ↦ (k, r, rw e (rw i refl), inr (inr (ground (arith, i))))
                | inr i ↦ let (m, r', same, over) = go_on e in (m, r', rw e (rw i same), over)
              ]
      ]

  drain_from :
      (pause n deadline : ℕ) (found : ℕ → Found W J) (k : ℕ) (r : LiveRuntime W J)
      → Advances pause found
      → deadline ≤ (found k).now + pause * n
      → Ends deadline found (drain_loop (suc n) deadline found k r)
  drain_from pause zero deadline found k r up enough =
      drain_turn zero deadline found k r (λ e. absurd (ground (arith, e, enough)))
  drain_from pause (suc n) deadline found k r up enough =
      drain_turn (suc n) deadline found k r
        (λ e. drain_from pause n deadline found (suc k) _ up (omega (arith, up k, enough)))

  -- The loop at the end of a live workload ends within 301 turns, whatever the other threads do: a stop
  -- has been asked for, the 30 seconds are over, or no task waits and none is active. Each turn sleeps for
  -- 100 ms at least by a clock that does not go back, and the deadline is 30 seconds after the first turn
  -- at most.
  pub drain_loop-Ends :
      (deadline : ℕ) (found : ℕ → Found W J) (r : LiveRuntime W J)
      → Advances 100_000_000 found
      → deadline ≤ (found 0).now + drain_seconds
      → Ends deadline found (drain_loop 301 deadline found 0 r)
  drain_loop-Ends deadline found r up enough =
      drain_from 100_000_000 300 deadline found 0 r up (omega (arith, enough))

  wait_from :
      (pause n deadline : ℕ) (found : ℕ → Found W J) (k : ℕ) (queued : Bool)
      → Advances pause found
      → deadline ≤ (found k).now + pause * n
      → (m : ℕ) × (q : Bool) × (wait_loop (suc n) deadline found k queued ≡ some (m, q))
        × ((q ≡ false) ⊎ (deadline ≤ (found m).now))
  unfolding wait_loop
  wait_from pause zero deadline found k queued up enough =
      (k, queued, ground (arith, enough), inr (omega (arith, enough)))
  wait_from pause (suc n) deadline found k queued up enough =
      elim (Bool-cases (queued && ltb (found k).now deadline)) [
        | inl e ↦
            let (m, q, same, over) =
              wait_from pause n deadline found (suc k) (any_queued (found k).nodes) up
                (omega (arith, up k, enough)) in
            (m, q, rw e same, over)
        | inr e ↦ (k, queued, rw e refl, ground (arith, e))
      ]
