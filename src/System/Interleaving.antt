-- ===== src/System/Interleaving.antt =====
-- Every interleaving of the threads of live_runtime.cpp and task_executor.cpp keeps the accounts of the
-- nodes.
use multi_constraint_iot_edg.Scheduler.{Readings, TaskScheduler, get_next_task, schedule_task}
use multi_constraint_iot_edg.Executor.{finish_execution, begin_execution}
use multi_constraint_iot_edg.Allocator.{is_viable}
use multi_constraint_iot_edg.Common.{
  Option, ℤ, inr, text_eq→eq, inl, All, Bool-cases, ◌≡◌, ℕ, some, none, true, ◌+◌, text_eq, Text,
  refl, sym, ◌∙◌, some-injective, subst, ap,
}
use multi_constraint_iot_edg.Common.Dict.{adjust, lookup}
use multi_constraint_iot_edg.Double.{Double, IsCounted}
use multi_constraint_iot_edg.Task.{Task}
use multi_constraint_iot_edg.Edge.{EdgeNode, deallocate_resources}
use multi_constraint_iot_edg.Scheduler.Order.{get_next_task-handed, schedule_task-some}
use multi_constraint_iot_edg.System.{
  finished, begun, System, Site, Placing, idle, checked, reserved, Step, allocate_for, on_node,
  check, reserve, schedule, take, finish, configure, mark,
}
use multi_constraint_iot_edg.System.Accounting.{
  IsMeasured, load, IsSettled, IsSound, Resource, checked_for, reserved_for, placed, recount,
}
use multi_constraint_iot_edg.System.Sites.{
  Settled, Settled-adjust, check-IsSettled, reserve-IsSettled, schedule-IsSettled, take-IsSettled,
  finish-IsSettled, deallocate-IsRelease,
}

module _ {W J : Type 0} ⦃d : Double W⦄ (counted : IsCounted W) (roof : Resource → Text → ℕ) where
  -- At a node that the loop is not concerned with, the account does not depend on it.
  elsewhere :
      (p p' : Placing W J) (key : Text) (w : Site W J)
      → ((r : Resource) → reserved_for counted r key p ≡ reserved_for counted r key p')
      → ((r : Resource) → checked_for counted r key p ≡ checked_for counted r key p')
      → IsSettled counted roof p key w
      → IsSettled counted roof p' key w
  elsewhere p p' key w held promised settled = record {
    accounts = λ r.
        recount counted _ _ _ _ _ _ (settled.accounts r) (ap (λ n. load counted r w + n) (held r))
          (promised r);
    queue = settled.queue;
    worker = settled.worker;
  }

  module _ (Offered : Task W J → Type 0)
      (measured : (t : Task W J) → Offered t → IsMeasured counted t) where
    check-IsSound :
        (s : System W J) (task : Task W J) (key : Text) (w : Site W J)
        → Offered task
        → s.placing ≡ idle
        → lookup key s.sites ≡ some w
        → is_viable task w.node ≡ true
        → IsSound counted roof s
        → IsSound counted roof (record s { placing = checked key task })
    check-IsSound s task key w offered free found viable (doing, settled) = (
      (measured task offered, tt),
      λ k v at.
          let before = subst (λ p. IsSettled counted roof p k v) free (settled k v at) in
          elim (Bool-cases (text_eq key k)) [
            | inl e ↦
                let here_k : key ≡ k = text_eq→eq key k e in
                let one : w ≡ v = some-injective _ _ (sym found ∙ rw here_k at) in
                subst (λ i. IsSettled counted roof (checked key task) i v) here_k
                  (check-IsSettled counted roof task key v (measured task offered)
                    (rw (sym one) viable) (rw here_k before))
            | inr e ↦ elsewhere idle (checked key task) k v (λ r. refl) (λ r. rw e refl) before
          ],
    )

    reserve-IsSound :
        (s : System W J) (task : Task W J) (key : Text)
        → s.placing ≡ checked key task
        → IsSound counted roof s
        → IsSound counted roof (record s {
          sites = adjust key (on_node (allocate_for task)) s.sites;
          placing = reserved key task;
        })
    reserve-IsSound s task key promised (doing, settled) =
        let (own, _) = subst (λ p. All (IsMeasured counted) (placed counted p)) promised doing in
        (
          (own, tt),
          Settled-adjust counted roof (checked key task) (reserved key task) key _ s.sites
              (subst (λ p. Settled counted roof p s.sites) promised settled)
              (λ v at h. reserve-IsSettled counted roof task key v own h)
              (λ k v apart h. elsewhere _ _ k v (λ r. rw apart refl) (λ r. rw apart refl) h),
        )

    schedule-IsSound :
        (s : System W J) (task : Task W J) (key : Text) (w : Site W J) (scheduler : TaskScheduler)
        (e : EdgeNode W J) (queued : Option (Task W J))
        → s.placing ≡ reserved key task
        → lookup key s.sites ≡ some w
        → schedule_task s.scheduler (some w.node) (some task) ≡ (scheduler, some e, queued)
        → IsSound counted roof s
        → IsSound counted roof (record s {
          sites = adjust key (on_node (λ old. e)) s.sites;
          placing = idle;
          scheduler = scheduler;
        })
    unfolding schedule_task
    schedule-IsSound s task key w scheduler e queued held found given (doing, settled) =
        let (own, _) = subst (λ p. All (IsMeasured counted) (placed counted p)) held doing in
        (
          tt,
          Settled-adjust counted roof (reserved key task) idle key _ s.sites
              (subst (λ p. Settled counted roof p s.sites) held settled)
              (λ v at h.
                let one : w ≡ v = some-injective _ _ (sym found ∙ at) in
                let there : some e ≡ some _ =
                  sym (ap (λ p. p.1) given) ∙ schedule_task-some s.scheduler w.node task in
                let put = some-injective _ _ there in
                rw (put, one) (schedule-IsSettled counted roof task _ key v own refl h))
              (λ k v apart h. elsewhere _ _ k v (λ r. rw apart refl) (λ r. refl) h),
        )

    take-IsSound :
        (s : System W J) (now : Readings) (key : Text) (w : Site W J) (task : Task W J)
        (e : EdgeNode W J)
        → lookup key s.sites ≡ some w
        → w.running ≡ none
        → get_next_task now s.scheduler (some w.node) ≡ (some task, some e)
        → IsSound counted roof s
        → IsSound counted roof (begun key e task s)
    unfolding begin_execution
    take-IsSound s now key w task e found free given (doing, settled) = (
      doing,
      Settled-adjust counted roof s.placing s.placing key _ s.sites settled
          (λ v at h.
            let one : w ≡ v = some-injective _ _ (sym found ∙ at) in
            let (rest, left, chosen) = get_next_task-handed now s.scheduler w.node e task given in
            rw (left, one)
              (take-IsSettled counted roof s.placing key v task _ s.scheduler.strategy rest
                (rw (sym one) free) (rw (sym one) chosen) refl h))
          (λ k v apart h. h),
    )

    finish-IsSound :
        (s : System W J) (now : ℕ) (ms : ℤ) (key : Text) (w : Site W J) (task : Task W J)
        → lookup key s.sites ≡ some w
        → w.running ≡ some task
        → IsSound counted roof s
        → IsSound counted roof (finished now ms key w.node task s)
    unfolding finish_execution
    finish-IsSound s now ms key w task found busy (doing, settled) = (
      doing,
      Settled-adjust counted roof s.placing s.placing key _ s.sites settled
          (λ v at h.
            let one : w ≡ v = some-injective _ _ (sym found ∙ at) in
            finish-IsSettled counted roof s.placing key v _ task (rw (sym one) busy)
              (rw (sym one) (deallocate-IsRelease counted roof task w.node))
              (rw (sym one) (unfold deallocate_resources in refl)) h)
          (λ k v apart h. h),
    )

    pub Step-IsSound :
        {s s' : System W J} → Step Offered s s' → IsSound counted roof s → IsSound counted roof s'
    Step-IsSound {s = s} (check task key w offered free found viable) sound =
        check-IsSound s task key w offered free found viable sound
    Step-IsSound {s = s} (reserve task key promised) sound =
        reserve-IsSound s task key promised sound
    Step-IsSound {s = s} (schedule task key w scheduler e queued held found given) sound =
        schedule-IsSound s task key w scheduler e queued held found given sound
    Step-IsSound {s = s} (take now key w task e found free given) sound =
        take-IsSound s now key w task e found free given sound
    Step-IsSound {s = s} (finish now ms key w task found busy) sound =
        finish-IsSound s now ms key w task found busy sound
    Step-IsSound {s = s} (configure strategy) sound = sound
    Step-IsSound {s = s} (mark available key) (doing, settled) = (
      doing,
      Settled-adjust counted roof s.placing s.placing key _ s.sites settled
          (λ v at h. record { accounts = h.accounts; queue = h.queue; worker = h.worker })
          (λ k v apart h. h),
    )
