-- ===== src/Allocator/Viable.antt =====
-- The selection loops of resource_allocator.cpp: which of the viable edges the strategies settle on.
use multi_constraint_iot_edg.Common.{
  sym, ◌≡◌, refl, Bool, true, false, List, [], ◌∷◌, Option, none, some, arith, All, Bool-cases, inl,
  inr, subst,
}
use multi_constraint_iot_edg.Double.{Double, IsOrdered}
use multi_constraint_iot_edg.Allocator.{ltb_ℤ, best_edge}

-- A strict order, by which the loop compares the value of an edge with the bound.
pub record IsStrict {ℓ} {V : Type ℓ} (beats : V → V → Bool) : Type ℓ where
  pub irrefl : (v : V) → beats v v ≡ false
  pub trans : (u v w : V) → beats u v ≡ true → beats v w ≡ true → beats u w ≡ true

module _ {ℓ κ} {E : Type ℓ} {V : Type κ} (value : E → V) (beats : V → V → Bool)
    (strict : IsStrict beats) where
  won_step :
      (bound : V) (best : Option E) (e : E) (edges : List E)
      → beats (value e) bound ≡ true
      → best_edge value beats bound best (e ∷ edges)
        ≡ best_edge value beats (value e) (some e) edges
  unfolding best_edge
  won_step bound best e edges won = rw won

  lost_step :
      (bound : V) (best : Option E) (e : E) (edges : List E)
      → beats (value e) bound ≡ false
      → best_edge value beats bound best (e ∷ edges) ≡ best_edge value beats bound best edges
  unfolding best_edge
  lost_step bound best e edges lost = rw lost

  -- The bound only gets better, so what fails to beat it at some time fails at the end.
  not_beats-final :
      (y bound : V) (best : Option E) (edges : List E)
      → beats y bound ≡ false
      → beats y ((best_edge value beats bound best edges).0) ≡ false
  not_beats-final y bound best [] h = unfold best_edge in h
  not_beats-final y bound best (e ∷ edges) h = elim (Bool-cases (beats (value e) bound)) [
    | inl won ↦ rw (won_step bound best e edges won) (
        not_beats-final y (value e) (some e) edges (ground (arith, strict.trans y (value e) bound)))
    | inr lost ↦ rw (lost_step bound best e edges lost) (not_beats-final y bound best edges h)
  ]

  All-final :
      (bound : V) (best : Option E) (edges : List E)
      → All (λ e. beats (value e) ((best_edge value beats bound best edges).0) ≡ false) edges
  All-final bound best [] = tt
  All-final bound best (e ∷ edges) = elim (Bool-cases (beats (value e) bound)) [
    | inl won ↦
        subst (λ r. All (λ x. beats (value x) r.0 ≡ false) (e ∷ edges))
          (sym (won_step bound best e edges won))
          (
            not_beats-final (value e) (value e) (some e) edges (strict.irrefl (value e)),
            All-final (value e) (some e) edges,
          )
    | inr lost ↦
        subst (λ r. All (λ x. beats (value x) r.0 ≡ false) (e ∷ edges))
          (sym (lost_step bound best e edges lost))
          (not_beats-final (value e) bound best edges lost, All-final bound best edges)
  ]

  -- Once there is a best edge, there is one at the end, and the bound is its value.
  best_edge-some {μ} :
      (P : E → Type μ) (x : E) (edges : List E)
      → P x
      → All P edges
      → (y : E) × (best_edge value beats (value x) (some x) edges ≡ (value y, some y)) × P y
  unfolding best_edge
  best_edge-some P x [] p ps = (x, refl, p)
  best_edge-some P x (e ∷ edges) p ps = elim (Bool-cases (beats (value e) (value x))) [
    | inl won ↦ rw (won, best_edge) (best_edge-some P e edges ps.0 ps.1)
    | inr lost ↦ rw (lost, best_edge) (best_edge-some P x edges p ps.1)
  ]

  -- Where the first edge beats the bound with which the loop starts, the loop ends with an edge whose
  -- value no edge beats, and the bound is that value.
  pub best_edge_lem {μ} :
      (P : E → Type μ) (bound : V) (x : E) (edges : List E)
      → beats (value x) bound ≡ true
      → All P (x ∷ edges)
      → (y : E) × (best_edge value beats bound none (x ∷ edges) ≡ (value y, some y))
        × P y
        × All (λ e. beats (value e) (value y) ≡ false) (x ∷ edges)
  best_edge_lem P bound x edges h ps =
      let (y, e, p) = best_edge-some P x edges ps.0 ps.1 in
      let ends : best_edge value beats bound none (x ∷ edges) ≡ (value y, some y) =
        unfold best_edge in rw h e in
      (
        y,
        ends,
        p,
        subst (λ r. All (λ e. beats (value e) r.0 ≡ false) (x ∷ edges)) ends
            (All-final bound none (x ∷ edges)),
      )

module _ {W : Type 0} ⦃d : Double W⦄ (order : IsOrdered W) where
  open d use {lt}

  lt_irrefl : (x : W) → lt x x ≡ false
  lt_irrefl x = elim (Bool-cases (lt x x)) [
    | inl h ↦ let n = (order.num_of_lt x x h).0 in ground (arith, order.lt-eq-not-le x x n n)
    | inr h ↦ h
  ]

  lt_trans : (x y z : W) → lt x y ≡ true → lt y z ≡ true → lt x z ≡ true
  lt_trans x y z h k =
      let (nx, ny) = order.num_of_lt x y h in
      let nz = (order.num_of_lt y z k).1 in
      ground (
        arith,
        order.lt-eq-not-le x y nx ny,
        order.lt-eq-not-le y z ny nz,
        order.lt-eq-not-le x z nx nz,
        order.le_total y z ny nz,
        order.le_trans y z x,
      )

  pub lt-IsStrict : IsStrict lt
  lt-IsStrict = record { irrefl = lt_irrefl; trans = lt_trans }

  pub gt-IsStrict : IsStrict (λ x y. lt y x)
  gt-IsStrict = record { irrefl = lt_irrefl; trans = λ x y z h k. lt_trans z y x k h }

pub ltb_ℤ-IsStrict : IsStrict ltb_ℤ
ltb_ℤ-IsStrict = record { irrefl = λ a. ground arith; trans = λ a b c. ground arith }
