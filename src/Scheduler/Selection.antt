-- ===== src/Scheduler/Selection.antt =====
-- `std::max_element` and `std::min_element` followed by `erase`, as `TaskScheduler::getNextTask` of
-- task_scheduler.cpp uses them.
use mathlib.Core.List.{Perm, perm_middle}
use mathlib.Core.List.Perm
use multi_constraint_iot_edg.Common.{
  ℕ, zero, suc, ◌+◌, ◌≡◌, refl, ap, Bool, true, false, List, [], ◌∷◌, ◌++◌, Option, none, some,
  arith, length, get_elem?, All, All-append, All-map, if◌then◌else◌, Bool-cases, inl, inr,
  length-append, append_assoc, append-nil,
}

module _ {ℓ} {A : Type ℓ} where
  -- An iterator is a position. The first element is the candidate, and a later one takes its place
  -- where `replaces` says so of the candidate and of it. A comparison may depend on when it is made, so
  -- that each has a number, the position of the later element.
  best_from : (ℕ → A → A → Bool) → ℕ → A → ℕ → List A → ℕ
  best_from replaces best candidate i [] = best
  best_from replaces best candidate i (x ∷ xs) =
      let won = replaces i candidate x in
      best_from replaces (if won then i else best) (if won then x else candidate) (i + 1) xs

  erase_at : List A → ℕ → List A
  erase_at [] i = []
  erase_at (x ∷ xs) zero = xs
  erase_at (x ∷ xs) (suc i) = x ∷ erase_at xs i

  with_rest : Option A → List A → Option (A × List A)
  with_rest none rest = none
  with_rest (some x) rest = some (x, rest)

  -- `*it`, and the sequence after `erase(it)`.
  unfoldable pub pick_by : (ℕ → A → A → Bool) → List A → Option (A × List A)
  unfolding best_from erase_at with_rest
  pick_by replaces [] = none
  pick_by replaces (x ∷ xs) =
      let it = best_from replaces 0 x 1 xs in
      with_rest (get_elem? (x ∷ xs) it) (erase_at (x ∷ xs) it)

  get_elem?-middle :
      (pre : List A) (x : A) (post : List A) → get_elem? (pre ++ x ∷ post) (length pre) ≡ some x
  get_elem?-middle [] x post = refl
  get_elem?-middle (p ∷ pre) x post = get_elem?-middle pre x post

  erase_at-middle :
      (pre : List A) (x : A) (post : List A) → erase_at (pre ++ x ∷ post) (length pre) ≡ pre ++ post
  unfolding erase_at
  erase_at-middle [] x post = refl
  erase_at-middle (p ∷ pre) x post = ap (◌∷◌ p) (erase_at-middle pre x post)

  All-split {κ} : (P : A → Type κ) (xs ys : List A) → All P (xs ++ ys) → All P xs × All P ys
  All-split P [] ys h = (tt, h)
  All-split P (x ∷ xs) ys h = let (p, q) = All-split P xs ys h.1 in ((h.0, p), q)

  -- What a selection gives: the sequence splits at the selected element, which is `Over` all that stand
  -- before it and `Beside` all behind it; the others keep their order.
  pub record Selects (Over Beside : A → A → Type 0) (xs : List A) (x : A) (rest : List A)
      : Type ℓ where
    pub before : List A
    pub behind : List A
    pub whole : xs ≡ before ++ x ∷ behind
    pub others : rest ≡ before ++ behind
    pub over_before : All (Over x) before
    pub beside_behind : All (Beside x) behind

  pub Selects-perm :
      {Over Beside : A → A → Type 0} {xs : List A} {x : A} {rest : List A}
      → Selects Over Beside xs x rest
      → Perm (x ∷ rest) xs
  Selects-perm {x = x} h = rw (h.whole, h.others) (Perm.symm (perm_middle h.before h.behind))

  pub Selects-length :
      {Over Beside : A → A → Type 0} {xs : List A} {x : A} {rest : List A}
      → Selects Over Beside xs x rest
      → length xs ≡ suc (length rest)
  Selects-length {x = x} h =
      rw (h.whole, h.others)
        (omega (arith, length-append h.before (x ∷ h.behind), length-append h.before h.behind))

  pub Selects-All {κ} :
      (P : A → Type κ) {Over Beside : A → A → Type 0} {xs : List A} {x : A} {rest : List A}
      → Selects Over Beside xs x rest
      → All P xs
      → P x × All P rest
  Selects-All P {x = x} h a =
      let (p, qr) = All-split P h.before (x ∷ h.behind) (rw h.whole at a) in
      (qr.0, rw h.others (All-append P h.before h.behind p qr.1))

  -- What the comparisons of elements that are `Fit` have to do with the two relations: an element that
  -- replaces the candidate is over it and over all that the candidate was over or beside, and one that
  -- does not stays below it.
  pub record IsRanked (Fit : A → Type 0) (replaces : ℕ → A → A → Bool)
      (Over Beside : A → A → Type 0) : Type ℓ where
    pub wins : (i : ℕ) (a b : A) → Fit a → Fit b → replaces i a b ≡ true → Over b a
    pub holds : (i : ℕ) (a b : A) → Fit a → Fit b → replaces i a b ≡ false → Beside a b
    pub over : (i : ℕ) (a b c : A) → Fit a → Fit b → replaces i a b ≡ true → Over a c → Over b c
    pub beside : (i : ℕ) (a b c : A) → Fit a → Fit b → replaces i a b ≡ true → Beside a c → Over b c

  -- The same of a position.
  record IsWinner (Over Beside : A → A → Type 0) (whole : List A) (it : ℕ) : Type ℓ where
    before : List A
    winner : A
    behind : List A
    splits : whole ≡ before ++ winner ∷ behind
    position : it ≡ length before
    over_before : All (Over winner) before
    beside_behind : All (Beside winner) behind

  module _ (Fit : A → Type 0) (replaces : ℕ → A → A → Bool) (Over Beside : A → A → Type 0)
      (ranked : IsRanked Fit replaces Over Beside) where
    best_from-IsWinner :
        (xs whole before : List A) (x : A) (behind : List A) (best i : ℕ)
        → whole ≡ before ++ x ∷ (behind ++ xs)
        → best ≡ length before
        → i ≡ best + suc (length behind)
        → Fit x
        → All Fit xs
        → All (Over x) before
        → All (Beside x) behind
        → IsWinner Over Beside whole (best_from replaces best x i xs)
    unfolding best_from
    best_from-IsWinner [] whole before x behind best i w b n fx fs p q = record {
      before = before;
      winner = x;
      behind = behind;
      splits = rw append-nil at w;
      position = b;
      over_before = p;
      beside_behind = q;
    }
    best_from-IsWinner (y ∷ ys) whole before x behind best i w b n fx fs p q =
        elim (Bool-cases (replaces i x y)) [
          | inl e ↦
              rw (e, best_from)
                (best_from-IsWinner ys whole (before ++ x ∷ behind) y [] i (i + 1)
                  (simp append_assoc w) (omega (arith, length-append before (x ∷ behind)))
                  (omega arith) fs.0 fs.1
                  (All-append _ before (x ∷ behind)
                    (All-map _ _ before (λ t h. ranked.over i x y t fx fs.0 e h) p)
                    (
                      ranked.wins i x y fx fs.0 e,
                      All-map _ _ behind (λ t h. ranked.beside i x y t fx fs.0 e h) q,
                    ))
                  tt)
          | inr e ↦
              rw (e, best_from)
                (best_from-IsWinner ys whole before x (behind ++ y ∷ []) best (i + 1)
                  (simp append_assoc w) b (omega (arith, length-append behind (y ∷ []))) fx fs.1 p
                  (All-append _ behind (y ∷ []) q (ranked.holds i x y fx fs.0 e, tt)))
        ]

    Winner-Selects :
        (xs : List A) (it : ℕ)
        → IsWinner Over Beside xs it
        → (x : A) × (rest : List A) × (with_rest (get_elem? xs it) (erase_at xs it)
            ≡ some (x, rest))
          × Selects Over Beside xs x rest
    unfolding with_rest
    Winner-Selects xs it v = (
      v.winner,
      v.before ++ v.behind,
      rw (v.splits, v.position, get_elem?-middle v.before v.winner v.behind)
          (rw (erase_at-middle v.before v.winner v.behind)),
      record {
        before = v.before;
        behind = v.behind;
        whole = v.splits;
        others = refl;
        over_before = v.over_before;
        beside_behind = v.beside_behind;
      },
    )

    -- From a sequence that is not empty the first of the best elements is taken.
    pub pick_by-Selects :
        (x : A) (xs : List A)
        → All Fit (x ∷ xs)
        → (y : A) × (rest : List A) × (pick_by replaces (x ∷ xs) ≡ some (y, rest))
          × Selects Over Beside (x ∷ xs) y rest
    unfolding pick_by
    pick_by-Selects x xs fit =
        Winner-Selects (x ∷ xs) (best_from replaces 0 x 1 xs)
          (best_from-IsWinner xs (x ∷ xs) [] x [] 0 1 refl refl (omega arith) fit.0 fit.1 tt tt)
