-- ===== src/Common/Dict.antt =====
-- `std::map<std::string, V>`: an association list in ascending order of its keys, which is the order
-- in which the program's loops visit it.
use mathlib.Core.Path.{◌≡◌, refl, subst}
use mathlib.Core.Logic.{inl, inr}
use mathlib.Core.Bool.{Bool, true, false}
use mathlib.Core.Option
use mathlib.Core.Option.{Option, none, some, some-injective}
use mathlib.Core.List.{List, [], ◌∷◌}
use native.Mathlib.Omega.{arith}
use multi_constraint_iot_edg.Common.Tests.{if◌then◌else◌, Bool-cases}
use multi_constraint_iot_edg.Common.Lists.{All, All-map}
use multi_constraint_iot_edg.Common.Strings.{
  Text, text_eq, text_lt, text_eq→eq, text_eq_refl, text_eq_iff, text_lt_trans, text_lt_total,
  text_lt→ne,
}

abbrev pub Dict {ℓ} : Type ℓ → Type ℓ
Dict V = List (Text × V)

module _ {ℓ} {V : Type ℓ} where
  -- `find`.
  unfoldable pub lookup : Text → Dict V → Option V
  lookup k [] = none
  lookup k ((j, v) ∷ m) = if text_eq j k then some v else lookup k m

  -- `m[k] = v`.
  unfoldable pub insert : Text → V → Dict V → Dict V
  insert k v [] = (k, v) ∷ []
  insert k v ((j, w) ∷ m) =
      if text_eq j k
      then (k, v) ∷ m
      else if text_lt k j
      then (k, v) ∷ (j, w) ∷ m
      else (j, w) ∷ insert k v m

  unfoldable pub erase : Text → Dict V → Dict V
  erase k [] = []
  erase k ((j, w) ∷ m) = if text_eq j k then m else (j, w) ∷ erase k m

  -- A call of a method on the object that the map holds under `k`.
  unfoldable pub adjust : Text → (V → V) → Dict V → Dict V
  adjust k f [] = []
  adjust k f ((j, w) ∷ m) = if text_eq j k then (j, f w) ∷ m else (j, w) ∷ adjust k f m

  -- The entries whose value passes a test, in the order of the map.
  unfoldable pub select : (V → Bool) → Dict V → Dict V
  select p [] = []
  select p ((j, w) ∷ m) = if p w then (j, w) ∷ select p m else select p m

  unfoldable pub keys : Dict V → List Text
  keys [] = []
  keys ((j, w) ∷ m) = j ∷ keys m

  abbrev pub Above : Text → Dict V → Type 0
  Above k m = All (λ e. text_lt k e.0 ≡ true) m

  abbrev pub IsAscending : Dict V → Type 0
  IsAscending [] = Unit
  IsAscending ((k, v) ∷ m) = Above k m × IsAscending m

  Above-insert :
      (j k : Text) (v : V) (m : Dict V) → text_lt j k ≡ true → Above j m → Above j (insert k v m)
  unfolding insert
  Above-insert j k v [] h a = (h, tt)
  Above-insert j k v ((i, w) ∷ m) h a = ground (arith, Above-insert j k v m h a.1)

  Above-lt : (j k : Text) (m : Dict V) → text_lt j k ≡ true → Above k m → Above j m
  Above-lt j k m h a = All-map _ _ m (λ e b. text_lt_trans j k e.0 h b) a

  lookup-Above : (k : Text) (m : Dict V) → Above k m → lookup k m ≡ none
  unfolding lookup
  lookup-Above k [] a = refl
  lookup-Above k ((j, w) ∷ m) a =
      ground (arith, text_lt→ne k j, text_eq_iff k j, text_eq_iff j k, lookup-Above k m a.1)

  -- A write keeps the keys ascending, so no key stands twice.
  pub insert-IsAscending :
      (k : Text) (v : V) (m : Dict V) → IsAscending m → IsAscending (insert k v m)
  unfolding insert
  insert-IsAscending k v [] s = (tt, tt)
  insert-IsAscending k v ((j, w) ∷ m) s = elim (Bool-cases (text_eq j k)) [
    | inl e ↦ rw (e, insert) (rw (text_eq→eq j k e) at s)
    | inr e ↦ elim (Bool-cases (text_lt k j)) [
      | inl h ↦ rw (e, insert) (rw (h, insert) ((h, Above-lt k j m h s.0), s))
      | inr h ↦
          rw (e, insert)
            (rw (h, insert)
              (Above-insert j k v m (text_lt_total j k e h) s.0, insert-IsAscending k v m s.1))
    ]
  ]

  pub lookup-insert :
      (k j : Text) (v : V) (m : Dict V)
      → lookup j (insert k v m) ≡ (if text_eq k j then some v else lookup j m)
  unfolding lookup insert
  lookup-insert k j v [] = refl
  lookup-insert k j v ((i, w) ∷ m) =
      ground (arith, text_eq_iff k j, text_eq_iff i k, text_eq_iff i j, lookup-insert k j v m)

  pub lookup-adjust :
      (k j : Text) (f : V → V) (m : Dict V)
      → lookup j (adjust k f m) ≡ (if text_eq k j then Option.map f (lookup j m) else lookup j m)
  unfolding lookup adjust
  lookup-adjust k j f [] = ground arith
  lookup-adjust k j f ((i, w) ∷ m) =
      ground (arith, text_eq_iff k j, text_eq_iff i k, text_eq_iff i j, lookup-adjust k j f m)

  pub lookup-adjust_self :
      (k : Text) (f : V → V) (m : Dict V) (v : V)
      → lookup k m ≡ some v
      → lookup k (adjust k f m) ≡ some (f v)
  lookup-adjust_self k f m v at = rw (lookup-adjust, text_eq_refl, at) refl

  pub lookup-adjust_other :
      (k j : Text) (f : V → V) (m : Dict V)
      → text_eq k j ≡ false
      → lookup j (adjust k f m) ≡ lookup j m
  lookup-adjust_other k j f m other = rw (lookup-adjust, other) refl

  pub lookup-erase :
      (k j : Text) (m : Dict V)
      → IsAscending m
      → lookup j (erase k m) ≡ (if text_eq k j then none else lookup j m)
  unfolding lookup erase
  lookup-erase k j [] s = ground arith
  lookup-erase k j ((i, w) ∷ m) s = ground (
    arith,
    text_eq_iff k j,
    text_eq_iff i k,
    text_eq_iff i j,
    lookup-erase k j m s.1,
    lookup-Above i m s.0,
  )

  adjust-Above : (j k : Text) (f : V → V) (m : Dict V) → Above j m → Above j (adjust k f m)
  unfolding adjust
  adjust-Above j k f [] a = tt
  adjust-Above j k f ((i, w) ∷ m) a = ground (arith, adjust-Above j k f m a.1)

  pub adjust-IsAscending :
      (k : Text) (f : V → V) (m : Dict V) → IsAscending m → IsAscending (adjust k f m)
  unfolding adjust
  adjust-IsAscending k f [] s = tt
  adjust-IsAscending k f ((i, w) ∷ m) s =
      ground (arith, adjust-Above i k f m s.0, adjust-IsAscending k f m s.1)

  abbrev pub Values {κ} : (V → Type κ) → Dict V → Type κ
  Values P = All (λ e. P e.1)

  pub Values-lookup {κ} :
      (P : V → Type κ) (k : Text) (m : Dict V) {v : V} → Values P m → lookup k m ≡ some v → P v
  unfolding lookup
  Values-lookup P k [] h e = cc
  Values-lookup P k ((j, w) ∷ m) h e = elim (Bool-cases (text_eq j k)) [
    | inl p ↦ subst P (some-injective _ _ (rw (p, lookup) at e)) h.0
    | inr p ↦ Values-lookup P k m h.1 (rw (p, lookup) at e)
  ]

  -- A method call keeps what holds of all objects, if it does so at the object that is called.
  pub Values-adjust {κ} :
      (P : V → Type κ) (k : Text) (f : V → V) (m : Dict V)
      → Values P m
      → ((v : V) → lookup k m ≡ some v → P v → P (f v))
      → Values P (adjust k f m)
  unfolding lookup adjust
  Values-adjust P k f [] h g = tt
  Values-adjust P k f ((j, w) ∷ m) h g = elim (Bool-cases (text_eq j k)) [
    | inl p ↦ rw (p, adjust) (g w (rw (p, lookup)) h.0, h.1)
    | inr p ↦ rw (p, adjust) (h.0, Values-adjust P k f m h.1 (λ v e. g v (rw (p, lookup) e)))
  ]

  lookup_self : (k : Text) (v : V) (m : Dict V) → lookup k ((k, v) ∷ m) ≡ some v
  unfolding lookup
  lookup_self k v m = ground (arith, text_eq_iff k k)

  -- Each selected entry is what `find` gives at its key, and passes the test.
  abbrev pub IsEntry : (V → Bool) → Dict V → Text × V → Type ℓ
  IsEntry p m (k, v) = (lookup k m ≡ some v) × (p v ≡ true)

  IsEntry-cons :
      (p : V → Bool) (j : Text) (w : V) (m es : Dict V)
      → Above j m
      → All (IsEntry p m) es
      → All (IsEntry p ((j, w) ∷ m)) es
  unfolding lookup
  IsEntry-cons p j w m [] a h = tt
  IsEntry-cons p j w m ((k, v) ∷ es) a h = (
    (ground (arith, lookup-Above j m a, text_eq_iff j k, h.0.0), h.0.1),
    IsEntry-cons p j w m es a h.1,
  )

  pub All-select : (p : V → Bool) (m : Dict V) → IsAscending m → All (IsEntry p m) (select p m)
  unfolding select
  All-select p [] s = tt
  All-select p ((j, w) ∷ m) s =
      let rest = IsEntry-cons p j w m (select p m) s.0 (All-select p m s.1) in
      elim (Bool-cases (p w)) [
        | inl e ↦ rw (e, select) ((lookup_self j w m, e), rest)
        | inr e ↦ rw (e, select) rest
      ]
