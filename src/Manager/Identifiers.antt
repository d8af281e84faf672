-- ===== src/Manager/Identifiers.antt =====
-- The identifiers that task_manager.cpp gives out, read back as numbers.
use multi_constraint_iot_edg.Common.{
  ℕ, zero, suc, ◌+◌, ◌*◌, ◌-◌, ◌/◌, ◌^◌, ◌<◌, ◌≡◌, ◌≢◌, refl, sym, ap, ◌∙◌, List, [], ◌∷◌, ◌++◌,
  arith, Text, ltb, Bool-cases, inl, inr, length, u64,
}
use multi_constraint_iot_edg.Manager.{
  TaskManager, generate_task_id, digits, reverse_onto, decimal, zeros, padded, task_id_of,
}

-- The number that a text of digits is worth, with `acc` for what was read before.
unfoldable pub read_digits : ℕ → Text → ℕ
read_digits acc [] = acc
read_digits acc (c ∷ t) = read_digits (10 * acc + (c - 48)) t

-- An identifier without its first letter, as a number.
unfoldable pub read_id : Text → ℕ
read_id [] = 0
read_id (c ∷ t) = read_digits 0 t

-- The number that digits are worth, least significant first.
worth : List ℕ → ℕ
worth [] = 0
worth (c ∷ t) = (c - 48) + 10 * worth t

read_digits-append :
    (acc : ℕ) (t u : Text) → read_digits acc (t ++ u) ≡ read_digits (read_digits acc t) u
unfolding read_digits
read_digits-append acc [] u = refl
read_digits-append acc (c ∷ t) u = read_digits-append (10 * acc + (c - 48)) t u

-- Reversed digits, read after `acc`: the power of ten makes room for them.
read_digits-reverse :
    (ds acc : List ℕ) → read_digits 0 (reverse_onto acc ds) ≡ read_digits (worth ds) acc
unfolding reverse_onto worth read_digits
read_digits-reverse [] acc = refl
read_digits-reverse (c ∷ ds) acc =
    read_digits-reverse ds (c ∷ acc) ∙ ap (λ n. read_digits n acc) (omega arith)

-- 10 to the power of `fuel`.
bound : ℕ → ℕ
bound zero = 1
bound (suc fuel) = 10 * bound fuel

worth-digits : (fuel n : ℕ) → n < bound fuel → worth (digits fuel n) ≡ n
unfolding worth digits bound
worth-digits zero n h = omega (arith, h)
worth-digits (suc fuel) n h = elim (Bool-cases (ltb n 10)) [
  | inl small ↦ rw small (ground arith)
  | inr big ↦ rw big (ground (arith, worth-digits fuel (n / 10) (omega (arith, h))))
]

read_digits-zeros : (k : ℕ) → read_digits 0 (zeros k) ≡ 0
unfolding read_digits zeros
read_digits-zeros zero = refl
read_digits-zeros (suc k) = read_digits-zeros k

read_digits-padded : (width : ℕ) (t : Text) → read_digits 0 (padded width t) ≡ read_digits 0 t
unfolding padded
read_digits-padded width t =
    read_digits-append 0 (zeros (width - length t)) t
    ∙ ap (λ n. read_digits n t) (read_digits-zeros (width - length t))

-- Twenty digits are enough for a number of 64 bits, and the padding does not change what is read.
pub read_padded : (width n : ℕ) → n < 2 ^ 64 → read_digits 0 (padded width (decimal n)) ≡ n
unfolding decimal read_digits bound
read_padded width n h =
    read_digits-padded width (decimal n)
    ∙ read_digits-reverse (digits 20 n) []
    ∙ worth-digits 20 n (omega (arith, h))

read_id-task_id_of : (n : ℕ) → n < 2 ^ 64 → read_id (task_id_of n) ≡ n
unfolding read_id task_id_of
read_id-task_id_of n h = read_padded 6 n h

module _ {W J : Type 0} where
  -- Two identifiers that are given out at different counts are different texts, as long as the counter
  -- does not wrap: the padding to six digits does not make two of them the same.
  pub generate_task_id-distinct :
      (m m' : TaskManager W J)
      → m.task_counter < 2 ^ 64 - 1
      → m'.task_counter < 2 ^ 64 - 1
      → m.task_counter ≢ m'.task_counter
      → (generate_task_id m).0 ≢ (generate_task_id m').0
  unfolding generate_task_id
  generate_task_id-distinct m m' h h' ne same =
      let one = read_id-task_id_of (u64 (m.task_counter + 1)) (omega arith) in
      let two = read_id-task_id_of (u64 (m'.task_counter + 1)) (omega arith) in
      let both : u64 (m.task_counter + 1) ≡ u64 (m'.task_counter + 1) =
        sym one ∙ ap read_id same ∙ two in
      ne (omega (arith, both, h, h'))
