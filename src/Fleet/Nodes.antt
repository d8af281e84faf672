-- ===== src/Fleet/Nodes.antt =====
-- What `createEdgeNodes` of main.cpp, as `makeEdges` of live_runtime.cpp, gives the monitor.
use multi_constraint_iot_edg.Common.{
  ltb, subst, ℕ, zero, suc, ◌+◌, ◌<◌, ◌^◌, ◌≡◌, ◌≢◌, refl, sym, ap, ◌∙◌, List, [], ◌∷◌, ◌++◌, some,
  Text, ℤ, get_elem?, length, length-append, text_eq, text_eq→eq, text_eq_refl, false, Bool-cases,
  inl, inr, arith,
}
use multi_constraint_iot_edg.Common.Dict.{
  Dict, lookup, insert, IsAscending, lookup-insert, insert-IsAscending,
}
use multi_constraint_iot_edg.Double.{Double}
use multi_constraint_iot_edg.Outcome.{Returns-bind, Returns}
use multi_constraint_iot_edg.Edge.{EdgeNode, new_edge_node}
use multi_constraint_iot_edg.Monitor.{ResourceMonitor, register_edge_node}
use multi_constraint_iot_edg.Manager.Identifiers.{read_digits, read_padded}
use multi_constraint_iot_edg.Database.Sqlite.{Sqlite}
use multi_constraint_iot_edg.Database.Manager.{DatabaseManager}
use multi_constraint_iot_edg.Fleet.{
  Fleet, edge_id_of, fleet_node, repeat_from, add_edge, create_edge_nodes,
}

-- The number in an identifier, behind its first letter.
abbrev number_in : Text → ℕ
number_in [] = 0
number_in (c ∷ t) = read_digits 0 t

edge_id_of-distinct :
    (m n : ℕ) → m < 2 ^ 64 → n < 2 ^ 64 → m ≢ n → text_eq (edge_id_of m) (edge_id_of n) ≡ false
unfolding edge_id_of
edge_id_of-distinct m n h k ne = elim (Bool-cases (text_eq (edge_id_of m) (edge_id_of n))) [
  | inl e ↦
      absurd (ne (sym (read_padded 2 m h) ∙ ap number_in (text_eq→eq _ _ e) ∙ read_padded 2 n k))
  | inr e ↦ e
]

module _ {ℓ} {A : Type ℓ} where
  get_elem?-append_lt :
      (xs ys : List A) (i : ℕ) → i < length xs → get_elem? (xs ++ ys) i ≡ get_elem? xs i
  get_elem?-append_lt [] ys i h = absurd (omega (arith, h))
  get_elem?-append_lt (x ∷ xs) ys zero h = refl
  get_elem?-append_lt (x ∷ xs) ys (suc i) h = get_elem?-append_lt xs ys i (omega (arith, h))

  get_elem?-append_end : (xs : List A) (y : A) → get_elem? (xs ++ y ∷ []) (length xs) ≡ some y
  get_elem?-append_end [] y = refl
  get_elem?-append_end (x ∷ xs) y = get_elem?-append_end xs y

module _ {W J D R : Type 0} ⦃d : Double W⦄ (sqlite : Sqlite W D R) (draw : ℕ → W × W × ℤ) where
  -- The first `count` nodes are there, in the list by position and in the monitor by identifier.
  pub record IsStocked (count : ℕ) (f : Fleet W J D) : Type 0 where
    pub size : length f.nodes ≡ count
    pub listed : (i : ℕ) → i < count → get_elem? f.nodes i ≡ some (fleet_node draw i)
    pub registered :
        (i : ℕ)
        → i < count
        → lookup (edge_id_of (i + 1)) f.monitor.edge_nodes ≡ some (fleet_node draw i)
    pub ascending : IsAscending f.monitor.edge_nodes
    pub free : f.monitor.nodes_mutex_held ≡ false

  listed_after :
      (i j : ℕ) (nodes : List (EdgeNode W J))
      → length nodes ≡ i
      → ((k : ℕ) → k < i → get_elem? nodes k ≡ some (fleet_node draw k))
      → j < i + 1
      → get_elem? (nodes ++ fleet_node draw i ∷ []) j ≡ some (fleet_node draw j)
  listed_after i j nodes size listed h = elim (Bool-cases (ltb j i)) [
    | inl less ↦
        get_elem?-append_lt nodes (fleet_node draw i ∷ []) j (ground (arith, size, less))
        ∙ listed j (ground (arith, less))
    | inr more ↦
        let last : j ≡ i = ground (arith, h, more) in
        rw (last, sym size) (get_elem?-append_end nodes (fleet_node draw (length nodes)))
  ]

  registered_after :
      (i j : ℕ) (m : Dict (EdgeNode W J))
      → i + 1 < 2 ^ 64
      → ((k : ℕ) → k < i → lookup (edge_id_of (k + 1)) m ≡ some (fleet_node draw k))
      → j < i + 1
      → lookup (edge_id_of (j + 1)) (insert (edge_id_of (i + 1)) (fleet_node draw i) m)
        ≡ some (fleet_node draw j)
  registered_after i j m small registered h = elim (Bool-cases (ltb j i)) [
    | inl less ↦
        let below : j < i = ground (arith, less) in
        let apart =
          edge_id_of-distinct (i + 1) (j + 1) small (omega (arith, small, below))
            (λ e. omega (arith, e, below)) in
        rw (lookup-insert, apart) (registered j below)
    | inr more ↦
        let last : j ≡ i = ground (arith, h, more) in rw (last, lookup-insert, text_eq_refl) refl
  ]

  add_edge-IsStocked :
      (i : ℕ) (f : Fleet W J D)
      → i + 1 < 2 ^ 64
      → IsStocked i f
      → Returns (IsStocked (i + 1)) (add_edge sqlite draw i f)
  unfolding add_edge register_edge_node fleet_node new_edge_node
  add_edge-IsStocked i f small s = rw s.free (record {
    size = omega (arith, length-append f.nodes (fleet_node draw i ∷ []), s.size);
    listed = λ j h. listed_after i j f.nodes s.size s.listed h;
    registered = λ j h. registered_after i j f.monitor.edge_nodes small s.registered h;
    ascending = insert-IsAscending _ _ _ s.ascending;
    free = refl;
  })

  repeat_from-IsStocked :
      (left i : ℕ) (f : Fleet W J D)
      → i + left < 2 ^ 64
      → IsStocked i f
      → Returns (IsStocked (i + left)) (repeat_from (add_edge sqlite draw) left i f)
  unfolding repeat_from
  repeat_from-IsStocked zero i f small s = subst (λ n. IsStocked n f) (omega arith) s
  repeat_from-IsStocked (suc left) i f small s =
      Returns-bind (IsStocked (i + 1)) (IsStocked (i + suc left))
        (repeat_from (add_edge sqlite draw) left (suc i)) (add_edge sqlite draw i f)
        (λ g t.
          subst (λ n. Returns (IsStocked n) (repeat_from (add_edge sqlite draw) left (suc i) g))
            (omega arith)
            (repeat_from-IsStocked left (suc i) g (omega (arith, small))
              (subst (λ n. IsStocked n g) (omega arith) t)))
        (add_edge-IsStocked i f (omega (arith, small)) s)

  -- The construction of the nodes returns, and there are as many as asked for: the node of each turn is
  -- fresh, has the identifier of its number and stands at its place in the list, and the monitor finds it
  -- under its identifier, which no later node takes from it. The monitor is empty and its mutex free
  -- before, and the count does not exceed 64 bits.
  pub create_edge_nodes-IsStocked :
      (count : ℕ) (monitor : ResourceMonitor W J) (manager : DatabaseManager D)
      → count < 2 ^ 64
      → monitor.edge_nodes ≡ []
      → monitor.nodes_mutex_held ≡ false
      → Returns (IsStocked count) (create_edge_nodes sqlite draw count monitor manager)
  unfolding create_edge_nodes
  create_edge_nodes-IsStocked count monitor manager small empty free =
      subst (λ n. Returns (IsStocked n) (create_edge_nodes sqlite draw count monitor manager))
        (omega arith)
        (repeat_from-IsStocked count 0 _ (omega (arith, small)) (record {
          size = refl;
          listed = λ i h. absurd (omega (arith, h));
          registered = λ i h. absurd (omega (arith, h));
          ascending = rw empty tt;
          free = free;
        }))
