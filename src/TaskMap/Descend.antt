-- ===== src/TaskMap/Descend.antt =====
-- The descent of `MapTaskPage` to the node of an address.
use veil_os.Base.{
  ℕ, zero, suc, ◌+◌, ◌≤◌, ◌<◌, ◌≡◌, ◌≢◌, inl, inr, refl, sym, ap, ◌∙◌, none, some, arith,
  Option-cases,
}
use mathlib.Core.Path.{subst}
use veil_os.TaskMap.{TaskTree, va_part, find_node, add_node, step_down, descend, mapping_levels}
use veil_os.TaskMap.Grow.{
  InRange, IsTree, Extends, Extends-refl, Extends-trans, child-ne, find_some, add_node-IsTree,
  add_node-Extends, add_node-child,
}

module _ {T : Type 0} where
  -- What a descent of `n` levels from `a` promises.
  abbrev pub Reached : TaskTree T → (n va i a : ℕ) → TaskTree T × ℕ → Type 0
  Reached s n va i a r =
      IsTree (r.0) × Extends s (r.0) × (r.1 < r.0.count) × (find_node (r.0) n va i a ≡ some (r.1))

  step_old :
      (s : TaskTree T) (n va i a b : ℕ)
      → (let r = step_down s a (va_part va i) (some b) in descend (r.0) n va (i + 1) (r.1))
        ≡ descend s n va (i + 1) b
  unfolding step_down
  step_old s n va i a b = refl

  step_new :
      (s : TaskTree T) (n va i a : ℕ)
      → (let r = step_down s a (va_part va i) none in descend (r.0) n va (i + 1) (r.1))
        ≡ descend (add_node s a (va_part va i)) n va (i + 1) s.count
  unfolding step_down
  step_new s n va i a = refl

  descend_end :
      (s : TaskTree T) (va i a : ℕ)
      → IsTree s
      → a < s.count
      → Reached s 0 va i a (descend s 0 va i a)
  unfolding descend find_node
  descend_end s va i a t lt = (t, Extends-refl s, lt, refl)

  add_node_room : (s : TaskTree T) (a k : ℕ) → s.count < (add_node s a k).count
  unfolding add_node
  add_node_room s a k = omega arith

  -- One level more.
  reached :
      (s u : TaskTree T) (n va i a b : ℕ) (r : TaskTree T × ℕ)
      → Extends s u
      → va_part va i ≢ 255
      → a < u.count
      → (u.nodes a).children (va_part va i) ≡ some b
      → Reached u n va (i + 1) b r
      → Reached s (suc n) va i a r
  reached s u n va i a b r grows ne lt found down = (
    down.0,
    Extends-trans s u (r.0) grows (down.1),
    down.2,
    find_some (r.0) n va i a b ne (down.1.kept a (va_part va i) b lt found) ∙ down.3,
  )

  descend-old :
      (s : TaskTree T) (n va i a b : ℕ)
      → va_part va i ≢ 255
      → (s.nodes a).children (va_part va i) ≡ some b
      → descend s (suc n) va i a ≡ descend s n va (i + 1) b
  unfolding descend
  descend-old s n va i a b ne e =
      ap (λ o. let r = step_down s a (va_part va i) o in descend (r.0) n va (i + 1) (r.1))
        (child-ne (s.nodes a) (va_part va i) ne ∙ e)
      ∙ step_old s n va i a b

  descend-new :
      (s : TaskTree T) (n va i a : ℕ)
      → va_part va i ≢ 255
      → (s.nodes a).children (va_part va i) ≡ none
      → descend s (suc n) va i a ≡ descend (add_node s a (va_part va i)) n va (i + 1) s.count
  unfolding descend
  descend-new s n va i a ne e =
      ap (λ o. let r = step_down s a (va_part va i) o in descend (r.0) n va (i + 1) (r.1))
        (child-ne (s.nodes a) (va_part va i) ne ∙ e)
      ∙ step_new s n va i a

  -- The descent ends at a node of the tree, which `GetPagePA` then finds.
  pub descend-find :
      (s : TaskTree T) (n va i a : ℕ)
      → IsTree s
      → InRange va
      → i + n ≤ mapping_levels
      → a < s.count
      → Reached s n va i a (descend s n va i a)
  descend-find s zero va i a t range le lt = descend_end s va i a t lt
  descend-find s (suc n) va i a t range le lt =
      let here = range i (omega arith) in
      elim (Option-cases ((s.nodes a).children (va_part va i))) [
        | inl missing ↦
            let grown = add_node s a (va_part va i) in
            let grows = add_node-Extends s a (va_part va i) t lt here missing in
            let tree = add_node-IsTree s a (va_part va i) t lt here in
            let down =
              descend-find grown n va (i + 1) s.count tree range (omega arith)
                (add_node_room s a (va_part va i)) in
            subst (Reached s (suc n) va i a) (sym (descend-new s n va i a here missing)) (
              reached s grown n va i a s.count _ grows here
                (omega (arith, lt, add_node_room s a (va_part va i)))
                (add_node-child s a (va_part va i) t lt here) down)
        | inr (b, found) ↦
            let within = t.below a (va_part va i) b lt found in
            let down = descend-find s n va (i + 1) b t range (omega arith) within in
            subst (Reached s (suc n) va i a) (sym (descend-old s n va i a b here found))
              (reached s s n va i a b _ (Extends-refl s) here lt found down)
      ]
