-- ===== src/TaskMap/Grow.antt =====
-- The tree while `MapTaskPage` descends: it only grows.
use veil_os.Base.{
  ℕ, zero, suc, ◌+◌, ◌≤◌, ◌<◌, ◌≡◌, ◌≢◌, inl, inr, refl, sym, ap, ◌∙◌, none, some, ◌==◌,
  if◌then◌else◌, arith, Bool-cases, Option-cases, ==→eq, ==→ne, ne→==, ==_refl,
}
use mathlib.Core.Option.{none-ne-some, some_inj}
use veil_os.TaskMap.{
  TaskMappingNode, TaskTree, va_part, child, set_child, empty_node, put_node, find_node, add_node,
  mapping_levels,
}

pub child-ne : (node : TaskMappingNode) (k : ℕ) → k ≢ 255 → child node k ≡ node.children k
unfolding child
child-ne node k ne = rw (ne→== k 255 ne) refl

-- No byte of the address is 255.
abbrev pub InRange : ℕ → Type 0
InRange va = (i : ℕ) → i < mapping_levels → va_part va i ≢ 255

module _ {T : Type 0} where
  -- Parents were allocated before their children, and children have been allocated.
  pub record IsTree (s : TaskTree T) : Type 0 where
    pub above : (a p : ℕ) → a < s.count → (s.nodes a).parent ≡ some p → p < a
    pub below : (a k b : ℕ) → a < s.count → (s.nodes a).children k ≡ some b → b < s.count

  -- The nodes of the first tree stay, with their links.
  pub record Extends (s s' : TaskTree T) : Type 0 where
    pub more : s.count ≤ s'.count
    pub kept :
        (a k b : ℕ)
        → a < s.count
        → (s.nodes a).children k ≡ some b
        → (s'.nodes a).children k ≡ some b
    pub same_pa : (a : ℕ) → a < s.count → (s'.nodes a).pa ≡ (s.nodes a).pa

  pub Extends-refl : (s : TaskTree T) → Extends s s
  Extends-refl s = record { more = omega arith; kept = λ a k b lt e. e; same_pa = λ a lt. refl }

  pub Extends-trans : (s t u : TaskTree T) → Extends s t → Extends t u → Extends s u
  Extends-trans s t u st tu = record {
    more = omega (arith, st.more, tu.more);
    kept = λ a k b lt e. tu.kept a k b (omega (arith, st.more)) (st.kept a k b lt e);
    same_pa = λ a lt. tu.same_pa a (omega (arith, st.more)) ∙ st.same_pa a lt;
  }

  pub find_some :
      (s : TaskTree T) (n va i a c : ℕ)
      → va_part va i ≢ 255
      → (s.nodes a).children (va_part va i) ≡ some c
      → find_node s (suc n) va i a ≡ find_node s n va (i + 1) c
  unfolding find_node
  find_some s n va i a c ne e = rw (child-ne (s.nodes a) (va_part va i) ne ∙ e, find_node) refl

  find_none :
      (s : TaskTree T) (n va i a : ℕ)
      → va_part va i ≢ 255
      → (s.nodes a).children (va_part va i) ≡ none
      → find_node s (suc n) va i a ≡ none
  unfolding find_node
  find_none s n va i a ne e = rw (child-ne (s.nodes a) (va_part va i) ne ∙ e, find_node) refl

  -- The links of the first tree, in the second one.
  abbrev pub Keeps : TaskTree T → TaskTree T → Type 0
  Keeps s s' =
      (a k b : ℕ) → a < s.count → (s.nodes a).children k ≡ some b → (s'.nodes a).children k ≡ some b

  pub find_node-Keeps :
      (s s' : TaskTree T) (n va i a b : ℕ)
      → IsTree s
      → Keeps s s'
      → InRange va
      → i + n ≤ mapping_levels
      → a < s.count
      → find_node s n va i a ≡ some b
      → (find_node s' n va i a ≡ some b) × (b < s.count)
  unfolding find_node
  find_node-Keeps s s' zero va i a b t keeps range le lt e = (e, omega (arith, lt, some_inj.0 e))
  find_node-Keeps s s' (suc n) va i a b t keeps range le lt e =
      let here = range i (omega arith) in
      elim (Option-cases ((s.nodes a).children (va_part va i))) [
        | inl missing ↦ absurd (none-ne-some _ (sym (find_none s n va i a here missing) ∙ e))
        | inr (c, found) ↦
            let within = t.below a (va_part va i) c lt found in
            let e' = sym (find_some s n va i a c here found) ∙ e in
            let rest =
              find_node-Keeps s s' n va (i + 1) c b t keeps range (omega arith) within e' in
            (find_some s' n va i a c here (keeps a (va_part va i) c lt found) ∙ rest.0, rest.1)
      ]

  module _ (s : TaskTree T) (a k : ℕ) (t : IsTree s) (lt : a < s.count) (ne : k ≢ 255) where
    linked : ℕ → TaskMappingNode
    linked = put_node s.nodes a (set_child (s.nodes a) k (some s.count))

    add_node-new : (add_node s a k).nodes s.count ≡ empty_node (some a)
    unfolding add_node put_node
    add_node-new = rw (==_refl s.count) refl

    add_node_self : (add_node s a k).nodes a ≡ record (s.nodes a) {
      children = λ j. if j == k then some s.count else (s.nodes a).children j;
    }
    unfolding add_node put_node set_child
    add_node_self = rw (ne→== a s.count (omega arith), ==_refl a, ne→== k 255 ne) refl

    add_node-other : (b : ℕ) → b ≢ a → b ≢ s.count → (add_node s a k).nodes b ≡ s.nodes b
    unfolding add_node put_node
    add_node-other b na nc = rw (ne→== b s.count nc, ne→== b a na) refl

    add_node-parent : (c : ℕ) → c ≢ s.count → ((add_node s a k).nodes c).parent ≡ (s.nodes c).parent
    add_node-parent c nc = elim (Bool-cases (c == a)) [
      | inl hit ↦
          let e = ==→eq c a hit in
          ap (λ x. ((add_node s a k).nodes x).parent) e
          ∙ ap (λ node. node.parent) add_node_self
          ∙ ap (λ x. (s.nodes x).parent) (sym e)
      | inr miss ↦ ap (λ node. node.parent) (add_node-other c (==→ne c a miss) nc)
    ]

    add_node-children :
        (c j : ℕ)
        → c ≢ s.count
        → ((add_node s a k).nodes c).children j ≡ (
            if c == a
            then if j == k then some s.count else (s.nodes a).children j
            else (s.nodes c).children j)
    add_node-children c j nc = elim (Bool-cases (c == a)) [
      | inl hit ↦
          ap (λ x. ((add_node s a k).nodes x).children j) (==→eq c a hit)
          ∙ ap (λ node. node.children j) add_node_self
          ∙ rw hit refl
      | inr miss ↦
          ap (λ node. node.children j) (add_node-other c (==→ne c a miss) nc) ∙ rw miss refl
    ]

    add_node-pa : (c : ℕ) → c ≢ s.count → ((add_node s a k).nodes c).pa ≡ (s.nodes c).pa
    add_node-pa c nc = elim (Bool-cases (c == a)) [
      | inl hit ↦
          let e = ==→eq c a hit in
          ap (λ x. ((add_node s a k).nodes x).pa) e
          ∙ ap (λ node. node.pa) add_node_self
          ∙ ap (λ x. (s.nodes x).pa) (sym e)
      | inr miss ↦ ap (λ node. node.pa) (add_node-other c (==→ne c a miss) nc)
    ]

    add_node-count : (add_node s a k).count ≡ s.count + 1
    unfolding add_node
    add_node-count = refl

    pub add_node-IsTree : IsTree (add_node s a k)
    unfolding empty_node
    add_node-IsTree = record {
      above = λ c p within e. elim (Bool-cases (c == s.count)) [
        | inl hit ↦
            let is_count = ==→eq c s.count hit in
            let parent =
              ap (λ x. ((add_node s a k).nodes x).parent) is_count
              ∙ ap (λ node. node.parent) add_node-new in
            let a_p : a ≡ p = some_inj.0 (sym parent ∙ e) in omega (arith, a_p, is_count)
        | inr miss ↦
            let ne = ==→ne c s.count miss in
            t.above c p (omega (arith, ne, add_node-count)) (sym (add_node-parent c ne) ∙ e)
      ];
      below = λ c j b within e. elim (Bool-cases (c == s.count)) [
        | inl hit ↦
            let nothing =
              ap (λ x. ((add_node s a k).nodes x).children j) (==→eq c s.count hit)
              ∙ ap (λ node. node.children j) add_node-new in
            absurd (none-ne-some b (sym nothing ∙ e))
        | inr miss ↦
            let ne = ==→ne c s.count miss in
            below_old c j b ne (omega (arith, ne, add_node-count))
              (sym (add_node-children c j ne) ∙ e)
      ];
    }
      where
        below_old :
            (c j b : ℕ)
            → c ≢ s.count
            → c < s.count
            → (if c == a
                then if j == k then some s.count else (s.nodes a).children j
                else (s.nodes c).children j)
              ≡ some b
            → b < (add_node s a k).count
        below_old c j b ne within e = elim (Bool-cases (c == a)) [
          | inl hit ↦ elim (Bool-cases (j == k)) [
            | inl new ↦
                let found : some s.count ≡ some b = sym (rw (hit, new) refl) ∙ e in
                omega (arith, add_node-count, some_inj.0 found)
            | inr old ↦
                let found : (s.nodes a).children j ≡ some b = sym (rw (hit, old) refl) ∙ e in
                omega (arith, add_node-count, t.below a j b lt found)
          ]
          | inr other ↦
              let found : (s.nodes c).children j ≡ some b = sym (rw other refl) ∙ e in
              omega (arith, add_node-count, t.below c j b within found)
        ]

    pub add_node-Extends : (s.nodes a).children k ≡ none → Extends s (add_node s a k)
    add_node-Extends missing = record {
      more = omega (arith, add_node-count);
      kept = λ c j b within e. add_node-children c j (omega arith) ∙ kept_old c j b e;
      same_pa = λ c within. add_node-pa c (omega arith);
    }
      where
        kept_old :
            (c j b : ℕ)
            → (s.nodes c).children j ≡ some b
            → (if c == a
                then if j == k then some s.count else (s.nodes a).children j
                else (s.nodes c).children j)
              ≡ some b
        kept_old c j b e = elim (Bool-cases (c == a)) [
          | inl hit ↦
              let e' : (s.nodes a).children j ≡ some b =
                ap (λ x. (s.nodes x).children j) (sym (==→eq c a hit)) ∙ e in
              elim (Bool-cases (j == k)) [
                | inl new ↦ absurd (
                    none-ne-some b
                      (sym missing ∙ ap (s.nodes a).children (sym (==→eq j k new)) ∙ e'))
                | inr old ↦ rw (hit, old) e'
              ]
          | inr other ↦ rw other e
        ]

    pub add_node-child : ((add_node s a k).nodes a).children k ≡ some s.count
    add_node-child = add_node-children a k (omega arith) ∙ rw (==_refl a, ==_refl k) refl
