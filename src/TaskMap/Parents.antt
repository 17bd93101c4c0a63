-- ===== src/TaskMap/Parents.antt =====
-- The walk of `MapTaskPage` from a node to the root.
use veil_os.Base.{
  ℕ, zero, suc, ◌+◌, ◌<◌, ◌≡◌, inl, inr, refl, sym, ap, ◌∙◌, Option, none, some, ltb, ◌==◌, arith,
  Bool-cases, ==→eq,
}
use veil_os.TaskMap.{TaskMappingNode, put_node, raise_full, mapping_value}

-- The links, parents and pages of the nodes are the same; their counts may differ.
pub record SameLinks (nodes nodes' : ℕ → TaskMappingNode) : Type 0 where
  pub children : (a k : ℕ) → (nodes' a).children k ≡ (nodes a).children k
  pub parent : (a : ℕ) → (nodes' a).parent ≡ (nodes a).parent
  pub pa : (a : ℕ) → (nodes' a).pa ≡ (nodes a).pa

pub SameLinks-refl : (nodes : ℕ → TaskMappingNode) → SameLinks nodes nodes
SameLinks-refl nodes = record { children = λ a k. refl; parent = λ a. refl; pa = λ a. refl }

SameLinks-count :
    (nodes : ℕ → TaskMappingNode) (a n : ℕ)
    → SameLinks nodes (put_node nodes a (record (nodes a) { full_children = n }))
unfolding put_node
SameLinks-count nodes a n = record {
  children = λ b k. elim (Bool-cases (b == a)) [
    | inl hit ↦ rw hit (ap (λ x. (nodes x).children k) (sym (==→eq b a hit)))
    | inr miss ↦ rw miss refl
  ];
  parent = λ b. elim (Bool-cases (b == a)) [
    | inl hit ↦ rw hit (ap (λ x. (nodes x).parent) (sym (==→eq b a hit)))
    | inr miss ↦ rw miss refl
  ];
  pa = λ b. elim (Bool-cases (b == a)) [
    | inl hit ↦ rw hit (ap (λ x. (nodes x).pa) (sym (==→eq b a hit)))
    | inr miss ↦ rw miss refl
  ];
}

SameLinks-trans : (m n o : ℕ → TaskMappingNode) → SameLinks m n → SameLinks n o → SameLinks m o
SameLinks-trans m n o first second = record {
  children = λ a k. second.children a k ∙ first.children a k;
  parent = λ a. second.parent a ∙ first.parent a;
  pa = λ a. second.pa a ∙ first.pa a;
}

abbrev pub Below : ℕ → Option ℕ → Type 0
Below n none = Unit {0}
Below n (some a) = a < n

pub Below-some : (n : ℕ) (o : Option ℕ) → ((p : ℕ) → o ≡ some p → p < n) → Below n o
Below-some n none h = tt
Below-some n (some p) h = h p refl

-- The walk to the root ends, since parents were allocated first.
pub raise_full_ends :
    (bound fuel : ℕ) (nodes : ℕ → TaskMappingNode) (parent : Option ℕ)
    → ((a p : ℕ) → a < bound → (nodes a).parent ≡ some p → p < a)
    → Below bound parent
    → Below fuel parent
    → (nodes' : ℕ → TaskMappingNode) × (raise_full (suc fuel) nodes parent ≡ some nodes')
      × SameLinks nodes nodes'
unfolding raise_full
raise_full_ends bound fuel nodes none above within lt = (nodes, refl, SameLinks-refl nodes)
raise_full_ends bound zero nodes (some a) above within lt = absurd (omega (arith, lt))
raise_full_ends bound (suc fuel) nodes (some a) above within lt =
    let full = (nodes a).full_children + 1 in
    elim (Bool-cases (ltb full mapping_value)) [
      | inl more ↦ (
        put_node nodes a (record (nodes a) { full_children = full }),
        rw more refl,
        SameLinks-count nodes a full,
      )
      | inr done ↦
          let filled = put_node nodes a (record (nodes a) { full_children = mapping_value }) in
          let same = SameLinks-count nodes a mapping_value in
          let lower = above a in
          let (nodes', e, rest) =
            raise_full_ends bound fuel filled (nodes a).parent
              (λ b p lt' e'. above b p lt' (sym (same.parent b) ∙ e'))
              (Below-some bound (nodes a).parent (λ p e'. omega (arith, lower p within e', within)))
              (Below-some fuel (nodes a).parent (λ p e'. omega (arith, lower p within e', lt))) in
          (nodes', rw done e, SameLinks-trans nodes filled nodes' same rest)
    ]
