-- ===== src/TaskMap.antt =====
-- kernel/scheduler/task.c: the tree of the pages that a task has mapped. A node has an address, and
-- addresses are given out in order and not again. An array of 255 children is followed by the pointer
-- to the parent, which index 255 therefore reads and writes. `T` are the tables of the processor, and
-- `Mmu` is what `MapTablePage` and `UnmapTablePage` do with them.
pub mod Grow
pub mod Descend
pub mod Parents
pub mod MapGet
pub mod Search
mod Examples
use veil_os.Base.{
  ℕ, zero, suc, ◌+◌, ◌-◌, ◌*◌, ◌/◌, ◌%◌, ◌^◌, Bool, true, false, not, ◌&&◌, Option, none, some, ltb,
  ◌==◌, if◌then◌else◌,
}

abbrev pub page_bytes : ℕ
page_bytes = 4096

abbrev pub user_limit : ℕ
user_limit = 0xffff_0000_0000_0000

abbrev pub mapping_value : ℕ
mapping_value = 0xff

abbrev pub mapping_levels : ℕ
mapping_levels = 8

pub record TaskMappingNode : Type 0 where
  pub children : ℕ → Option ℕ
  pub parent : Option ℕ
  pub pa : ℕ
  pub va : ℕ
  pub leaf : Bool
  pub full_children : ℕ

pub record Mmu (T : Type 0) : Type 0 where
  pub map_table_page : (va pa flags : ℕ) → T → T
  pub unmap_table_page : (va : ℕ) → T → T

-- The nodes below `count` have been allocated.
pub record TaskTree (T : Type 0) : Type 0 where
  pub nodes : ℕ → TaskMappingNode
  pub count : ℕ
  pub tables : T

-- `va_parts[i]`
unfoldable pub va_part : (va i : ℕ) → ℕ
va_part va i = va / 2 ^ (8 * i) % 256

unfoldable pub child : TaskMappingNode → ℕ → Option ℕ
child node k = if k == 255 then node.parent else node.children k

unfoldable pub set_child : TaskMappingNode → ℕ → Option ℕ → TaskMappingNode
set_child node k to =
    if k == 255
    then record node { parent = to }
    else record node { children = λ j. if j == k then to else node.children j }

unfoldable pub empty_node : Option ℕ → TaskMappingNode
empty_node parent = record {
  children = λ k. none;
  parent = parent;
  pa = 0;
  va = 0;
  leaf = false;
  full_children = 0;
}

unfoldable pub put_node : (ℕ → TaskMappingNode) → ℕ → TaskMappingNode → ℕ → TaskMappingNode
put_node nodes a node b = if b == a then node else nodes b

-- `while (parent)` of `MapTaskPage`, on fuel.
unfoldable pub raise_full :
    (fuel : ℕ) → (ℕ → TaskMappingNode) → Option ℕ → Option (ℕ → TaskMappingNode)
raise_full zero nodes parent = none
raise_full (suc fuel) nodes none = some nodes
raise_full (suc fuel) nodes (some a) =
    let full = (nodes a).full_children + 1 in
    let counted = put_node nodes a (record (nodes a) { full_children = full }) in
    let filled = put_node nodes a (record (nodes a) { full_children = mapping_value }) in
    let rest = raise_full fuel filled (nodes a).parent in
    if ltb full mapping_value then some counted else rest

-- `while (parent)` of `UnmapTaskPage`; the count is an `unsigned long`.
unfoldable pub lower_full :
    (fuel : ℕ) → (ℕ → TaskMappingNode) → Option ℕ → Option (ℕ → TaskMappingNode)
lower_full zero nodes parent = none
lower_full (suc fuel) nodes none = some nodes
lower_full (suc fuel) nodes (some a) =
    let full = ((nodes a).full_children + (2 ^ 64 - 1)) % 2 ^ 64 in
    let counted = put_node nodes a (record (nodes a) { full_children = full }) in
    let rest = lower_full fuel counted (nodes a).parent in
    if full == mapping_value - 1 then rest else some counted

module _ {T : Type 0} where
  -- The loop of `GetPagePA`, with `rounds` levels to go from level `i` on: the node, if there is one.
  unfoldable pub find_node : TaskTree T → (rounds va i a : ℕ) → Option ℕ
  find_node s zero va i a = some a
  find_node s (suc n) va i a = elim (child (s.nodes a) (va_part va i)) [
    | none ↦ none
    | some b ↦ find_node s n va (i + 1) b
  ]

  unfoldable pub get_page_pa : TaskTree T → (root va : ℕ) → ℕ
  get_page_pa s root va = elim (find_node s mapping_levels va 0 root) [
    | none ↦ 0
    | some a ↦ (s.nodes a).pa
  ]

  -- `create_map_node`, and the link from its parent.
  unfoldable pub add_node : TaskTree T → (parent k : ℕ) → TaskTree T
  add_node s parent k =
      let linked = put_node s.nodes parent (set_child (s.nodes parent) k (some s.count)) in
      record s { nodes = put_node linked s.count (empty_node (some parent)); count = s.count + 1 }

  -- One level of the descent of `MapTaskPage`.
  unfoldable pub step_down : TaskTree T → (a k : ℕ) → Option ℕ → TaskTree T × ℕ
  step_down s a k none = (add_node s a k, s.count)
  step_down s a k (some b) = (s, b)

  unfoldable pub descend : TaskTree T → (rounds va i a : ℕ) → TaskTree T × ℕ
  descend s zero va i a = (s, a)
  descend s (suc n) va i a =
      let (s', b) = step_down s a (va_part va i) (child (s.nodes a) (va_part va i)) in
      descend s' n va (i + 1) b

  -- What a page of `MapTaskPage` does at the node that the descent reached.
  unfoldable pub set_leaf :
      Mmu T → (fuel : ℕ) → TaskTree T → (a va pa flags : ℕ) → Option (TaskTree T)
  set_leaf mmu fuel s a va pa flags =
      let node = s.nodes a in
      let tables =
        if node.leaf && (not (node.pa == pa) && not (node.pa == 0))
        then mmu.unmap_table_page va s.tables
        else s.tables in
      elim (raise_full fuel s.nodes node.parent) [
        | none ↦ none
        | some nodes ↦ some (record s {
          nodes = put_node nodes a (record (nodes a) { leaf = true; pa = pa; va = va });
          tables = mmu.map_table_page va pa flags tables;
        })
      ]

  unfoldable pub map_page :
      Mmu T → (fuel : ℕ) → TaskTree T → (root va pa flags : ℕ) → Option (TaskTree T)
  map_page mmu fuel s root va pa flags =
      let (s', a) = descend s mapping_levels va 0 root in set_leaf mmu fuel s' a va pa flags

  unfoldable pub map_pages :
      Mmu T → (fuel rounds : ℕ) → TaskTree T → (root va pa flags : ℕ) → Option (TaskTree T)
  map_pages mmu fuel zero s root va pa flags = some s
  map_pages mmu fuel (suc n) s root va pa flags = elim (map_page mmu fuel s root va pa flags) [
    | none ↦ none
    | some s' ↦ map_pages mmu fuel n s' root (va + page_bytes) (pa + page_bytes) flags
  ]

  unfoldable pub map_task_page :
      Mmu T → (fuel : ℕ) → TaskTree T → (root va pa size flags : ℕ) → Option (TaskTree T)
  map_task_page mmu fuel s root va pa size flags =
      map_pages mmu fuel ((size + (page_bytes - 1)) % 2 ^ 32 / page_bytes) s root va pa flags

  -- A page of `UnmapTaskPage`. `none` where the kernel panics, reads through a null pointer, or the
  -- fuel runs out.
  unfoldable pub unmap_page : Mmu T → (fuel : ℕ) → TaskTree T → (root va : ℕ) → Option (TaskTree T)
  unmap_page mmu fuel s root va = elim (find_node s mapping_levels va 0 root) [
    | none ↦ none
    | some a ↦ elim (s.nodes a).parent [
      | none ↦ none
      | some p ↦
          let cut =
            put_node s.nodes p (set_child (s.nodes p) (va_part va (mapping_levels - 1)) none) in
          elim (lower_full fuel cut (some p)) [
            | none ↦ none
            | some nodes ↦
                some (record s { nodes = nodes; tables = mmu.unmap_table_page va s.tables })
          ]
    ]
  ]

  -- The loop of `UnmapTaskPage`: the offset of page `i` is added to an address that already has the
  -- offsets of the pages before it.
  unfoldable pub unmap_pages :
      Mmu T → (fuel rounds : ℕ) → TaskTree T → (root va i : ℕ) → Option (TaskTree T)
  unmap_pages mmu fuel zero s root va i = some s
  unmap_pages mmu fuel (suc n) s root va i =
      elim (unmap_page mmu fuel s root (va + i * page_bytes)) [
        | none ↦ none
        | some s' ↦ unmap_pages mmu fuel n s' root (va + i * page_bytes) (i + 1)
      ]

  unfoldable pub unmap_task_page :
      Mmu T → (fuel : ℕ) → TaskTree T → (root va length : ℕ) → Option (TaskTree T)
  unmap_task_page mmu fuel s root va length =
      if get_page_pa s root va == 0
      then some s
      else unmap_pages mmu fuel ((length + (page_bytes - 1)) % 2 ^ 32 / page_bytes) s root va 0

  -- The loop of `GetTaskValidVA`, on fuel: 0 where the addresses of a task are used up.
  unfoldable pub valid_from : (fuel : ℕ) → TaskTree T → (root va current_size size : ℕ) → Option ℕ
  valid_from zero s root va current_size size = none
  valid_from (suc fuel) s root va current_size size =
      let longer = current_size + page_bytes in
      let is_free = get_page_pa s root va == 0 in
      let rest = valid_from fuel s root (va + page_bytes) (if is_free then longer else 0) size in
      if not (ltb va user_limit)
      then some 0
      else if is_free && (longer == size)
      then some (va + page_bytes - longer)
      else rest

  unfoldable pub get_task_valid_va : (fuel : ℕ) → TaskTree T → (root size : ℕ) → Option ℕ
  get_task_valid_va fuel s root size =
      valid_from fuel s root page_bytes 0
        ((size + (page_bytes - 1)) % 2 ^ 32 / page_bytes * page_bytes)
