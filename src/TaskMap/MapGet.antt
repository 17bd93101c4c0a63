-- ===== src/TaskMap/MapGet.antt =====
-- `MapTaskPage` of a page, and `GetPagePA` of it.
use veil_os.Base.{ℕ, ◌≡◌, ◌≢◌, true, not, ◌==◌, ◌&&◌, if◌then◌else◌}
use veil_os.TaskMap.{TaskMappingNode, TaskTree, Mmu, put_node}

module _ (nodes : ℕ → TaskMappingNode) (a va pa : ℕ) where
  placed : ℕ → TaskMappingNode
  placed = put_node nodes a (record (nodes a) { leaf = true; pa = pa; va = va })

module _ {T : Type 0} where
  -- The tree with the page set at one of its nodes.
  record Placed (s s' : TaskTree T) (a pa : ℕ) : Type 0 where
    same_count : s'.count ≡ s.count
    children : (b k : ℕ) → (s'.nodes b).children k ≡ (s.nodes b).children k
    parent : (b : ℕ) → (s'.nodes b).parent ≡ (s.nodes b).parent
    here : (s'.nodes a).pa ≡ pa
    others : (b : ℕ) → b ≢ a → (s'.nodes b).pa ≡ (s.nodes b).pa

  set_placed : Mmu T → TaskTree T → (a va pa flags : ℕ) → (ℕ → TaskMappingNode) → TaskTree T
  set_placed mmu s a va pa flags nodes =
      let node = s.nodes a in
      let tables =
        if node.leaf && (not (node.pa == pa) && not (node.pa == 0))
        then mmu.unmap_table_page va s.tables
        else s.tables in
      record s { nodes = placed nodes a va pa; tables = mmu.map_table_page va pa flags tables }
