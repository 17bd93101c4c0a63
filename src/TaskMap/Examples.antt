-- ===== src/TaskMap/Examples.antt =====
-- A task with the root of its tree and no page.
use veil_os.Base.{ℕ, ◌+◌, ◌-◌, ◌/◌, ◌≡◌, ◌≢◌, none, some, arith}
use veil_os.TaskMap.{TaskTree, Mmu, empty_node, get_task_valid_va, page_bytes}
use veil_os.TaskMap.Search.{Unmapped, get_task_valid_va-Unmapped}

-- The tables: how many pages they map.
abbrev counting : Mmu ℕ
counting = record { map_table_page = λ va pa flags n. n + 1; unmap_table_page = λ va n. n - 1 }

abbrev bare : TaskTree ℕ
bare = record { nodes = λ a. empty_node none; count = 1; tables = 0 }

get_task_valid_va-Unmapped_example :
    (v : ℕ) × (get_task_valid_va 0x10_0000_0000_0000 bare 0 8000 ≡ some v)
    × (v ≢ 0 → Unmapped bare 0 v ((8000 + (page_bytes - 1)) / page_bytes))
get_task_valid_va-Unmapped_example =
    get_task_valid_va-Unmapped bare 0 0x10_0000_0000_0000 8000 (omega arith) (omega arith)
      (omega arith)
