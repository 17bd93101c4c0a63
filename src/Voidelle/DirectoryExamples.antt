-- ===== src/Voidelle/DirectoryExamples.antt =====
-- A directory that gets two voidelles, and loses the one that came first.
use veil_os.Base.{ℕ, ◌<◌, ◌≡◌, ◌^◌, refl, [], ◌∷◌, false, arith}
use veil_os.Emmc.{Card}
use veil_os.Voidelle.Types.{Voidelle}
use veil_os.Voidelle.Disk.{read_voidelle_at}
use veil_os.Voidelle.Fields.{IsVoidelle, IsVoidelle-content}
use veil_os.Voidelle.Directory.{add_voidelle, remove_voidelle}
use veil_os.Voidelle.Children.{IsLinked, add_voidelle-IsLinked}
use veil_os.Voidelle.Removal.{Removed, remove_voidelle-IsLinked}
use veil_os.Voidelle.Examples.{root, volume, card, root-IsVoidelle}

abbrev older : Voidelle
older = record root { flags = 0; position = 1024 }

abbrev newer : Voidelle
newer = record root { flags = 0; position = 1536 }

unmoved : (n : ℕ) → n < 2 ^ 64 → IsVoidelle (record root { flags = 0; position = n })
unmoved n lt = record {
  header_size = refl;
  flags_lt = omega arith;
  name_lt = omega arith;
  name_size_lt = omega arith;
  content_lt = omega arith;
  content_size_lt = omega arith;
  next_lt = omega arith;
  position_lt = lt;
  creation_lt = omega arith;
  modification_lt = omega arith;
  access_lt = omega arith;
  owner_lt = omega arith;
}

abbrev parent1 : Voidelle
parent1 = record root { content = 1024 }

abbrev parent2 : Voidelle
parent2 = record root { content = 1536 }

abbrev card1 : Card
card1 = (add_voidelle [] volume card root older).0

abbrev card2 : Card
card2 = (add_voidelle [] volume card1 parent1 newer).0

one_voidelle :
    IsLinked [] volume card1 1024 (1024 ∷ []) × (read_voidelle_at [] volume card1 512 ≡ parent1)
unfolding add_voidelle
one_voidelle =
    let r =
      add_voidelle-IsLinked [] volume card root older [] refl root-IsVoidelle
        (record { aligned = refl; reach = omega arith }) tt (unmoved 1024 (omega arith))
        (record { aligned = refl; reach = omega arith }) tt (omega arith) (omega arith) in
    (r.0, r.1)

add_voidelle-IsLinked_example :
    let r = add_voidelle [] volume card1 parent1 newer in
    IsLinked [] volume (r.0) (r.1.content) (1536 ∷ 1024 ∷ [])
    × (read_voidelle_at [] volume (r.0) 512 ≡ r.1)
    × (read_voidelle_at [] volume (r.0) 1536 ≡ r.2)
add_voidelle-IsLinked_example =
    add_voidelle-IsLinked [] volume card1 parent1 newer (1024 ∷ []) (one_voidelle.0)
      (IsVoidelle-content root 1024 root-IsVoidelle (omega arith))
      (record { aligned = refl; reach = omega arith }) (omega arith, tt)
      (unmoved 1536 (omega arith)) (record { aligned = refl; reach = omega arith })
      (omega arith, tt) (omega arith) (omega arith)

two_voidelles :
    IsLinked [] volume card2 1536 (1536 ∷ 1024 ∷ [])
    × (read_voidelle_at [] volume card2 512 ≡ parent2)
unfolding add_voidelle
two_voidelles =
    let r =
      add_voidelle-IsLinked [] volume card1 parent1 newer (1024 ∷ []) (one_voidelle.0)
        (IsVoidelle-content root 1024 root-IsVoidelle (omega arith))
        (record { aligned = refl; reach = omega arith }) (omega arith, tt)
        (unmoved 1536 (omega arith)) (record { aligned = refl; reach = omega arith })
        (omega arith, tt) (omega arith) (omega arith) in
    (r.0, r.1)

remove_voidelle-IsLinked_example :
    Removed [] volume card2 parent2 1024 []
      (1536 ∷ [])
      (remove_voidelle [] volume 1 card2 parent2 (read_voidelle_at [] volume card2 1024) false)
remove_voidelle-IsLinked_example =
    remove_voidelle-IsLinked [] volume card2 parent2 1024 [] (1536 ∷ []) 1 (omega arith)
      (two_voidelles.0) ((omega arith, tt), (tt, tt))
      (IsVoidelle-content root 1536 root-IsVoidelle (omega arith))
      (record { aligned = refl; reach = omega arith }) (omega arith, (omega arith, tt))
      (two_voidelles.1)
