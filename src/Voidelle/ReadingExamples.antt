-- ===== src/Voidelle/ReadingExamples.antt =====
-- A file of one voidite, all of whose bytes are 7.
use veil_os.Base.{ℕ, zero, suc, ◌≡◌, refl, [], ◌++◌, length, replicate, arith}
use veil_os.Emmc.{Card, read_at, is_transfer, read_blocks}
use veil_os.Voidelle.Bytes.{number_of}
use veil_os.Voidelle.Types.{Voidelle, decode_voidite, voidite_content_size}
use veil_os.Voidelle.Disk.{disk_read, read_voidite}
use veil_os.Voidelle.Voidites.{voidite_at, get_content_voidite_at, content_or_zeros, read_voidelle}
use veil_os.Voidelle.Reading.{part, Holds, read_voidelle-Holds}
use veil_os.Voidelle.Examples.{root, volume}

abbrev sevens : Card
sevens b = replicate 16 0 ++ replicate 496 7

abbrev file : Voidelle
file = record root { flags = 0; content = 1024 }

whole : (index : ℕ) → length (part [] volume sevens file index) ≡ voidite_content_size
unfolding voidite_at get_content_voidite_at content_or_zeros read_voidite decode_voidite disk_read
    read_at is_transfer read_blocks number_of
whole zero = refl
whole (suc zero) = refl
whole (suc (suc index)) = refl

read_voidelle-Holds_example :
    Holds [] volume sevens file (read_voidelle [] volume sevens file 490 20) 490 20
read_voidelle-Holds_example =
    read_voidelle-Holds [] volume sevens file whole 490 20 refl (omega arith) (omega arith)
