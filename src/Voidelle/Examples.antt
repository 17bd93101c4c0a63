-- ===== src/Voidelle/Examples.antt =====
-- A partition of 16 voids, whose map lies in the sector behind them, and with two voids in use.
use veil_os.Base.{
  ℕ, zero, suc, ◌-◌, ◌*◌, ◌<◌, ◌≡◌, ◌≢◌, refl, ap, sym, ◌∙◌, List, [], ◌∷◌, ◌++◌, get_or, replicate,
  some, arith,
}
use veil_os.Emmc.{Card}
use veil_os.Voidelle.Types.{Voidelle, Voidom}
use veil_os.Voidelle.Disk.{get_free_void, disk_read, read_voidelle_at, write_voidelle}
use veil_os.Voidelle.Fields.{IsVoidelle}
use veil_os.Voidelle.Storage.{IsVoid, block_of, read-write_voidelle}
use veil_os.Voidelle.MapBytes.{used_byte}
use veil_os.Voidelle.VoidMap.{IsMap, next_void, get_free_void-next_void}
use veil_os.Voidelle.Voidites.{get_voidelle_name}
use veil_os.Voidelle.Directory.{create_voidelle, success, voidelle_header, voidlet_header}
use veil_os.Voidelle.Creation.{create_voidelle-name}

abbrev pub root : Voidelle
root = record {
  header = voidelle_header;
  flags = 1;
  name = 0;
  name_size = 0;
  content = 0;
  content_size = 0;
  next = 0;
  position = 512;
  creation_seconds = 0;
  modification_seconds = 0;
  access_seconds = 0;
  owner_id = 0;
  other_permission = 3;
  owner_permission = 7;
}

abbrev pub volume : Voidom
volume = record {
  offset = 1024;
  num_sectors = 17;
  voidlet = record { header = voidlet_header; void_size = 512; voidmap_size = 2; voidmap = 8192 };
  root = root;
}

abbrev pub card : Card
card b = 0xc0 ∷ replicate 511 0

zeros : (k i : ℕ) → get_or {A = ℕ} (replicate k 0) i 0 ≡ 0
zeros zero i = refl
zeros (suc k) zero = refl
zeros (suc k) (suc i) = zeros k i

card-IsMap : IsMap volume card 2
unfolding used_byte
card-IsMap = record { sector_size = refl; used = used }
  where
    used : (i : ℕ) → i < 512 → get_or (card 18) i 0 ≡ used_byte (2 - 8 * i)
    used zero lt = refl
    used (suc i) lt =
        let past : 2 - 8 * suc i ≡ 0 = omega arith in zeros 511 i ∙ ap used_byte (sym past)

map-IsVoid : IsVoid volume 8192
map-IsVoid = record { aligned = refl; reach = omega arith }

pub root-IsVoidelle : IsVoidelle root
root-IsVoidelle = record {
  header_size = refl;
  flags_lt = omega arith;
  name_lt = omega arith;
  name_size_lt = omega arith;
  content_lt = omega arith;
  content_size_lt = omega arith;
  next_lt = omega arith;
  position_lt = omega arith;
  creation_lt = omega arith;
  modification_lt = omega arith;
  access_lt = omega arith;
  owner_lt = omega arith;
}

read-write_voidelle_example :
    (read_voidelle_at [] volume (write_voidelle volume card root) 512 ≡ root)
    × ((q size : ℕ)
        → IsVoid volume q
        → 512 ≢ q
        → disk_read [] volume (write_voidelle volume card root) q size
          ≡ disk_read [] volume card q size)
read-write_voidelle_example =
    read-write_voidelle volume card [] root root-IsVoidelle
      (record { aligned = refl; reach = omega arith })

get_free_void-next_void_example :
    ((get_free_void [] volume card).1 ≡ (next_void 16 2).1)
    × IsMap volume ((get_free_void [] volume card).0) ((next_void 16 2).0)
    × ((b : ℕ) → b ≢ block_of volume 8192 → (get_free_void [] volume card).0 b ≡ card b)
get_free_void-next_void_example =
    get_free_void-next_void [] volume card 2 map-IsVoid (omega arith) card-IsMap

abbrev name : List ℕ
name = b'h' ∷ b'i' ∷ []

create_voidelle-name_example :
    let r = create_voidelle [] volume card name 0 1 7 3 in
    (r.0 ≡ success)
    × (read_voidelle_at [] volume (r.1) (r.2.position) ≡ r.2)
    × (get_voidelle_name [] volume 2 (r.1) (r.2) ≡ some (name ++ (0 ∷ [])))
create_voidelle-name_example =
    create_voidelle-name [] volume card 2 name map-IsVoid (omega arith) card-IsMap (omega arith)
      (record { aligned = refl; first = omega arith; reach = omega arith }) 0 1 7 3 (omega arith)
      (omega arith) 1 (omega arith)
