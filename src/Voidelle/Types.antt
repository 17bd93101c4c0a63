-- ===== src/Voidelle/Types.antt =====
-- kernel/fs/voidelle.h: what lies in the voids, and its bytes.
use veil_os.Base.{ℕ, List, [], ◌∷◌, ◌++◌, take, drop, get_or}
use veil_os.Voidelle.Bytes.{bytes_of, number_of}

abbrev pub void_size : ℕ
void_size = 512

abbrev pub voidite_content_size : ℕ
voidite_content_size = 496

abbrev pub voidelle_size : ℕ
voidelle_size = 95

abbrev pub voidelle_directory : ℕ
voidelle_directory = 1

-- `name` is `name_voidelle`, `content` is `content_voidelle` and `next` is `next_voidelle`.
pub record Voidelle : Type 0 where
  pub header : List ℕ
  pub flags : ℕ
  pub name : ℕ
  pub name_size : ℕ
  pub content : ℕ
  pub content_size : ℕ
  pub next : ℕ
  pub position : ℕ
  pub creation_seconds : ℕ
  pub modification_seconds : ℕ
  pub access_seconds : ℕ
  pub owner_id : ℕ
  pub other_permission : ℕ
  pub owner_permission : ℕ

pub record Voidlet : Type 0 where
  pub header : List ℕ
  pub void_size : ℕ
  pub voidmap_size : ℕ
  pub voidmap : ℕ

pub record Voidite : Type 0 where
  pub position : ℕ
  pub next_voidite : ℕ
  pub bytes : List ℕ

-- `offset` and `num_sectors` are those of the partition.
pub record Voidom : Type 0 where
  pub offset : ℕ
  pub num_sectors : ℕ
  pub voidlet : Voidlet
  pub root : Voidelle

unfoldable pub encode_voidite : Voidite → List ℕ
encode_voidite v = bytes_of 8 v.position ++ (bytes_of 8 v.next_voidite ++ v.bytes)

unfoldable pub decode_voidite : List ℕ → Voidite
decode_voidite bytes = record {
  position = number_of 8 bytes;
  next_voidite = number_of 8 (drop 8 bytes);
  bytes = take voidite_content_size (drop 8 (drop 8 bytes));
}

unfoldable pub encode_voidlet : Voidlet → List ℕ
encode_voidlet v =
    v.header ++ (bytes_of 8 v.void_size ++ (bytes_of 8 v.voidmap_size ++ bytes_of 8 v.voidmap))

unfoldable pub encode_voidelle : Voidelle → List ℕ
encode_voidelle v =
    v.header
    ++ (bytes_of 8 v.flags
        ++ (bytes_of 8 v.name
            ++ (bytes_of 8 v.name_size
                ++ (bytes_of 8 v.content
                    ++ (bytes_of 8 v.content_size
                        ++ (bytes_of 8 v.next
                            ++ (bytes_of 8 v.position
                                ++ (bytes_of 8 v.creation_seconds
                                    ++ (bytes_of 8 v.modification_seconds
                                        ++ (bytes_of 8 v.access_seconds
                                            ++ (bytes_of 8 v.owner_id
                                                ++ (v.other_permission ∷ v.owner_permission
                                                    ∷ []))))))))))))

-- The fields behind the header, one after another.
unfoldable pub decode_voidelle : List ℕ → Voidelle
decode_voidelle bytes =
    let at1 = drop 5 bytes in
    let at2 = drop 8 at1 in
    let at3 = drop 8 at2 in
    let at4 = drop 8 at3 in
    let at5 = drop 8 at4 in
    let at6 = drop 8 at5 in
    let at7 = drop 8 at6 in
    let at8 = drop 8 at7 in
    let at9 = drop 8 at8 in
    let at10 = drop 8 at9 in
    let at11 = drop 8 at10 in
    let at12 = drop 8 at11 in
    record {
      header = take 5 bytes;
      flags = number_of 8 at1;
      name = number_of 8 at2;
      name_size = number_of 8 at3;
      content = number_of 8 at4;
      content_size = number_of 8 at5;
      next = number_of 8 at6;
      position = number_of 8 at7;
      creation_seconds = number_of 8 at8;
      modification_seconds = number_of 8 at9;
      access_seconds = number_of 8 at10;
      owner_id = number_of 8 at11;
      other_permission = get_or at12 0 0;
      owner_permission = get_or at12 1 0;
    }
