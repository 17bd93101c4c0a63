-- ===== src/Voidelle/Fields.antt =====
-- The structs of kernel/fs/voidelle.h read back from their bytes.
use veil_os.Base.{
  ℕ, zero, suc, ◌+◌, ◌^◌, ◌<◌, ◌≡◌, refl, ap, List, [], ◌∷◌, ◌++◌, length, length-append, take,
  drop, arith,
}
use veil_os.Emmc.Blocks.{take_all}
use veil_os.Voidelle.Bytes.{
  bytes_of, number_of, FitsIn, number-bytes_of, drop-bytes_of, length-bytes_of,
}
use veil_os.Voidelle.Types.{
  Voidelle, Voidite, encode_voidite, decode_voidite, encode_voidelle, decode_voidelle,
  voidite_content_size, voidelle_size, void_size,
}

pub FitsIn-lt : (n : ℕ) → n < 2 ^ 64 → FitsIn 8 n
FitsIn-lt n lt = omega (arith, lt)

field : (n : ℕ) (rest : List ℕ) → n < 2 ^ 64 → number_of 8 (bytes_of 8 n ++ rest) ≡ n
field n rest lt = number-bytes_of 8 n rest (FitsIn-lt n lt)

take_front : (xs ys : List ℕ) (n : ℕ) → length xs ≡ n → take n (xs ++ ys) ≡ xs
take_front [] ys zero e = refl
take_front [] ys (suc n) e = absurd (omega (arith, e))
take_front (x ∷ xs) ys zero e = absurd (omega (arith, e))
take_front (x ∷ xs) ys (suc n) e = ap (λ r. x ∷ r) (take_front xs ys n (omega (arith, e)))

drop_front : (xs ys : List ℕ) (n : ℕ) → length xs ≡ n → drop n (xs ++ ys) ≡ ys
drop_front [] ys zero e = refl
drop_front [] ys (suc n) e = absurd (omega (arith, e))
drop_front (x ∷ xs) ys zero e = absurd (omega (arith, e))
drop_front (x ∷ xs) ys (suc n) e = drop_front xs ys n (omega (arith, e))

-- A voidite whose numbers have 64 bits and whose contents fill a void.
pub record IsVoidite (v : Voidite) : Type 0 where
  pub position_lt : v.position < 2 ^ 64
  pub next_lt : v.next_voidite < 2 ^ 64
  pub full : length v.bytes ≡ voidite_content_size

pub length-encode_voidite : (v : Voidite) → IsVoidite v → length (encode_voidite v) ≡ void_size
unfolding encode_voidite
length-encode_voidite v h = omega (
  arith,
  length-append (bytes_of 8 v.position) (bytes_of 8 v.next_voidite ++ v.bytes),
  length-append (bytes_of 8 v.next_voidite) v.bytes,
  length-bytes_of 8 v.position,
  length-bytes_of 8 v.next_voidite,
  h.full,
)

pub decode-encode_voidite : (v : Voidite) → IsVoidite v → decode_voidite (encode_voidite v) ≡ v
unfolding encode_voidite decode_voidite
decode-encode_voidite v h =
    rw
      (
        field v.position (bytes_of 8 v.next_voidite ++ v.bytes) h.position_lt,
        drop-bytes_of 8 v.position (bytes_of 8 v.next_voidite ++ v.bytes),
        field v.next_voidite v.bytes h.next_lt,
        drop-bytes_of 8 v.next_voidite v.bytes,
        take_all voidite_content_size v.bytes h.full,
      )
      refl

-- A voidelle with a header of 5 bytes and fields of 64 bits.
pub record IsVoidelle (v : Voidelle) : Type 0 where
  pub header_size : length v.header ≡ 5
  pub flags_lt : v.flags < 2 ^ 64
  pub name_lt : v.name < 2 ^ 64
  pub name_size_lt : v.name_size < 2 ^ 64
  pub content_lt : v.content < 2 ^ 64
  pub content_size_lt : v.content_size < 2 ^ 64
  pub next_lt : v.next < 2 ^ 64
  pub position_lt : v.position < 2 ^ 64
  pub creation_lt : v.creation_seconds < 2 ^ 64
  pub modification_lt : v.modification_seconds < 2 ^ 64
  pub access_lt : v.access_seconds < 2 ^ 64
  pub owner_lt : v.owner_id < 2 ^ 64

pub IsVoidelle-content :
    (v : Voidelle) (n : ℕ) → IsVoidelle v → n < 2 ^ 64 → IsVoidelle (record v { content = n })
IsVoidelle-content v n h lt = record {
  header_size = h.header_size;
  flags_lt = h.flags_lt;
  name_lt = h.name_lt;
  name_size_lt = h.name_size_lt;
  content_lt = lt;
  content_size_lt = h.content_size_lt;
  next_lt = h.next_lt;
  position_lt = h.position_lt;
  creation_lt = h.creation_lt;
  modification_lt = h.modification_lt;
  access_lt = h.access_lt;
  owner_lt = h.owner_lt;
}

pub IsVoidelle-next :
    (v : Voidelle) (n : ℕ) → IsVoidelle v → n < 2 ^ 64 → IsVoidelle (record v { next = n })
IsVoidelle-next v n h lt = record {
  header_size = h.header_size;
  flags_lt = h.flags_lt;
  name_lt = h.name_lt;
  name_size_lt = h.name_size_lt;
  content_lt = h.content_lt;
  content_size_lt = h.content_size_lt;
  next_lt = lt;
  position_lt = h.position_lt;
  creation_lt = h.creation_lt;
  modification_lt = h.modification_lt;
  access_lt = h.access_lt;
  owner_lt = h.owner_lt;
}

-- What lies behind a field of a voidelle.
module _ (v : Voidelle) where
  abbrev owner_tail : List ℕ
  owner_tail = v.other_permission ∷ v.owner_permission ∷ []

  abbrev access_tail : List ℕ
  access_tail = bytes_of 8 v.owner_id ++ owner_tail

  abbrev modification_tail : List ℕ
  modification_tail = bytes_of 8 v.access_seconds ++ access_tail

  abbrev creation_tail : List ℕ
  creation_tail = bytes_of 8 v.modification_seconds ++ modification_tail

  abbrev position_tail : List ℕ
  position_tail = bytes_of 8 v.creation_seconds ++ creation_tail

  abbrev next_tail : List ℕ
  next_tail = bytes_of 8 v.position ++ position_tail

  abbrev content_size_tail : List ℕ
  content_size_tail = bytes_of 8 v.next ++ next_tail

  abbrev content_tail : List ℕ
  content_tail = bytes_of 8 v.content_size ++ content_size_tail

  abbrev name_size_tail : List ℕ
  name_size_tail = bytes_of 8 v.content ++ content_tail

  abbrev name_tail : List ℕ
  name_tail = bytes_of 8 v.name_size ++ name_size_tail

  abbrev flags_tail : List ℕ
  flags_tail = bytes_of 8 v.name ++ name_tail

  abbrev header_tail : List ℕ
  header_tail = bytes_of 8 v.flags ++ flags_tail

length-field : (n : ℕ) (rest : List ℕ) → length (bytes_of 8 n ++ rest) ≡ 8 + length rest
length-field n rest = omega (arith, length-append (bytes_of 8 n) rest, length-bytes_of 8 n)

pub length-encode_voidelle :
    (v : Voidelle) → IsVoidelle v → length (encode_voidelle v) ≡ voidelle_size
unfolding encode_voidelle
length-encode_voidelle v h = omega (
  arith,
  h.header_size,
  length-append v.header (header_tail v),
  length-field v.flags (flags_tail v),
  length-field v.name (name_tail v),
  length-field v.name_size (name_size_tail v),
  length-field v.content (content_tail v),
  length-field v.content_size (content_size_tail v),
  length-field v.next (next_tail v),
  length-field v.position (position_tail v),
  length-field v.creation_seconds (creation_tail v),
  length-field v.modification_seconds (modification_tail v),
  length-field v.access_seconds (access_tail v),
  length-field v.owner_id (owner_tail v),
)

pub decode-encode_voidelle : (v : Voidelle) → IsVoidelle v → decode_voidelle (encode_voidelle v) ≡ v
unfolding encode_voidelle decode_voidelle
decode-encode_voidelle v h =
    rw
      (
        take_front v.header (header_tail v) 5 h.header_size,
        drop_front v.header (header_tail v) 5 h.header_size,
        drop-bytes_of 8 v.flags (flags_tail v),
        drop-bytes_of 8 v.name (name_tail v),
        drop-bytes_of 8 v.name_size (name_size_tail v),
        drop-bytes_of 8 v.content (content_tail v),
        drop-bytes_of 8 v.content_size (content_size_tail v),
        drop-bytes_of 8 v.next (next_tail v),
        drop-bytes_of 8 v.position (position_tail v),
        drop-bytes_of 8 v.creation_seconds (creation_tail v),
        drop-bytes_of 8 v.modification_seconds (modification_tail v),
        drop-bytes_of 8 v.access_seconds (access_tail v),
        drop-bytes_of 8 v.owner_id (owner_tail v),
        field v.flags (flags_tail v) h.flags_lt,
        field v.name (name_tail v) h.name_lt,
        field v.name_size (name_size_tail v) h.name_size_lt,
        field v.content (content_tail v) h.content_lt,
        field v.content_size (content_size_tail v) h.content_size_lt,
        field v.next (next_tail v) h.next_lt,
        field v.position (position_tail v) h.position_lt,
        field v.creation_seconds (creation_tail v) h.creation_lt,
        field v.modification_seconds (modification_tail v) h.modification_lt,
        field v.access_seconds (access_tail v) h.access_lt,
        field v.owner_id (owner_tail v) h.owner_lt,
      )
      refl
