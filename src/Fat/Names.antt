-- ===== src/Fat/Names.antt =====
-- The names of kernel/fs/fat32.c: long and short names of a directory entry, and the short name that
-- is made for a new one. A string that a function makes is the list of its bytes up to the terminator.
use veil_os.Base.{
  ℕ, zero, suc, ◌+◌, ◌/◌, ◌%◌, ◌^◌, not, Option, none, some, List, [], ◌∷◌, ◌++◌, get_or, take,
  replicate, ◌==◌, if◌then◌else◌,
}
use veil_os.Strings.{toupper}
use veil_os.Fat.Types.{Fat32DirEntry}

abbrev pub space : ℕ
space = b' '

abbrev pub dot_char : ℕ
dot_char = b'.'

-- The parts of `Fat32LFNEntry` that hold 5, 6 and 2 characters.
pub record Fat32LfnEntry : Type 0 where
  pub characters1 : List ℕ
  pub characters2 : List ℕ
  pub characters3 : List ℕ

unfoldable pub get_char_from_short : ℕ → ℕ
get_char_from_short s = if not (s / 2 ^ 8 % 2 ^ 8 == 0) then b'?' else s % 2 ^ 8

unfoldable pub decode_chars : List ℕ → List ℕ
decode_chars [] = []
decode_chars (c ∷ cs) = get_char_from_short c ∷ decode_chars cs

-- The bytes up to the first 0.
unfoldable pub c_string : List ℕ → List ℕ
c_string [] = []
c_string (c ∷ cs) = if c == 0 then [] else c ∷ c_string cs

unfoldable pub utf8_filename : Fat32LfnEntry → List ℕ
utf8_filename entry =
    c_string (decode_chars (entry.characters1 ++ entry.characters2 ++ entry.characters3))

-- The bytes below `size`, from the last one down.
unfoldable pub last_nonspace : (size : ℕ) → List ℕ → ℕ
last_nonspace zero s = 0
last_nonspace (suc i) s = if not (get_or s i space == space) then i else last_nonspace i s

-- The bytes that `set_basic_filename` writes in front of the terminator.
unfoldable pub set_basic_filename : Fat32DirEntry → List ℕ
set_basic_filename entry =
    let namespace = last_nonspace 8 entry.name + 1 in
    let extspace = last_nonspace 3 entry.ext + 1 in
    if extspace == 0
    then take namespace entry.name
    else take namespace entry.name ++ dot_char ∷ take extspace entry.ext

-- The loop of `set_filename` over the long entries, the last one first.
unfoldable pub join_entries : List Fat32LfnEntry → List ℕ
join_entries [] = []
join_entries (entry ∷ entries) = join_entries entries ++ utf8_filename entry

-- The last dot and what follows it, or none.
unfoldable pub last_extension : List ℕ → Option (List ℕ)
last_extension [] = none
last_extension (c ∷ cs) = elim (last_extension cs) [
  | some found ↦ some found
  | none ↦ if c == dot_char then some (c ∷ cs) else none
]

-- `set_filename`: the name, and the extension where it sets one.
unfoldable pub set_filename : List Fat32LfnEntry → Fat32DirEntry → List ℕ × Option (List ℕ)
set_filename [] entry = (set_basic_filename entry, none)
set_filename (lfn ∷ lfns) entry =
    let name = join_entries (lfn ∷ lfns) in
    (
      name,
      (elim (last_extension name) [
        | none ↦ some (take 3 entry.ext)
        | some extension ↦ some extension
      ]),
    )

unfoldable pub lfn_checksum_from : (sum : ℕ) → List ℕ → ℕ
lfn_checksum_from sum [] = sum
lfn_checksum_from sum (c ∷ cs) =
    lfn_checksum_from (((if sum % 2 == 0 then 0 else 0x80) + sum / 2 + c) % 2 ^ 8) cs

unfoldable pub lfn_checksum : List ℕ → ℕ
lfn_checksum short_name = lfn_checksum_from 0 (take 11 short_name)

-- The first loop of `generate_short`, over `rounds` bytes from `i` on: the first dot, or 0.
unfoldable pub find_dot : (rounds : ℕ) → (name : ℕ → ℕ) → (i : ℕ) → ℕ
find_dot zero name i = 0
find_dot (suc n) name i = if name i == dot_char then i else find_dot n name (i + 1)

-- The second loop: `rounds` bytes of the base name.
unfoldable pub base_chars : (rounds : ℕ) → (name : ℕ → ℕ) → (i : ℕ) → List ℕ
base_chars zero name i = []
base_chars (suc n) name i =
    if name i == dot_char
    then replicate (suc n) space
    else toupper (name i) ∷ base_chars n name (i + 1)

-- The third loop: `rounds` bytes of the extension.
unfoldable pub ext_chars : (rounds : ℕ) → (name : ℕ → ℕ) → (i : ℕ) → List ℕ
ext_chars zero name i = []
ext_chars (suc n) name i =
    if name i == 0 then replicate (suc n) space else toupper (name i) ∷ ext_chars n name (i + 1)

-- `name` is the memory from the name on, and `len` its `strlen`: the second loop does not stop at
-- the terminator.
unfoldable pub generate_short : (name : ℕ → ℕ) → (len : ℕ) → List ℕ
generate_short name len = base_chars 8 name 0 ++ ext_chars 3 name (find_dot len name 0 + 1)
