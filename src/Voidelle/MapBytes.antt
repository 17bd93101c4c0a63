-- ===== src/Voidelle/MapBytes.antt =====
-- A byte of the map of voids, and bytes that are set in a sector.
use veil_os.Base.{
  ℕ, zero, suc, ◌+◌, ◌-◌, ◌^◌, ◌≤◌, ◌<◌, ◌≡◌, ◌≢◌, refl, ap, List, [], ◌∷◌, length, get_or, set,
  ltb, le→ltb, if◌then◌else◌, arith,
}
use veil_os.Voidelle.Bytes.{padded}
use veil_os.Voidelle.Disk.{take_bit, lowest_bit}

-- A byte of the map with `m` voids in use from it on.
unfoldable pub used_byte : ℕ → ℕ
used_byte m = if ltb m 8 then 256 - 2 ^ (8 - m) else 255

pub used_byte-full : (m : ℕ) → 8 ≤ m → used_byte m ≡ 255
unfolding used_byte
used_byte-full m le = rw (le→ltb m 8 le) refl

pub take_bit-used_byte :
    (m : ℕ) → m < 8 → (take_bit (used_byte m) ≡ (used_byte (m + 1), 8 - m)) × (used_byte m ≢ 255)
unfolding take_bit lowest_bit used_byte
take_bit-used_byte zero lt = (refl, omega arith)
take_bit-used_byte (suc zero) lt = (refl, omega arith)
take_bit-used_byte (suc (suc zero)) lt = (refl, omega arith)
take_bit-used_byte (suc (suc (suc zero))) lt = (refl, omega arith)
take_bit-used_byte (suc (suc (suc (suc zero)))) lt = (refl, omega arith)
take_bit-used_byte (suc (suc (suc (suc (suc zero))))) lt = (refl, omega arith)
take_bit-used_byte (suc (suc (suc (suc (suc (suc zero)))))) lt = (refl, omega arith)
take_bit-used_byte (suc (suc (suc (suc (suc (suc (suc zero))))))) lt = (refl, omega arith)
take_bit-used_byte (suc (suc (suc (suc (suc (suc (suc (suc m)))))))) lt = absurd (omega (arith, lt))

pub get_or-set_self : (xs : List ℕ) (i v d : ℕ) → i < length xs → get_or (set xs i v) i d ≡ v
get_or-set_self [] i v d lt = absurd (omega arith)
get_or-set_self (x ∷ xs) zero v d lt = refl
get_or-set_self (x ∷ xs) (suc i) v d lt = get_or-set_self xs i v d (omega arith)

pub get_or-set_ne : (xs : List ℕ) (i j v d : ℕ) → i ≢ j → get_or (set xs i v) j d ≡ get_or xs j d
get_or-set_ne [] i j v d ne = refl
get_or-set_ne (x ∷ xs) zero zero v d ne = absurd (ne refl)
get_or-set_ne (x ∷ xs) zero (suc j) v d ne = refl
get_or-set_ne (x ∷ xs) (suc i) zero v d ne = refl
get_or-set_ne (x ∷ xs) (suc i) (suc j) v d ne = get_or-set_ne xs i j v d (λ e. ne (ap suc e))

pub padded_all : (n : ℕ) (bytes : List ℕ) → length bytes ≡ n → padded n bytes ≡ bytes
unfolding padded
padded_all zero [] e = refl
padded_all zero (b ∷ bytes) e = absurd (omega (arith, e))
padded_all (suc n) [] e = absurd (omega (arith, e))
padded_all (suc n) (b ∷ bytes) e = ap (λ r. b ∷ r) (padded_all n bytes (omega (arith, e)))
