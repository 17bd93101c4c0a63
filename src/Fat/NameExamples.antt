-- ===== src/Fat/NameExamples.antt =====
-- Short names of `a.txt` and `readme`.
use veil_os.Base.{ℕ, zero, suc, ◌+◌, ◌<◌, ◌≡◌, ◌≢◌, refl, [], ◌∷◌, get_or, arith}
use veil_os.Strings.{toupper}
use veil_os.Fat.Types.{Fat32DirEntry}
use veil_os.Fat.Names.{space, generate_short, lfn_checksum, lfn_checksum_from}
use veil_os.Fat.ShortNames.{generate_short-dot}

abbrev a_txt : ℕ → ℕ
a_txt k = get_or (b'a' ∷ b'.' ∷ b't' ∷ b'x' ∷ b't' ∷ []) k 0

a_txt_base : (k : ℕ) → k < 1 → a_txt k ≢ b'.'
a_txt_base zero lt = omega arith
a_txt_base (suc k) lt = absurd (omega arith)

a_txt_ext : (k : ℕ) → k < 3 → a_txt (2 + k) ≢ 0
a_txt_ext zero lt = omega arith
a_txt_ext (suc zero) lt = omega arith
a_txt_ext (suc (suc zero)) lt = omega arith
a_txt_ext (suc (suc (suc k))) lt = absurd (omega arith)

generate_short-dot_example :
    (get_or (generate_short a_txt 5) 0 space ≡ b'A')
    × (get_or (generate_short a_txt 5) 9 space ≡ b'X')
unfolding toupper
generate_short-dot_example =
    generate_short-dot a_txt 1 3 0 1 a_txt_base refl a_txt_ext refl (omega arith) (omega arith)

abbrev abc : ℕ → ℕ
abc k = get_or (b'a' ∷ b'b' ∷ b'c' ∷ []) k 0

abc_plain : (k : ℕ) → k < 3 → abc k ≢ b'.'
abc_plain zero lt = omega arith
abc_plain (suc zero) lt = omega arith
abc_plain (suc (suc zero)) lt = omega arith
abc_plain (suc (suc (suc k))) lt = absurd (omega arith)

abc_chars : (k : ℕ) → k < 2 → abc (1 + k) ≢ 0
abc_chars zero lt = omega arith
abc_chars (suc zero) lt = omega arith
abc_chars (suc (suc k)) lt = absurd (omega arith)

abbrev entry : Fat32DirEntry
entry = record {
  name = b'A' ∷ b'B' ∷ 32 ∷ 32 ∷ 32 ∷ 32 ∷ 32 ∷ 32 ∷ [];
  ext = 32 ∷ 32 ∷ 32 ∷ [];
  attrs = 32;
  cluster_high = 0;
  cluster_low = 3;
  size = 0;
}

entry_spaces : (k : ℕ) → 1 < k → k < 8 → get_or entry.name k space ≡ space
entry_spaces zero lo hi = absurd (omega arith)
entry_spaces (suc zero) lo hi = absurd (omega arith)
entry_spaces (suc (suc k)) lo hi = spaces k
  where
    spaces : (k : ℕ) → get_or (32 ∷ 32 ∷ 32 ∷ 32 ∷ 32 ∷ 32 ∷ []) k space ≡ space
    spaces zero = refl
    spaces (suc zero) = refl
    spaces (suc (suc zero)) = refl
    spaces (suc (suc (suc zero))) = refl
    spaces (suc (suc (suc (suc zero)))) = refl
    spaces (suc (suc (suc (suc (suc zero))))) = refl
    spaces (suc (suc (suc (suc (suc (suc k)))))) = refl

checksum : lfn_checksum (b'A' ∷ b'B' ∷ 32 ∷ 32 ∷ 32 ∷ 32 ∷ 32 ∷ 32 ∷ 32 ∷ 32 ∷ 32 ∷ []) < 256
unfolding lfn_checksum lfn_checksum_from
checksum = omega arith
