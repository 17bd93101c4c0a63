-- ===== src/Printf/Padding.antt =====
-- Numbers as `vsprintf` writes them: what they read as, and how long they are.
use veil_os.Base.{
  ℕ, zero, suc, ◌+◌, ◌-◌, ◌*◌, ◌^◌, ◌≤◌, ◌<◌, ◌≡◌, inl, inr, refl, ap, ◌∙◌, Bool, true, false, none,
  some, List, [], ◌∷◌, length, leb, ltb, min, max, if◌then◌else◌, arith, Bool-cases, ltb→lt, ltb→le,
  lt→ltb,
}
use veil_os.Printf.{
  digits_from, places, padding_of, pad_bounded, pad_unbounded, handle_unsigned, handle_hexa,
}
use veil_os.Printf.Digits.{
  digit_value, read_digits, decimal, hexa, Enough-decimal, Enough-hexa, read-digits_from,
  digits_from-length,
}

read_zero :
    (letter base : ℕ) (cs : List ℕ)
    → b'9' < letter
    → read_digits letter base 0 (b'0' ∷ cs) ≡ read_digits letter base 0 cs
unfolding read_digits digit_value
read_zero letter base cs above =
    let value : digit_value' letter ≡ 0 = ground arith in
    ap (λ n. read_digits letter base n cs) (ap (λ d. 0 * base + d) value ∙ omega arith)
  where
    digit_value' : ℕ → ℕ
    digit_value' letter = if leb letter b'0' then b'0' - letter + 10 else b'0' - b'0'

read-pad_bounded :
    (letter base n : ℕ) (cs : List ℕ)
    → b'9' < letter
    → read_digits letter base 0 (pad_bounded b'0' n cs) ≡ read_digits letter base 0 cs
unfolding pad_bounded
read-pad_bounded letter base zero cs above = refl
read-pad_bounded letter base (suc n) cs above = elim (Bool-cases (ltb (length cs) places)) [
  | inl room ↦
      rw room (read-pad_bounded letter base n (b'0' ∷ cs) above ∙ read_zero letter base cs above)
  | inr full ↦ rw full refl
]

pad_bounded-length :
    (pad n : ℕ) (cs : List ℕ)
    → length cs ≤ places
    → length (pad_bounded pad n cs) ≡ min (n + length cs) places
unfolding pad_bounded
pad_bounded-length pad zero cs le = omega (arith, le)
pad_bounded-length pad (suc n) cs le = elim (Bool-cases (ltb (length cs) places)) [
  | inl room ↦ rw room (pad_bounded-length pad n (pad ∷ cs) (ltb→lt _ _ room) ∙ omega arith)
  | inr full ↦ rw full (omega (arith, le, ltb→le (length cs) places full))
]

read_nil : (letter base n : ℕ) → read_digits letter base n [] ≡ n
unfolding read_digits
read_nil letter base n = refl

pad_unbounded-some :
    (pad n : ℕ) (cs : List ℕ)
    → n + length cs ≤ places
    → pad_unbounded pad n cs ≡ some (pad_bounded pad n cs)
unfolding pad_unbounded pad_bounded
pad_unbounded-some pad zero cs le = refl
pad_unbounded-some pad (suc n) cs le =
    let room = lt→ltb (length cs) places (omega (arith, le)) in
    rw room (pad_unbounded-some pad n (pad ∷ cs) (omega (arith, le)))

pad_unbounded-none :
    (pad n : ℕ) (cs : List ℕ)
    → length cs ≤ places
    → places < n + length cs
    → pad_unbounded pad n cs ≡ none
unfolding pad_unbounded
pad_unbounded-none pad zero cs le lt = absurd (omega (arith, le, lt))
pad_unbounded-none pad (suc n) cs le lt = elim (Bool-cases (ltb (length cs) places)) [
  | inl room ↦ rw room (
      pad_unbounded-none pad n (pad ∷ cs) (omega (arith, ltb→lt (length cs) places room))
        (omega arith))
  | inr full ↦ rw full refl
]

padding_of-lt : (padlen digits : ℕ) → padlen < 2 ^ 31 → padding_of padlen digits ≡ padlen - digits
unfolding padding_of
padding_of-lt padlen digits lt = ground arith

-- `%u` and `%lu` of a 64-bit number with zeros for padding write a decimal number that reads as the
-- number again. With any padding, the text is as long as the number of digits or the length asked
-- for, whichever is more, and never longer than 20 bytes.
pub handle_unsigned-reads :
    (arg padlen pad : ℕ)
    → arg < 2 ^ 64
    → padlen < 2 ^ 31
    → (read_digits b'A' 10 0 (handle_unsigned arg padlen b'0') ≡ arg)
      × (length (handle_unsigned arg padlen pad)
          ≡ min (max padlen (length (handle_unsigned arg 0 pad))) places)
unfolding handle_unsigned
handle_unsigned-reads arg padlen pad lt small =
    let size = (digits_from-length b'A' 10 places arg []).1 in
    let padded =
      pad_bounded-length pad (padding_of padlen (length digits)) digits (omega (arith, size)) in
    let plain =
      pad_bounded-length pad (padding_of 0 (length digits)) digits (omega (arith, size)) in
    (
      read-pad_bounded b'A' 10 (padding_of padlen (length digits)) digits (omega arith)
          ∙ read-digits_from decimal places arg [] (Enough-decimal 19 arg (omega (arith, lt)))
          ∙ read_nil b'A' 10 arg,
      omega (
        arith,
        padded,
        plain,
        padding_of-lt padlen (length digits) small,
        padding_of-lt 0 (length digits) (omega arith),
      ),
    )
  where
    digits : List ℕ
    digits = digits_from b'A' 10 places arg []

letter_above : (uppercase : Bool) → b'9' < (if uppercase then b'A' else b'a')
letter_above true = omega arith
letter_above false = omega arith

-- `%x` and `%lx`, in small or capital letters, of a 64-bit number with zeros for padding write a
-- number that reads as the number again, if the length asked for is at most 20. A longer length
-- overruns the buffer.
pub handle_hexa-reads :
    (arg padlen pad : ℕ) (uppercase : Bool)
    → arg < 2 ^ 64
    → padlen < 2 ^ 31
    → (padlen ≤ 20
        → (out : List ℕ) × (handle_hexa arg padlen b'0' uppercase ≡ some out)
          × (read_digits (if uppercase then b'A' else b'a') 16 0 out ≡ arg))
      × (20 < padlen → handle_hexa arg padlen pad uppercase ≡ none)
unfolding handle_hexa
handle_hexa-reads arg padlen pad uppercase lt small = (
  λ le.
      let room : padding_of padlen (length digits) + length digits ≤ 20 =
        omega (arith, padding_of-lt padlen (length digits) small, size) in
      (
        pad_bounded b'0' (padding_of padlen (length digits)) digits,
        pad_unbounded-some b'0' (padding_of padlen (length digits)) digits room,
        read-pad_bounded letter 16 (padding_of padlen (length digits)) digits
              (letter_above uppercase)
            ∙ read-digits_from (hexa letter (letter_above uppercase)) places arg []
                (Enough-hexa 19 arg (omega (arith, lt)))
            ∙ read_nil letter 16 arg,
      ),
  λ long.
      pad_unbounded-none pad (padding_of padlen (length digits)) digits size
        (omega (arith, padding_of-lt padlen (length digits) small, size)),
)
  where
    letter : ℕ
    letter = if uppercase then b'A' else b'a'

    digits : List ℕ
    digits = digits_from letter 16 places arg []

    size : length digits ≤ 20
    size = omega (arith, (digits_from-length letter 16 places arg []).1)
