-- ===== src/Printf/Examples.antt =====
-- Runs of kernel/lib/printf.c.
use veil_os.Base.{
  ℕ, ◌≤◌, ◌<◌, ◌≡◌, refl, true, false, ◌^◌, ◌-◌, none, some, List, [], ◌∷◌, ◌++◌, length, min, max,
  arith,
}
use veil_os.Printf.{
  Arg, word, format, write_conversion, format_percent, emit, emit_converted, scan_conversion,
  scan_pad, scan_width, scan_long, take_conversion, convert, next_word, next_text, handle_signed,
  handle_unsigned, handle_hexa, int_of, digits_from, digit_char, padding_of, pad_bounded,
  pad_unbounded,
}
use veil_os.Printf.Digits.{read_digits, digit_value}
use veil_os.Printf.Padding.{handle_unsigned-reads, handle_hexa-reads}
use veil_os.Printf.Formats.{IsConversion, Writes, nothing, plain, conversion, format-Writes}

handle_unsigned-reads_example :
    (read_digits b'A' 10 0 (handle_unsigned 1234 8 b'0') ≡ 1234)
    × (length (handle_unsigned 1234 8 b' ') ≡ min (max 8 (length (handle_unsigned 1234 0 b' '))) 20)
handle_unsigned-reads_example = handle_unsigned-reads 1234 8 b' ' (omega arith) (omega arith)

handle_hexa-reads_example :
    (8 ≤ 20
      → (out : List ℕ) × (handle_hexa 48879 8 b'0' true ≡ some out)
        × (read_digits b'A' 16 0 out ≡ 48879))
    × (20 < 8 → handle_hexa 48879 8 b' ' true ≡ none)
handle_hexa-reads_example = handle_hexa-reads 48879 8 b' ' true (omega arith) (omega arith)

-- `%d-%04x`
abbrev dashed : List ℕ
dashed = b'%' ∷ b'd' ∷ b'-' ∷ b'%' ∷ b'0' ∷ b'4' ∷ b'x' ∷ []

abbrev dashed_args : List Arg
dashed_args = word (2 ^ 64 - 5) ∷ word 171 ∷ []

-- `-5-00ab`
abbrev dashed_text : List ℕ
dashed_text = b'-' ∷ b'5' ∷ b'-' ∷ b'0' ∷ b'0' ∷ b'a' ∷ b'b' ∷ []

signed-IsConversion : IsConversion b'd'
signed-IsConversion = record {
  no_terminator = λ e. omega (arith, e);
  no_percent = λ e. omega (arith, e);
  no_digit = refl;
  no_long = λ e. omega (arith, e);
}

hexa-IsConversion : IsConversion b'x'
hexa-IsConversion = record {
  no_terminator = λ e. omega (arith, e);
  no_percent = λ e. omega (arith, e);
  no_digit = refl;
  no_long = λ e. omega (arith, e);
}

dashed-Writes : Writes dashed dashed_args dashed_text
unfolding convert next_word next_text handle_signed handle_unsigned handle_hexa int_of digits_from
    digit_char padding_of pad_bounded pad_unbounded read_digits digit_value
dashed-Writes =
    conversion false [] 0 b'd' (b'-' ∷ b'%' ∷ b'0' ∷ b'4' ∷ b'x' ∷ []) (b'-' ∷ b'5' ∷ [])
      (b'-' ∷ b'0' ∷ b'0' ∷ b'a' ∷ b'b' ∷ []) dashed_args (word 171 ∷ []) tt
      (λ e. λ z. omega (arith, z)) (omega arith) signed-IsConversion refl
      (plain b'-' (b'%' ∷ b'0' ∷ b'4' ∷ b'x' ∷ []) (b'0' ∷ b'0' ∷ b'a' ∷ b'b' ∷ []) (word 171 ∷ [])
        (λ e. omega (arith, e)) (λ e. omega (arith, e))
        (conversion true (b'4' ∷ []) 0 b'x' [] (b'0' ∷ b'0' ∷ b'a' ∷ b'b' ∷ []) [] (word 171 ∷ [])
          [] (refl, tt) (λ e. λ z. omega (arith, z)) (omega arith) hexa-IsConversion refl
          (nothing [])))

format-Writes_example : format 8 (dashed ++ (0 ∷ 7 ∷ [])) dashed_args ≡ some (some dashed_text)
format-Writes_example =
    format-Writes dashed dashed_text (7 ∷ []) dashed_args 8 dashed-Writes (omega arith)

format-dashed : format 8 (dashed ++ (0 ∷ [])) dashed_args ≡ some (some dashed_text)
unfolding format format_percent emit emit_converted write_conversion scan_conversion scan_pad
    scan_width scan_long take_conversion convert next_word next_text handle_signed handle_unsigned
    handle_hexa int_of digits_from digit_char padding_of pad_bounded pad_unbounded
format-dashed = refl

-- A format that ends in `%`: its terminator is passed over, and the byte behind it is written.
format-unfinished : format 8 (b'%' ∷ 0 ∷ b'a' ∷ 0 ∷ []) [] ≡ some (some (b'a' ∷ []))
unfolding format format_percent emit emit_converted write_conversion scan_conversion scan_pad
    scan_width scan_long take_conversion convert next_word
format-unfinished = refl
