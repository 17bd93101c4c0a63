-- ===== src/Printf.antt =====
-- kernel/lib/printf.c. What the functions write, into a buffer or through `printf_putc`, is a list of
-- bytes. A number goes through a buffer of 20 places, which is filled from its end; `none` is a write
-- in front of that buffer.
pub mod Digits
pub mod Padding
pub mod Formats
mod Examples
use veil_os.Base.{
  ℕ, zero, suc, ◌+◌, ◌-◌, ◌*◌, ◌/◌, ◌%◌, ◌^◌, ◌≤◌, Bool, true, false, not, ◌&&◌, ◌||◌, Option, none,
  some, List, [], ◌∷◌, ◌++◌, length, replicate, leb, ltb, ◌==◌, if◌then◌else◌,
}

abbrev pub u64 : ℕ → ℕ
u64 n = n % 2 ^ 64

abbrev pub places : ℕ
places = 20

-- `'0' + n`, or a letter from `letter` on for the digit 10.
unfoldable pub digit_char : (letter n : ℕ) → ℕ
digit_char letter n = if ltb 9 n then n - 10 + letter else n + b'0'

-- The first loop of each function: at most `room` digits, in front of those in `buf`.
unfoldable pub digits_from : (letter base room arg : ℕ) → List ℕ → List ℕ
digits_from letter base zero arg buf = buf
digits_from letter base (suc room) arg buf =
    let buf' = digit_char letter (arg % base) ∷ buf in
    let rest = digits_from letter base room (arg / base) buf' in
    if arg / base == 0 then buf' else rest

-- `padlen - digits` where that is above 0, as an `int`; a padding that is negative as an `int` is
-- none.
unfoldable pub padding_of : (padlen digits : ℕ) → ℕ
padding_of padlen digits =
    let padding = (padlen - digits) % 2 ^ 32 in
    if ltb digits padlen && ltb padding (2 ^ 31) then padding else 0

-- `while (padding-- > 0 && i > 0)`
unfoldable pub pad_bounded : (pad padding : ℕ) → List ℕ → List ℕ
pad_bounded pad zero buf = buf
pad_bounded pad (suc n) buf = if ltb (length buf) places then pad_bounded pad n (pad ∷ buf) else buf

-- `while (padding-- > 0)`
unfoldable pub pad_unbounded : (pad padding : ℕ) → List ℕ → Option (List ℕ)
pad_unbounded pad zero buf = some buf
pad_unbounded pad (suc n) buf =
    let rest = pad_unbounded pad n (pad ∷ buf) in if ltb (length buf) places then rest else none

unfoldable pub handle_unsigned : (arg padlen pad : ℕ) → List ℕ
handle_unsigned arg padlen pad =
    let digits = digits_from b'A' 10 places arg [] in
    pad_bounded pad (padding_of padlen (length digits)) digits

-- `sarg` is a 64-bit word, negative from 2 ^ 63 on.
unfoldable pub handle_signed : (sarg padlen pad : ℕ) → List ℕ
handle_signed sarg padlen pad =
    let negative = leb (2 ^ 63) sarg in
    let digits = digits_from b'A' 10 places (if negative then u64 (2 ^ 64 - sarg) else sarg) [] in
    let padding = padding_of padlen (length digits) in
    let padded =
      pad_bounded pad (if negative && ltb 0 padding then padding - 1 else padding) digits in
    if negative && ltb (length padded) places then b'-' ∷ padded else padded

unfoldable pub handle_hexa : (arg padlen pad : ℕ) → (uppercase : Bool) → Option (List ℕ)
handle_hexa arg padlen pad uppercase =
    let digits = digits_from (if uppercase then b'A' else b'a') 16 places arg [] in
    pad_unbounded pad (padding_of padlen (length digits)) digits

-- An argument: a 64-bit register, or a string; a null pointer is `none`.
pub data Arg : Type 0 where
  word : ℕ → Arg
  text : Option (List ℕ) → Arg

-- `va_arg(args, int)` as a 64-bit word: the low half of the register with its sign.
unfoldable pub int_of : ℕ → ℕ
int_of w = let low = w % 2 ^ 32 in if leb (2 ^ 31) low then low + (2 ^ 64 - 2 ^ 32) else low

-- The next number of the arguments, and the arguments behind it. A missing argument is 0, and so is a
-- string where a number is read.
unfoldable pub next_word : List Arg → ℕ × List Arg
next_word [] = (0, [])
next_word (word w ∷ args) = (w, args)
next_word (text s ∷ args) = (0, args)

unfoldable pub next_text : List Arg → List ℕ × List Arg
next_text (text (some s) ∷ args) = (s, args)
next_text (text none ∷ args) = (b'(' ∷ b'n' ∷ b'u' ∷ b'l' ∷ b'l' ∷ b')' ∷ [], args)
next_text (word w ∷ args) = ([], args)
next_text [] = ([], [])

abbrev pub is_digit : ℕ → Bool
is_digit c = leb b'0' c && leb c b'9'

-- `while (*fmt >= '0' && *fmt <= '9')`: the length, and the format behind its digits.
unfoldable pub scan_width : (len : ℕ) → List ℕ → ℕ × List ℕ
scan_width len [] = (len, [])
scan_width len (c ∷ fmt) =
    let rest = scan_width (u64 (len * 10 + (c - b'0'))) fmt in
    if is_digit c then rest else (len, c ∷ fmt)

-- `while (*fmt == 'l')`: whether there was one, and the format behind them.
unfoldable pub scan_long : (long : Bool) → List ℕ → Bool × List ℕ
scan_long long [] = (long, [])
scan_long long (c ∷ fmt) =
    let rest = scan_long true fmt in if c == b'l' then rest else (long, c ∷ fmt)

unfoldable pub scan_pad : List ℕ → ℕ × List ℕ
scan_pad [] = (b' ', [])
scan_pad (c ∷ fmt) = if c == b'0' then (b'0', fmt) else (b' ', c ∷ fmt)

-- What a conversion writes, and the arguments that it leaves. An unknown one, which the terminator is
-- too, writes nothing.
unfoldable pub convert :
    (conversion len pad : ℕ) → (long : Bool) → List Arg → Option (List ℕ × List Arg)
convert conversion len pad long args =
    let (w, rest) = next_word args in
    if conversion == b'c'
    then some ((w % 2 ^ 8) ∷ [], rest)
    else if (conversion == b'i') || (conversion == b'd')
    then some (handle_signed (if long then w else int_of w) len pad, rest)
    else if conversion == b'u'
    then some (handle_unsigned (if long then w else w % 2 ^ 32) len pad, rest)
    else if conversion == b's'
    then some (next_text args)
    else if (conversion == b'x') || (conversion == b'X')
    then (elim (handle_hexa (if long then w else w % 2 ^ 32) len pad (conversion == b'X')) [
      | none ↦ none
      | some out ↦ some (out, rest)
    ])
    else some ([], args)

unfoldable pub take_conversion :
    (len pad : ℕ) → (long : Bool) → List ℕ → Option ((ℕ × ℕ × ℕ × Bool) × List ℕ)
take_conversion len pad long [] = none
take_conversion len pad long (c ∷ fmt) = some ((c, len, pad, long), fmt)

-- The conversion that a format behind a `%` asks for: its character, length, padding and whether it
-- is long, and the memory behind it. The character may be the terminator, which is passed over too;
-- `none` is the end of the memory.
unfoldable pub scan_conversion : List ℕ → Option ((ℕ × ℕ × ℕ × Bool) × List ℕ)
scan_conversion fmt =
    let (pad, fmt1) = scan_pad fmt in
    let (len, fmt2) = scan_width 0 fmt1 in
    let (long, fmt3) = scan_long false fmt2 in take_conversion len pad long fmt3

-- What a round writes in front of the rest. The outer `none` says that the fuel ran out, the inner
-- one that a buffer was overrun, or that the memory ended.
unfoldable pub emit : List ℕ → Option (Option (List ℕ)) → Option (Option (List ℕ))
emit out none = none
emit out (some none) = some none
emit out (some (some rest)) = some (some (out ++ rest))

unfoldable pub emit_converted :
    (List Arg → Option (Option (List ℕ))) → Option (List ℕ × List Arg) → Option (Option (List ℕ))
emit_converted next none = some none
emit_converted next (some (out, args)) = emit out (next args)

-- What a round writes that found a conversion, with what follows it.
unfoldable pub write_conversion :
    (List ℕ → List Arg → Option (Option (List ℕ)))
    → List Arg
    → Option ((ℕ × ℕ × ℕ × Bool) × List ℕ)
    → Option (Option (List ℕ))
write_conversion next args none = some none
write_conversion next args (some ((conversion, len, pad, long), rest)) =
    emit_converted (next rest) (convert conversion len pad long args)

-- A round behind a `%`, with what follows it.
unfoldable pub format_percent :
    (List ℕ → List Arg → Option (Option (List ℕ))) → List ℕ → List Arg → Option (Option (List ℕ))
format_percent next [] args = some none
format_percent next (c ∷ fmt) args =
    if c == b'%'
    then emit (b'%' ∷ []) (next fmt args)
    else write_conversion next args (scan_conversion (c ∷ fmt))

-- The loop of `vsprintf`, on fuel. The list is the memory from the format on, with its terminator and
-- what lies behind it.
unfoldable pub format : (fuel : ℕ) → List ℕ → List Arg → Option (Option (List ℕ))
format zero fmt args = none
format (suc fuel) [] args = some none
format (suc fuel) (c ∷ fmt) args =
    if c == 0
    then some (some [])
    else if not (c == b'%')
    then emit (c ∷ []) (format fuel fmt args)
    else format_percent (format fuel) fmt args
