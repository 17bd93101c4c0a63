-- ===== src/Printf/Formats.antt =====
-- What `vsprintf` of kernel/lib/printf.c writes for a format.
use mathlib.Core.List.{append_assoc}
use veil_os.Base.{
  ℕ, zero, suc, ◌+◌, ◌-◌, ◌*◌, ◌≤◌, ◌<◌, ◌^◌, ◌≡◌, ◌≢◌, refl, sym, ap, ◌∙◌, Bool, true, false,
  Option, some, List, [], ◌∷◌, ◌++◌, length, length-append, replicate, get_or, lt→ltb, ltb,
  if◌then◌else◌, arith, ne→==,
}
use veil_os.Printf.{
  is_digit, u64, take_conversion, Arg, scan_width, scan_long, scan_pad, scan_conversion, convert,
  emit, emit_converted, write_conversion, format_percent, format,
}
use veil_os.Printf.Digits.{read_digits, digit_value}

abbrev pub AllDigits : List ℕ → Type 0
AllDigits [] = Unit {0}
AllDigits (d ∷ ds) = (is_digit d ≡ true) × AllDigits ds

-- A conversion behind its `%`: a zero for the padding, the digits of a length, letters `l`, and what
-- follows them.
abbrev pub directive : (zeros : Bool) → List ℕ → (longs : ℕ) → List ℕ → List ℕ
directive zeros ds longs rest =
    if zeros
    then b'0' ∷ (ds ++ (replicate longs b'l' ++ rest))
    else ds ++ (replicate longs b'l' ++ rest)

-- The number that the digits of a length stand for.
abbrev pub width_of : List ℕ → ℕ
width_of ds = read_digits b'A' 10 0 ds

-- The character of a conversion.
pub record IsConversion (c : ℕ) : Type 0 where
  pub no_terminator : c ≢ 0
  pub no_percent : c ≢ b'%'
  pub no_digit : is_digit c ≡ false
  pub no_long : c ≢ b'l'

-- A format, without its terminator, with some arguments writes a text.
pub data Writes : List ℕ → List Arg → List ℕ → Type 0 where
  nothing : (args : List Arg) → Writes [] args []
  plain :
      (c : ℕ) (fmt out : List ℕ) (args : List Arg)
      → c ≢ 0
      → c ≢ b'%'
      → Writes fmt args out
      → Writes (c ∷ fmt) args (c ∷ out)
  percent :
      (fmt out : List ℕ) (args : List Arg)
      → Writes fmt args out
      → Writes (b'%' ∷ b'%' ∷ fmt) args (b'%' ∷ out)
  conversion :
      (zeros : Bool) (ds : List ℕ) (longs c : ℕ) (fmt piece out : List ℕ) (args rest : List Arg)
      → AllDigits ds
      → (zeros ≡ false → get_or ds 0 0 ≢ b'0')
      → width_of ds < 2 ^ 64
      → IsConversion c
      → convert c (width_of ds) (if zeros then b'0' else b' ') (ltb 0 longs) args
        ≡ some (piece, rest)
      → Writes fmt rest out
      → Writes (b'%' ∷ directive zeros ds longs (c ∷ fmt)) args (piece ++ out)

digit_lem : (c : ℕ) → is_digit c ≡ true → (digit_value b'A' c ≡ c - b'0') × (c ≢ b'%')
unfolding digit_value
digit_lem c e = (ground (arith, e), λ p. absurd (ground (arith, e, p)))

read_digits-ge : (ds : List ℕ) (acc : ℕ) → acc ≤ read_digits b'A' 10 acc ds
unfolding read_digits
read_digits-ge [] acc = omega arith
read_digits-ge (d ∷ ds) acc = omega (arith, read_digits-ge ds (acc * 10 + digit_value b'A' d))

scan_width-digits :
    (ds : List ℕ) (len c : ℕ) (rest : List ℕ)
    → AllDigits ds
    → is_digit c ≡ false
    → read_digits b'A' 10 len ds < 2 ^ 64
    → scan_width len (ds ++ (c ∷ rest)) ≡ (read_digits b'A' 10 len ds, c ∷ rest)
unfolding scan_width read_digits
scan_width-digits [] len c rest all stop small = rw stop refl
scan_width-digits (d ∷ ds) len c rest all stop small =
    let value = (digit_lem d (all.0)).0 in
    let next : u64 (len * 10 + (d - b'0')) ≡ len * 10 + digit_value b'A' d =
      omega (arith, value, small, read_digits-ge ds (len * 10 + digit_value b'A' d)) in
    rw (all.0, next)
      (scan_width-digits ds (len * 10 + digit_value b'A' d) c rest (all.1) stop small)

scan_long-true :
    (longs c : ℕ) (rest : List ℕ)
    → c ≢ b'l'
    → scan_long true (replicate longs b'l' ++ (c ∷ rest)) ≡ (true, c ∷ rest)
unfolding scan_long
scan_long-true zero c rest ne = rw (ne→== c b'l' ne) refl
scan_long-true (suc longs) c rest ne = scan_long-true longs c rest ne

scan_long-letters :
    (longs c : ℕ) (rest : List ℕ)
    → c ≢ b'l'
    → scan_long false (replicate longs b'l' ++ (c ∷ rest)) ≡ (ltb 0 longs, c ∷ rest)
unfolding scan_long
scan_long-letters zero c rest ne = rw (ne→== c b'l' ne) refl
scan_long-letters (suc longs) c rest ne =
    scan_long-true longs c rest ne
    ∙ ap (λ b. (b, c ∷ rest)) (sym (lt→ltb 0 (suc longs) (omega arith)))

scan_width-directive :
    (ds : List ℕ) (longs c : ℕ) (rest : List ℕ)
    → AllDigits ds
    → IsConversion c
    → width_of ds < 2 ^ 64
    → scan_width 0 (ds ++ (replicate longs b'l' ++ (c ∷ rest)))
      ≡ (width_of ds, replicate longs b'l' ++ (c ∷ rest))
scan_width-directive ds zero c rest all conv small =
    scan_width-digits ds 0 c rest all (conv.no_digit) small
scan_width-directive ds (suc longs) c rest all conv small =
    scan_width-digits ds 0 b'l' (replicate longs b'l' ++ (c ∷ rest)) all refl small

zero_char-ne : (c : ℕ) → is_digit c ≡ false → c ≢ b'0'
zero_char-ne c stop e = ground (arith, stop, e)

scan_pad-directive :
    (zeros : Bool) (ds : List ℕ) (longs c : ℕ) (rest : List ℕ)
    → (zeros ≡ false → get_or ds 0 0 ≢ b'0')
    → IsConversion c
    → scan_pad (directive zeros ds longs (c ∷ rest))
      ≡ (if zeros then b'0' else b' ', ds ++ (replicate longs b'l' ++ (c ∷ rest)))
unfolding scan_pad
scan_pad-directive true ds longs c rest first conv = refl
scan_pad-directive false [] zero c rest first conv =
    rw (ne→== c b'0' (zero_char-ne c (conv.no_digit))) refl
scan_pad-directive false [] (suc longs) c rest first conv = refl
scan_pad-directive false (d ∷ ds) longs c rest first conv = rw (ne→== d b'0' (first refl)) refl

scan_conversion-directive :
    (zeros : Bool) (ds : List ℕ) (longs c : ℕ) (rest : List ℕ)
    → AllDigits ds
    → (zeros ≡ false → get_or ds 0 0 ≢ b'0')
    → width_of ds < 2 ^ 64
    → IsConversion c
    → scan_conversion (directive zeros ds longs (c ∷ rest))
      ≡ some ((c, width_of ds, if zeros then b'0' else b' ', ltb 0 longs), rest)
unfolding scan_conversion take_conversion
scan_conversion-directive zeros ds longs c rest all first small conv =
    rw
      (
        scan_pad-directive zeros ds longs c rest first conv,
        scan_width-directive ds longs c rest all conv small,
        scan_long-letters longs c rest (conv.no_long),
      )
      refl

format_percent-directive :
    (next : List ℕ → List Arg → Option (Option (List ℕ))) (zeros : Bool) (ds : List ℕ) (longs c : ℕ)
    (rest : List ℕ) (args : List Arg)
    → AllDigits ds
    → IsConversion c
    → format_percent next (directive zeros ds longs (c ∷ rest)) args
      ≡ write_conversion next args (scan_conversion (directive zeros ds longs (c ∷ rest)))
unfolding format_percent
format_percent-directive next true ds longs c rest args all conv = refl
format_percent-directive next false [] zero c rest args all conv =
    rw (ne→== c b'%' (conv.no_percent)) refl
format_percent-directive next false [] (suc longs) c rest args all conv = refl
format_percent-directive next false (d ∷ ds) longs c rest args all conv =
    rw (ne→== d b'%' ((digit_lem d (all.0)).1)) refl

letters-append :
    (ds : List ℕ) (longs : ℕ) (xs ys : List ℕ)
    → (ds ++ (replicate longs b'l' ++ xs)) ++ ys ≡ ds ++ (replicate longs b'l' ++ (xs ++ ys))
letters-append ds longs xs ys =
    append_assoc ds (replicate longs b'l' ++ xs) ys
    ∙ ap (λ zs. ds ++ zs) (append_assoc (replicate longs b'l') xs ys)

directive-append :
    (zeros : Bool) (ds : List ℕ) (longs : ℕ) (xs ys : List ℕ)
    → directive zeros ds longs xs ++ ys ≡ directive zeros ds longs (xs ++ ys)
directive-append true ds longs xs ys = ap (λ zs. b'0' ∷ zs) (letters-append ds longs xs ys)
directive-append false ds longs xs ys = letters-append ds longs xs ys

length-letters :
    (ds : List ℕ) (longs : ℕ) (xs : List ℕ)
    → length xs ≤ length (ds ++ (replicate longs b'l' ++ xs))
length-letters ds longs xs =
    omega (
      arith,
      length-append ds (replicate longs b'l' ++ xs),
      length-append (replicate longs b'l') xs,
    )

length-directive :
    (zeros : Bool) (ds : List ℕ) (longs : ℕ) (xs : List ℕ)
    → length xs ≤ length (directive zeros ds longs xs)
length-directive true ds longs xs = omega (arith, length-letters ds longs xs)
length-directive false ds longs xs = length-letters ds longs xs

-- A conversion of `vsprintf`, in the middle of a format.
format-directive :
    (fuel : ℕ) (zeros : Bool) (ds : List ℕ) (longs c : ℕ) (rest piece out : List ℕ)
    (args args' : List Arg)
    → AllDigits ds
    → (zeros ≡ false → get_or ds 0 0 ≢ b'0')
    → width_of ds < 2 ^ 64
    → IsConversion c
    → convert c (width_of ds) (if zeros then b'0' else b' ') (ltb 0 longs) args
      ≡ some (piece, args')
    → format fuel rest args' ≡ some (some out)
    → format (suc fuel) (b'%' ∷ directive zeros ds longs (c ∷ rest)) args
      ≡ some (some (piece ++ out))
unfolding format write_conversion emit_converted emit
format-directive fuel zeros ds longs c rest piece out args args' all first small conv done ih =
    format_percent-directive (format fuel) zeros ds longs c rest args all conv
    ∙ rw (scan_conversion-directive zeros ds longs c rest all first small conv, done, ih) refl

-- A format is described piece by piece: plain bytes, `%%`, and complete conversions, each with what
-- `convert` writes for its character, length, padding and letters `l`, and the arguments that leaves.
-- For every such description that overruns no buffer, the loop of `vsprintf` ends on a memory that
-- holds the format, its terminator and anything behind it, given more fuel than the format has bytes,
-- and writes the described text.
pub format-Writes :
    (fmt out behind : List ℕ) (args : List Arg) (fuel : ℕ)
    → Writes fmt args out
    → length fmt < fuel
    → format fuel (fmt ++ (0 ∷ behind)) args ≡ some (some out)
unfolding format format_percent emit
format-Writes _ _ behind args zero w enough = absurd (omega (arith, enough))
format-Writes _ _ behind args (suc fuel) (nothing _) enough = refl
format-Writes _ _ behind args (suc fuel) (plain c fmt out _ mid ne w) enough =
    rw
      (
        ne→== c 0 mid,
        ne→== c b'%' ne,
        format-Writes fmt out behind args fuel w (omega (arith, enough)),
      )
      refl
format-Writes _ _ behind args (suc fuel) (percent fmt out _ w) enough =
    rw (format-Writes fmt out behind args fuel w (omega (arith, enough))) refl
format-Writes _ _ behind args (suc fuel)
      (conversion zeros ds longs c fmt piece out _ rest all first small conv done w) enough =
    let long = length-directive zeros ds longs (c ∷ fmt) in
    let ih = format-Writes fmt out behind rest fuel w (omega (arith, enough, long)) in
    ap (λ bytes. format (suc fuel) (b'%' ∷ bytes) args)
      (directive-append zeros ds longs (c ∷ fmt) (0 ∷ behind))
    ∙ format-directive fuel zeros ds longs c (fmt ++ (0 ∷ behind)) piece out args rest all first
        small conv done ih
