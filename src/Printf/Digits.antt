-- ===== src/Printf/Digits.antt =====
-- The digits that the functions of kernel/lib/printf.c write, read again.
use veil_os.Base.{
  ℕ, zero, suc, ◌+◌, ◌-◌, ◌*◌, ◌/◌, ◌%◌, ◌^◌, ◌≤◌, ◌<◌, ◌≡◌, ◌≢◌, ◌⊎◌, inl, inr, sym, ap, ◌∙◌, List,
  [], ◌∷◌, length, leb, ◌==◌, if◌then◌else◌, arith, Bool-cases, ==→eq, ==→ne,
}
use native.Mathlib.Nat.{pow-suc}
use veil_os.Printf.{digit_char, digits_from}

unfoldable pub digit_value : (letter c : ℕ) → ℕ
digit_value letter c = if leb letter c then c - letter + 10 else c - b'0'

-- The number that a list of digits stands for, the highest digit first.
unfoldable pub read_digits : (letter base acc : ℕ) → List ℕ → ℕ
read_digits letter base acc [] = acc
read_digits letter base acc (c ∷ cs) =
    read_digits letter base (acc * base + digit_value letter c) cs

-- A base whose digits have characters of their own.
pub record IsBase (letter base : ℕ) : Type 0 where
  pub divided : (a : ℕ) → a / base * base + a % base ≡ a
  pub shown : (a : ℕ) → digit_value letter (digit_char letter (a % base)) ≡ a % base

pub decimal : IsBase b'A' 10
unfolding digit_value digit_char
decimal = record { divided = λ a. omega arith; shown = λ a. ground arith }

pub hexa : (letter : ℕ) → b'9' < letter → IsBase letter 16
unfolding digit_value digit_char
hexa letter above = record { divided = λ a. omega arith; shown = λ a. ground arith }

-- The number has at most that many digits.
abbrev pub Enough : (base room arg : ℕ) → Type 0
Enough base zero arg = ⊥
Enough base (suc room) arg = (arg / base ≡ 0) ⊎ Enough base room (arg / base)

pub Enough-decimal : (room arg : ℕ) → arg < 10 ^ suc room → Enough 10 (suc room) arg
Enough-decimal zero arg lt = inl (omega (arith, pow-suc 10 0, lt))
Enough-decimal (suc room) arg lt =
    inr (Enough-decimal room (arg / 10) (omega (arith, pow-suc 10 (suc room), lt)))

pub Enough-hexa : (room arg : ℕ) → arg < 16 ^ suc room → Enough 16 (suc room) arg
Enough-hexa zero arg lt = inl (omega (arith, pow-suc 16 0, lt))
Enough-hexa (suc room) arg lt =
    inr (Enough-hexa room (arg / 16) (omega (arith, pow-suc 16 (suc room), lt)))

pub read-digits_from :
    {letter base : ℕ} (b : IsBase letter base) (room arg : ℕ) (buf : List ℕ)
    → Enough base room arg
    → read_digits letter base 0 (digits_from letter base room arg buf)
      ≡ read_digits letter base arg buf
unfolding read_digits digits_from
read-digits_from b zero arg buf enough = absurd enough
read-digits_from {letter} {base} b (suc room) arg buf enough = elim (Bool-cases (arg / base == 0)) [
  | inl last ↦
      let quotient = ==→eq (arg / base) 0 last in
      rw last (
        ap (λ n. read_digits letter base n buf)
          (ap (λ q. q * base + digit_value letter (digit_char letter (arg % base))) (sym quotient)
            ∙ back))
  | inr more ↦ rw more (
      read-digits_from b room (arg / base) (digit_char letter (arg % base) ∷ buf)
        (rest enough (==→ne (arg / base) 0 more))
      ∙ ap (λ n. read_digits letter base n buf) back)
]
  where
    back : arg / base * base + digit_value letter (digit_char letter (arg % base)) ≡ arg
    back = ap (λ d. arg / base * base + d) (b.shown arg) ∙ b.divided arg

    rest : Enough base (suc room) arg → arg / base ≢ 0 → Enough base room (arg / base)
    rest (inl e) ne = absurd (ne e)
    rest (inr e) ne = e

-- No more digits than there is room for.
pub digits_from-length :
    (letter base room arg : ℕ) (buf : List ℕ)
    → length buf ≤ length (digits_from letter base room arg buf)
      × length (digits_from letter base room arg buf) ≤ room + length buf
unfolding digits_from
digits_from-length letter base zero arg buf = (omega arith, omega arith)
digits_from-length letter base (suc room) arg buf =
    let rest =
      digits_from-length letter base room (arg / base) (digit_char letter (arg % base) ∷ buf) in
    elim (Bool-cases (arg / base == 0)) [
      | inl last ↦ rw last (omega arith, omega arith)
      | inr more ↦ rw more (omega (arith, rest), omega (arith, rest))
    ]
