-- ===== src/Print/Digits.antt =====
-- The digits that kernel/print.c prints, read back.
use r5o.Base.{
  ℕ, zero, suc, ◌+◌, ◌-◌, ◌*◌, ◌/◌, ◌%◌, ◌^◌, ◌≤◌, ◌<◌, ◌≡◌, ◌≢◌, All, refl, sym, ap, ◌∙◌, Bool,
  false, some, List, [], ◌∷◌, ◌++◌, ◌&&◌, arith, ◌==◌, ltb, if◌then◌else◌, Outcome, ok, Bool-cases,
  inl, inr, ◌⊎◌,
}
use r5o.Console.{Console, consputc}
use r5o.Print.{digit, digit_loop, put_all, printint}

-- The number that a digit stands for, and the number that digits stand for, the last digit first.
abbrev pub digit_value : ℕ → ℕ
digit_value c = if ltb c 58 then c - 48 else c - 87

abbrev pub value : ℕ → List ℕ → ℕ
value base [] = 0
value base (c ∷ cs) = digit_value c + base * value base cs

pub digit-value : (d : ℕ) → d < 16 → (digit_value (digit d) ≡ d) × (digit d < 256)
digit-value d lt = (ground arith, ground arith)

-- A character from '0' to '9' or from 'a' to 'f' that is a digit in the base.
abbrev pub IsDigit : ℕ → ℕ → Type 0
IsDigit base c = ((48 ≤ c) × (c < 58) ⊎ (97 ≤ c) × (c < 103)) × (digit_value c < base)

pub digit-IsDigit : (base d : ℕ) → d < base → base ≤ 16 → IsDigit base (digit d)
digit-IsDigit base d lt le = elim (Bool-cases (ltb d 10)) [
  | inl small ↦ (inl (ground arith, ground arith), ground arith)
  | inr large ↦ (inr (ground arith, ground arith), ground arith)
]

-- The first character, which stands at the end of the list, is there and is not '0'.
abbrev pub Leads : List ℕ → Type 0
Leads [] = ⊥
Leads (c ∷ []) = c ≢ 48
Leads (c ∷ d ∷ ds) = Leads (d ∷ ds)

pub Leads-cons : (c : ℕ) (l : List ℕ) → Leads l → Leads (c ∷ l)
Leads-cons c [] h = absurd h
Leads-cons c (d ∷ ds) h = h

-- The digits of a number in a base, without a sign and with no zeros in front; zero itself is "0".
pub record Numeral (base : ℕ) (digits : List ℕ) (n : ℕ) : Type 0 where
  pub digits_only : All (IsDigit base) digits
  pub is : value base digits ≡ n
  pub no_zeros : (digits ≡ 48 ∷ []) ⊎ Leads digits

-- Every character can be sent.
abbrev pub Plain : List ℕ → Type 0
Plain [] = Unit {0}
Plain (c ∷ cs) = (c < 256) × Plain cs

abbrev pub power : ℕ → ℕ → ℕ
power base zero = 1
power base (suc k) = base * power base k

-- A base of 16 at most, in which division splits a number.
record Base (base : ℕ) : Type 0 where
  split : (x : ℕ) → x % base + base * (x / base) ≡ x
  low : (x : ℕ) → x % base < base
  small : base ≤ 16
  none : (x : ℕ) → x ≡ 0 → x / base ≡ 0
  fewer : (x m : ℕ) → x < base * m → x / base < m

ten : Base 10
ten = record {
  split = λ x. omega arith;
  low = λ x. omega arith;
  small = omega arith;
  none = λ x e. omega arith;
  fewer = λ x m lt. omega arith;
}

sixteen : Base 16
sixteen = record {
  split = λ x. omega arith;
  low = λ x. omega arith;
  small = omega arith;
  none = λ x e. omega arith;
  fewer = λ x m lt. omega arith;
}

module _ (base : ℕ) (b : Base base) where
  -- The digits of a number that has at most `k` of them.
  digit_loop-value :
      (k x : ℕ)
      → x < power base k
      → 0 < k
      → (l : List ℕ) × (digit_loop k x base ≡ some l)
        × (value base l ≡ x)
        × Plain l
        × All (IsDigit base) l
        × (x ≡ 0 → l ≡ 48 ∷ [])
        × (0 < x → Leads l)
  unfolding digit_loop
  digit_loop-value zero x lt pos = ground arith
  digit_loop-value (suc k) x lt pos = elim (Bool-cases (x / base == 0)) [
    | inl last ↦
        let zero_left : x / base ≡ 0 = ground arith in
        let v = digit-value (x % base) (omega (arith, b.low x, b.small)) in
        let whole : x % base ≡ x =
          omega (arith, ap (λ n. x % base + base * n) (sym zero_left) ∙ b.split x) in
        (
          digit (x % base) ∷ [],
          rw last refl,
          rw v.0 (ap (λ n. x % base + base * n) (sym zero_left) ∙ b.split x),
          (v.1, tt),
          (digit-IsDigit base (x % base) (b.low x) b.small, tt),
          (λ z. ap (λ d. digit d ∷ []) (whole ∙ z)),
          (λ pos. (let d : 0 < x % base = omega (arith, whole) in λ e. ground arith)),
        )
    | inr more ↦
        let v = digit-value (x % base) (omega (arith, b.low x, b.small)) in
        let left = b.fewer x (power base k) lt in
        let more_rounds : 0 < k =
          elim k as (λ k. x / base < power base k → 0 < k) [
            | zero ↦ λ h. ground arith
            | suc n ↦ λ h. omega arith
          ]
            left in
        let (l, e, f, p, all, zero_case, leads) = digit_loop-value k (x / base) left more_rounds in
        (
          digit (x % base) ∷ l,
          rw (more, e) refl,
          rw (v.0, f) (b.split x),
          (v.1, p),
          (digit-IsDigit base (x % base) (b.low x) b.small, all),
          (λ z. absurd (ground (arith, b.none x z))),
          (λ pos. Leads-cons (digit (x % base)) l (leads (ground arith))),
        )
  ]

-- Sending characters.
put_all-sent :
    (s : Console) (l : List ℕ)
    → s.error_occurred ≡ false
    → Plain l
    → put_all l s ≡ ok tt (record s { sent = l ++ s.sent })
unfolding put_all consputc
put_all-sent s [] alive p = refl
put_all-sent s (c ∷ cs) alive p =
    let plain : (c == 256) ≡ false = ground (arith, p.0) in
    rw (put_all-sent s cs alive p.1, alive, plain) refl

-- The command returns, having sent the digits of `n`, the last one first, after `before`.
pub record Sends (s : Console) (o : Outcome Console (Unit {0})) (base n : ℕ) (before : List ℕ)
    : Type 0 where
  pub digits : List ℕ
  pub runs : o ≡ ok tt (record s { sent = digits ++ (before ++ s.sent) })
  pub reads : Numeral base digits n

print-Base :
    (s : Console) (xx base : ℕ) (sign : Bool)
    → Base base
    → s.error_occurred ≡ false
    → 2 ^ 32 ≤ power base 16
    → Sends s (printint xx base sign s) base (xx % 2 ^ 32) []
unfolding printint
print-Base s xx base sign b alive wide =
    let no_sign : (sign && ltb xx 0) ≡ false = ground arith in
    let (l, e, f, p, all, zero_case, leads) =
      digit_loop-value base b 16 (xx % 2 ^ 32) (omega arith) (omega arith) in
    record {
      digits = l;
      runs = rw (no_sign, e) (put_all-sent s l alive p);
      reads = record {
        digits_only = all;
        is = f;
        no_zeros = elim (Bool-cases (xx % 2 ^ 32 == 0)) [
          | inl none ↦ inl (zero_case (ground arith))
          | inr some_digit ↦ inr (leads (ground arith))
        ];
      };
    }

-- `printint` sends the digits of the low 32 bits of its argument.
pub printint-Sends :
    (s : Console) (xx base : ℕ) (sign : Bool)
    → (base ≡ 10) ⊎ (base ≡ 16)
    → s.error_occurred ≡ false
    → Sends s (printint xx base sign s) base (xx % 2 ^ 32) []
printint-Sends s xx base sign (inl e) alive = rw e (print-Base s xx 10 sign ten alive (omega arith))
printint-Sends s xx base sign (inr e) alive =
    rw e (print-Base s xx 16 sign sixteen alive (omega arith))
