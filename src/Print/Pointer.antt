-- ===== src/Print/Pointer.antt =====
-- The digits that `printptr` of kernel/print.c prints.
use mathlib.Core.List.{append_assoc}
use r5o.Base.{
  ℕ, zero, suc, ◌+◌, ◌*◌, ◌/◌, ◌%◌, ◌^◌, ◌<◌, ◌≡◌, refl, sym, ap, ◌∙◌, false, List, [], ◌∷◌, ◌++◌,
  All, length, length-append, arith, ◌==◌, ok,
}
use r5o.Console.{Console, consputc}
use r5o.Print.{digit, ptr_loop, printptr}
use r5o.Print.Digits.{value, digit_value, digit-value, power, IsDigit, digit-IsDigit}

abbrev pub said : Console → List ℕ → Console
said s t = record s { sent = t ++ s.sent }

pub consputc-said :
    (s : Console) (c : ℕ)
    → s.error_occurred ≡ false
    → c < 256
    → consputc c s ≡ ok tt (said s (c ∷ []))
unfolding consputc
consputc-said s c alive lt = let plain : (c == 256) ≡ false = ground arith in rw (alive, plain) refl

-- A digit in front of the others.
value-snoc :
    (t : List ℕ) (c : ℕ)
    → value 16 (t ++ (c ∷ [])) ≡ value 16 t + power 16 (length t) * digit_value c
value-snoc [] c = omega arith
value-snoc (x ∷ t) c = omega (arith, value-snoc t c)

All-snoc :
    (t : List ℕ) (c : ℕ) → All (IsDigit 16) t → IsDigit 16 c → All (IsDigit 16) (t ++ (c ∷ []))
All-snoc [] c a p = (p, tt)
All-snoc (x ∷ t) c (q, a) p = (q, All-snoc t c a p)

-- `k` digits make the upper `4 * k` bits.
ptr_loop-said :
    (k x : ℕ) (s : Console)
    → s.error_occurred ≡ false
    → x < 2 ^ 64
    → (t : List ℕ) × (left : ℕ) × (ptr_loop k x s ≡ ok tt (said s t))
      × (2 ^ 64 * value 16 t + left ≡ power 16 k * x)
      × (left < 2 ^ 64)
      × (length t ≡ k)
      × All (IsDigit 16) t
unfolding ptr_loop
ptr_loop-said zero x s alive lt = ([], x, refl, omega arith, lt, refl, tt)
ptr_loop-said (suc k) x s alive lt =
    let a = x / 2 ^ 60 in
    let c = digit a in
    let x' = x * 2 ^ 4 % 2 ^ 64 in
    let d = digit-value a (omega arith) in
    let (t, left, e, v, small, len, all) =
      ptr_loop-said k x' (said s (c ∷ [])) alive (omega arith) in
    let split : 16 * x ≡ 2 ^ 64 * a + x' = omega arith in
    let scaled = ap (λ (n : ℕ). power 16 k * n) split in
    let front =
      value-snoc t c
      ∙ ap (λ n. value 16 t + power 16 n * digit_value c) len
      ∙ ap (λ n. value 16 t + power 16 k * n) d.0 in
    (
      t ++ (c ∷ []),
      left,
      rw (consputc-said s c alive d.1)
          (e ∙ ap (λ l. ok tt (record s { sent = l })) (sym (append_assoc t (c ∷ []) s.sent))),
      omega (arith, front, scaled, v),
      small,
      omega (arith, length-append t (c ∷ []), len),
      All-snoc t c all (digit-IsDigit 16 a (omega arith) (omega arith)),
    )

-- `printptr` sends "0x", and then the 16 digits of its argument in base 16, zeros in front included.
pub printptr-said :
    (x : ℕ) (s : Console)
    → s.error_occurred ≡ false
    → x < 2 ^ 64
    → (digits : List ℕ) × (printptr x s ≡ ok tt (said s (digits ++ (120 ∷ 48 ∷ []))))
      × (value 16 digits ≡ x)
      × (length digits ≡ 16)
      × All (IsDigit 16) digits
unfolding printptr
printptr-said x s alive lt =
    let (t, left, e, v, small, len, all) = ptr_loop-said 16 x (said s (120 ∷ 48 ∷ [])) alive lt in
    (
      t,
      rw (consputc-said s 48 alive (omega arith)) (
          rw (consputc-said (said s (48 ∷ [])) 120 alive (omega arith)) (
            e
            ∙ ap (λ l. ok tt (record s { sent = l }))
                (sym (append_assoc t (120 ∷ 48 ∷ []) s.sent)))),
      omega (arith, v, small),
      len,
      all,
    )
