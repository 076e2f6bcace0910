-- ===== src/Print.antt =====
-- kernel/print.c: text and numbers on the console.
pub mod Digits
pub mod Format
pub mod Pointer
pub mod Printf
mod Tests
use r5o.Base.{
  ℕ, zero, suc, ◌+◌, ◌-◌, ◌*◌, ◌/◌, ◌%◌, ◌^◌, Bool, true, false, Option, none, some, List, [], ◌∷◌,
  ◌&&◌, ◌==◌, ltb, if◌then◌else◌, ok, fault, error, Cmd, pure, ◌>>=◌, ◌>>◌,
}
use r5o.Console.{Console, consputc}

-- `digits[d]`, of "0123456789abcdef".
abbrev pub digit : ℕ → ℕ
digit d = if ltb d 10 then 48 + d else 87 + d

abbrev pub put_digit : ℕ → Option (List ℕ) → Option (List ℕ)
put_digit c none = none
put_digit c (some l) = some (c ∷ l)

-- The do loop of `printint`, with room for `k` more characters in `buf`: the characters from
-- `buf[i]` on, or `none` past the end of `buf`.
unfoldable pub digit_loop : ℕ → ℕ → ℕ → Option (List ℕ)
digit_loop zero x base = none
digit_loop (suc k) x base =
    let rest = digit_loop k (x / base) base in
    put_digit (digit (x % base)) (if x / base == 0 then some [] else rest)

-- `while(--i >= 0) consputc(buf[i]);`, the end of `buf` first.
unfoldable pub put_all : List ℕ → Cmd Console (Unit {0})
put_all [] = pure tt
put_all (c ∷ cs) = put_all cs >> consputc c

abbrev pub put_sign : Bool → List ℕ → List ℕ
put_sign false l = l
put_sign true [] = 45 ∷ []
put_sign true (c ∷ cs) = c ∷ put_sign true cs

abbrev pub put_number : Bool → Option (List ℕ) → Cmd Console (Unit {0})
put_number sign none = λ _. fault
put_number sign (some l) = put_all (put_sign sign l)

-- `xx` is a uint64, and `x` a uint.
unfoldable pub printint : ℕ → ℕ → Bool → Cmd Console (Unit {0})
printint xx base sign =
    let sign = sign && ltb xx 0 in
    let x = (if sign then 2 ^ 64 - xx else xx) % 2 ^ 32 in put_number sign (digit_loop 16 x base)

-- The loop of `printptr`, with `k` rounds left.
unfoldable pub ptr_loop : ℕ → ℕ → Cmd Console (Unit {0})
ptr_loop zero x = pure tt
ptr_loop (suc k) x = consputc (digit (x / 2 ^ 60)) >> ptr_loop k (x * 2 ^ 4 % 2 ^ 64)

unfoldable pub printptr : ℕ → Cmd Console (Unit {0})
printptr x = (consputc 48 >> consputc 120) >> ptr_loop 16 x

-- The arguments that `va_arg` reads: an int, as its 32 bits, a uint64, and a string, or NULL.
pub data Arg : Type 0 where
  int_arg : ℕ → Arg
  long_arg : ℕ → Arg
  string_arg : Option (List ℕ) → Arg

-- An int as a uint64.
abbrev pub to_uint64 : ℕ → ℕ
to_uint64 n = if ltb n (2 ^ 31) then n else n + (2 ^ 64 - 2 ^ 32)

unfoldable pub put_string : List ℕ → Cmd Console (Unit {0})
put_string [] = pure tt
put_string (c ∷ cs) = consputc c >> put_string cs

-- "(null)"
abbrev pub null_text : List ℕ
null_text = 40 ∷ 110 ∷ 117 ∷ 108 ∷ 108 ∷ 41 ∷ []

-- An argument of another type than the format asks for is undefined.
abbrev pub take_int : (ℕ → Cmd Console (Unit {0})) → List Arg → Cmd Console (List Arg)
take_int f (int_arg n ∷ args) = f n >> pure args
take_int f args = λ _. fault

abbrev pub take_long : (ℕ → Cmd Console (Unit {0})) → List Arg → Cmd Console (List Arg)
take_long f (long_arg n ∷ args) = f n >> pure args
take_long f args = λ _. fault

abbrev pub take_string : List Arg → Cmd Console (List Arg)
take_string (string_arg none ∷ args) = put_string null_text >> pure args
take_string (string_arg (some l) ∷ args) = put_string l >> pure args
take_string args = λ _. fault

-- The switch of `printf`, on 'd', 'x', 'p', 'l', 's' and '%'.
unfoldable pub convert : ℕ → List Arg → Cmd Console (List Arg)
convert c args =
    if c == 100
    then take_int (λ n. printint (to_uint64 n) 10 true) args
    else if c == 120
    then take_int (λ n. printint (to_uint64 n) 16 true) args
    else if c == 112
    then take_long printptr args
    else if c == 108
    then take_long (λ n. printint n 10 true) args
    else if c == 115
    then take_string args
    else if c == 37
    then consputc 37 >> pure args
    else (consputc 37 >> consputc c) >> pure args

-- The loop of `printf`, over the format without its end; `escaped` follows a '%'.
unfoldable pub printf_loop : (escaped : Bool) → List ℕ → List Arg → Cmd Console (Unit {0})
printf_loop escaped [] args = pure tt
printf_loop true (c ∷ cs) args = convert c args >>= (λ rest. printf_loop false cs rest)
printf_loop false (c ∷ cs) args =
    let after = printf_loop true cs args in
    let next = consputc c >> printf_loop false cs args in if c == 37 then after else next

-- `none` is a null format.
unfoldable pub printf : Option (List ℕ) → List Arg → Cmd Console (Unit {0})
printf none args = error "null fmt"
printf (some fmt) args = printf_loop false fmt args
