-- ===== src/Print/Printf.antt =====
-- What `printf` of kernel/print.c sends.

use mathlib.Core.Path.{subst}
use mathlib.Core.List.{append_assoc}
use r5o.Base.{
  ℕ, ◌%◌, ◌^◌, ◌<◌, ◌≡◌, refl, sym, Bool, true, false, Option, none, some, List, [], ◌∷◌, ◌++◌,
  arith, ◌==◌, if◌then◌else◌, ok, halt, and_then, Cmd, ◌>>◌, pure, Bool-cases, inl, inr, All, ◌⊎◌,
}
use r5o.Console.{Console, consputc}
use r5o.Print.{
  Arg, int_arg, long_arg, string_arg, to_uint64, printint, printptr, put_string, null_text,
  take_int, take_long, take_string, convert, printf_loop, printf,
}
use r5o.Print.Pointer.{said, consputc-said, printptr-said}
use r5o.Print.Digits.{Plain, Numeral, printint-Sends}
use r5o.Print.Format.{
  Piece, char, number, pointer, chars, onto, Shows, int_piece, long_piece, string_piece, asked,
  pieces_of, Result, InSize, and_then-Result, backwards, put_string-said, chars-Shows,
}

-- What follows a conversion, in any state that sends characters.
abbrev Follows : (List Arg → Cmd Console (Unit {0})) → (List Arg → Option (List Piece)) → Type 0
Follows k r =
    (args : List Arg) (s : Console)
    → s.error_occurred ≡ false
    → All InSize args
    → Result s (k args s) (r args)

-- A conversion that sends `x` for its piece.
converted :
    (m : Cmd Console (Unit {0})) (k : List Arg → Cmd Console (Unit {0}))
    (r : List Arg → Option (List Piece)) (f : List Piece → List Piece) (args : List Arg)
    (s : Console) (x : List ℕ)
    → m s ≡ ok tt (said s x)
    → s.error_occurred ≡ false
    → All InSize args
    → Follows k r
    → ((ps : List Piece) (t : List ℕ) → Shows ps t → Shows (f ps) (t ++ x))
    → Result s (and_then ((m >> pure args) s) k) (onto (r args) f)
converted m k r f args s x e alive sized rest shows =
    and_then-Result k s x (r args) f (rw e refl) (rest args (said s x) alive sized) shows

null-Plain : Plain null_text
null-Plain =
    (omega arith, (omega arith, (omega arith, (omega arith, (omega arith, (omega arith, tt))))))

module _ (k : List Arg → Cmd Console (Unit {0})) (r : List Arg → Option (List Piece))
    (rest : Follows k r) where
  int_case :
      (base : ℕ) (args : List Arg) (s : Console)
      → (base ≡ 10) ⊎ (base ≡ 16)
      → s.error_occurred ≡ false
      → All InSize args
      → Result s
          (and_then (take_int (λ n. printint (to_uint64 n) base true) args s) k)
          (int_piece (number base) args r)
  int_case base [] s b alive sized = refl
  int_case base (int_arg n ∷ args) s b alive (lt, sized) =
      let p = printint-Sends s (to_uint64 n) base true b alive in
      let low : to_uint64 n % 2 ^ 32 ≡ n % 2 ^ 32 = ground arith in
      converted (printint (to_uint64 n) base true) k r (λ ps. number base (n % 2 ^ 32) ∷ ps) args s
        p.digits p.runs alive sized rest
        (λ ps t sh. (t, p.digits, refl, subst (Numeral base p.digits) low p.reads, sh))
  int_case base (long_arg n ∷ args) s b alive sized = refl
  int_case base (string_arg l ∷ args) s b alive sized = refl

  long_case :
      (args : List Arg) (s : Console)
      → s.error_occurred ≡ false
      → All InSize args
      → Result s
          (and_then (take_long (λ n. printint n 10 true) args s) k)
          (long_piece (λ n. number 10 (n % 2 ^ 32)) args r)
  long_case [] s alive sized = refl
  long_case (long_arg n ∷ args) s alive (lt, sized) =
      let p = printint-Sends s n 10 true (inl refl) alive in
      converted (printint n 10 true) k r (λ ps. number 10 (n % 2 ^ 32) ∷ ps) args s p.digits p.runs
        alive sized rest (λ ps t sh. (t, p.digits, refl, p.reads, sh))
  long_case (int_arg n ∷ args) s alive sized = refl
  long_case (string_arg l ∷ args) s alive sized = refl

  pointer_case :
      (args : List Arg) (s : Console)
      → s.error_occurred ≡ false
      → All InSize args
      → Result s (and_then (take_long printptr args s) k) (long_piece pointer args r)
  pointer_case [] s alive sized = refl
  pointer_case (long_arg n ∷ args) s alive (lt, sized) =
      let (digits, e, v, len, all) = printptr-said n s alive lt in
      converted (printptr n) k r (λ ps. pointer n ∷ ps) args s (digits ++ (120 ∷ 48 ∷ [])) e alive
        sized rest (λ ps t sh. (t, digits, refl, v, len, all, sh))
  pointer_case (int_arg n ∷ args) s alive sized = refl
  pointer_case (string_arg l ∷ args) s alive sized = refl

  string_case :
      (args : List Arg) (s : Console)
      → s.error_occurred ≡ false
      → All InSize args
      → Result s (and_then (take_string args s) k) (string_piece args r)
  string_case [] s alive sized = refl
  string_case (string_arg none ∷ args) s alive (u, sized) =
      converted (put_string null_text) k r (chars null_text) args s (backwards null_text)
        (put_string-said null_text s alive null-Plain) alive sized rest (chars-Shows null_text)
  string_case (string_arg (some l) ∷ args) s alive (plain, sized) =
      converted (put_string l) k r (chars l) args s (backwards l) (put_string-said l s alive plain)
        alive sized rest (chars-Shows l)
  string_case (int_arg n ∷ args) s alive sized = refl
  string_case (long_arg n ∷ args) s alive sized = refl

  -- The string, and the characters themselves.
  plain_case :
      (c : ℕ) (args : List Arg) (s : Console)
      → c < 256
      → s.error_occurred ≡ false
      → All InSize args
      → Result s
          (and_then
            ((if c == 115
                then take_string args
                else if c == 37
                then consputc 37 >> pure args
                else (consputc 37 >> consputc c) >> pure args)
              s)
            k)
          (if c == 115
            then string_piece args r
            else if c == 37
            then onto (r args) (λ ps. char 37 ∷ ps)
            else onto (r args) (λ ps. char 37 ∷ char c ∷ ps))
  plain_case c args s lt alive sized = elim (Bool-cases (c == 115)) [
    | inl str ↦ rw str (string_case args s alive sized)
    | inr other ↦ rw other (elim (Bool-cases (c == 37)) [
      | inl percent ↦ rw percent (
          converted (consputc 37) k r (λ ps. char 37 ∷ ps) args s (37 ∷ [])
            (consputc-said s 37 alive (omega arith)) alive sized rest (λ ps t sh. (t, refl, sh)))
      | inr unknown ↦ rw unknown (
          converted (consputc 37 >> consputc c) k r (λ ps. char 37 ∷ char c ∷ ps) args s
            (c ∷ 37 ∷ [])
            (rw (consputc-said s 37 alive (omega arith))
              (consputc-said (said s (37 ∷ [])) c alive lt))
            alive sized rest
            (λ ps t sh. (t ++ (c ∷ []), sym (append_assoc t (c ∷ []) (37 ∷ [])), (t, refl, sh))))
    ])
  ]

  convert-Result :
      (c : ℕ) (args : List Arg) (s : Console)
      → c < 256
      → s.error_occurred ≡ false
      → All InSize args
      → Result s (and_then (convert c args s) k) (asked c args r)
  unfolding convert
  convert-Result c args s lt alive sized = elim (Bool-cases (c == 100)) [
    | inl d ↦ rw d (int_case 10 args s (inl refl) alive sized)
    | inr e1 ↦ rw e1 (elim (Bool-cases (c == 120)) [
      | inl x ↦ rw x (int_case 16 args s (inr refl) alive sized)
      | inr e2 ↦ rw e2 (elim (Bool-cases (c == 112)) [
        | inl p ↦ rw p (pointer_case args s alive sized)
        | inr e3 ↦ rw e3 (elim (Bool-cases (c == 108)) [
          | inl l ↦ rw l (long_case args s alive sized)
          | inr e4 ↦ rw e4 (plain_case c args s lt alive sized)
        ])
      ])
    ])
  ]

printf_loop-Result :
    (escaped : Bool) (fmt : List ℕ)
    → Plain fmt
    → Follows (printf_loop escaped fmt) (pieces_of escaped fmt)
unfolding printf_loop pieces_of
printf_loop-Result escaped [] p args s alive sized = ([], refl, refl)
printf_loop-Result true (c ∷ cs) (lt, p) args s alive sized =
    convert-Result (printf_loop false cs) (pieces_of false cs) (printf_loop-Result false cs p) c
      args s lt alive sized
printf_loop-Result false (c ∷ cs) (lt, p) args s alive sized = elim (Bool-cases (c == 37)) [
  | inl percent ↦ rw percent (printf_loop-Result true cs p args s alive sized)
  | inr plain ↦ rw plain (
      and_then-Result (λ _. printf_loop false cs args) s (c ∷ []) (pieces_of false cs args)
        (λ ps. char c ∷ ps) (consputc-said s c alive lt)
        (printf_loop-Result false cs p args (said s (c ∷ [])) alive sized)
        (λ ps t sh. (t, refl, sh)))
]

-- What `printf` does on a format that is null, or not.
abbrev pub Printed : Console → List Arg → Option (List ℕ) → Type 0
Printed s args none = printf none args s ≡ halt "null fmt"
Printed s args (some fmt) = Result s (printf (some fmt) args s) (pieces_of false fmt args)

abbrev pub PlainFormat : Option (List ℕ) → Type 0
PlainFormat none = Unit
PlainFormat (some fmt) = Plain fmt

-- `printf`, where no error has stopped the console, the format and the strings are of bytes and
-- the arguments are of their sizes, sends a text that shows the pieces of its format: the
-- characters as they are, an int and a uint64 by the low 32 bits as a number with no sign and no zeros in
-- front, a pointer by "0x" and 16 digits, a string by its bytes; it reads an argument that is not there, or of
-- another type, exactly where the format asks for one; and on a null format it stops with the
-- error "null fmt".
pub printf-Printed :
    (fmt : Option (List ℕ)) (args : List Arg) (s : Console)
    → PlainFormat fmt
    → All InSize args
    → s.error_occurred ≡ false
    → Printed s args fmt
unfolding printf
printf-Printed none args s p sized alive = refl
printf-Printed (some fmt) args s p sized alive = printf_loop-Result false fmt p args s alive sized
