-- ===== src/Print/Tests.antt =====
-- Examples for kernel/print.c.
use r5o.Base.{refl, false, some, [], ◌∷◌, arith}
use r5o.Console.{Console}
use r5o.Print.{printf, int_arg, string_arg}
use r5o.Print.Format.{Result, pieces_of}
use r5o.Print.Printf.{printf-Printed}

abbrev quiet : Console
quiet = record { buf = λ i. 0; r = 0; w = 0; e = 0; error_occurred = false; sent = [] }

-- "%d=%s", of 7 and "ok".
printf-Printed_example :
    Result quiet
      (printf
        (some (37 ∷ 100 ∷ 61 ∷ 37 ∷ 115 ∷ []))
        (int_arg 7 ∷ string_arg (some (111 ∷ 107 ∷ [])) ∷ [])
        quiet)
      (pieces_of false
        (37 ∷ 100 ∷ 61 ∷ 37 ∷ 115 ∷ [])
        (int_arg 7 ∷ string_arg (some (111 ∷ 107 ∷ [])) ∷ []))
printf-Printed_example =
    printf-Printed (some (37 ∷ 100 ∷ 61 ∷ 37 ∷ 115 ∷ []))
      (int_arg 7 ∷ string_arg (some (111 ∷ 107 ∷ [])) ∷ []) quiet
      (omega arith, (omega arith, (omega arith, (omega arith, (omega arith, tt)))))
      (omega arith, ((omega arith, (omega arith, tt)), tt)) refl
