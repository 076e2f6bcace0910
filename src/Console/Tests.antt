-- ===== src/Console/Tests.antt =====
-- Examples for kernel/console.c.
use r5o.Base.{◌==◌, if◌then◌else◌, refl, false, [], ◌∷◌, arith}
use r5o.Console.{Console, consoleintr}
use r5o.Console.Edit.{Text, Holds, Leaves, edited, consoleintr-Leaves}

-- "hi", being edited behind an input of one newline.
abbrev typing : Console
typing = record {
  buf = λ i. if i == 0 then 10 else if i == 1 then 104 else 105;
  r = 0;
  w = 1;
  e = 3;
  error_occurred = false;
  sent = [];
}

abbrev hi : Text
hi = record { line = 105 ∷ 104 ∷ []; input = 10 ∷ [] }

typing-Holds : Holds typing hi
typing-Holds = record {
  alive = refl;
  write = refl;
  edit = refl;
  room = omega arith;
  no_wrap = omega arith;
  behind = (refl, (refl, (refl, tt)));
  one_line = refl;
}

consoleintr-Leaves_example : Leaves (edited 21 hi) (consoleintr 21 typing)
consoleintr-Leaves_example = consoleintr-Leaves 21 hi typing-Holds (omega arith)
