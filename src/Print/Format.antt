-- ===== src/Print/Format.antt =====
-- What a format of `printf` in kernel/print.c asks for, and texts that show it.
use mathlib.Core.Path.{subst}
use mathlib.Core.List.{append_assoc, append-nil}
use r5o.Base.{
  ℕ, ◌%◌, ◌^◌, ◌<◌, ◌≡◌, refl, sym, ap, ◌∙◌, Bool, true, false, Option, none, some, List, [], ◌∷◌,
  ◌++◌, ◌==◌, if◌then◌else◌, Outcome, ok, fault, and_then, Cmd, All, length,
}
use r5o.Console.{Console}
use r5o.Print.{Arg, int_arg, long_arg, string_arg, put_string, null_text}
use r5o.Print.Pointer.{said, consputc-said}
use r5o.Print.Digits.{Plain, value, Numeral, IsDigit}

-- What a format asks for: characters, and numbers in a base.
pub data Piece : Type 0 where
  char : ℕ → Piece
  number : (base n : ℕ) → Piece
  pointer : ℕ → Piece

abbrev pub chars : List ℕ → List Piece → List Piece
chars [] ps = ps
chars (c ∷ cs) ps = char c ∷ chars cs ps

abbrev pub onto : Option (List Piece) → (List Piece → List Piece) → Option (List Piece)
onto none f = none
onto (some ps) f = some (f ps)

-- The characters of a text, the last one first, that show the pieces.
abbrev pub Shows : List Piece → List ℕ → Type 0
Shows [] t = t ≡ []
Shows (char c ∷ ps) t = (t' : List ℕ) × (t ≡ t' ++ (c ∷ [])) × Shows ps t'
Shows (number base n ∷ ps) t =
    (t' : List ℕ) × (digits : List ℕ) × (t ≡ t' ++ digits) × Numeral base digits n × Shows ps t'
Shows (pointer n ∷ ps) t =
    (t' : List ℕ) × (digits : List ℕ) × (t ≡ t' ++ (digits ++ (120 ∷ 48 ∷ [])))
    × (value 16 digits ≡ n)
    × (length digits ≡ 16)
    × All (IsDigit 16) digits
    × Shows ps t'

abbrev pub int_piece :
    (ℕ → Piece) → List Arg → (List Arg → Option (List Piece)) → Option (List Piece)
int_piece f (int_arg n ∷ args) k = onto (k args) (λ ps. f (n % 2 ^ 32) ∷ ps)
int_piece f args k = none

abbrev pub long_piece :
    (ℕ → Piece) → List Arg → (List Arg → Option (List Piece)) → Option (List Piece)
long_piece f (long_arg n ∷ args) k = onto (k args) (λ ps. f n ∷ ps)
long_piece f args k = none

abbrev pub string_piece : List Arg → (List Arg → Option (List Piece)) → Option (List Piece)
string_piece (string_arg none ∷ args) k = onto (k args) (chars null_text)
string_piece (string_arg (some l) ∷ args) k = onto (k args) (chars l)
string_piece args k = none

-- What a conversion character asks for; `k` is what the rest of the format asks for.
abbrev pub asked : ℕ → List Arg → (List Arg → Option (List Piece)) → Option (List Piece)
asked c args k =
    if c == 100
    then int_piece (number 10) args k
    else if c == 120
    then int_piece (number 16) args k
    else if c == 112
    then long_piece pointer args k
    else if c == 108
    then long_piece (λ n. number 10 (n % 2 ^ 32)) args k
    else if c == 115
    then string_piece args k
    else if c == 37
    then onto (k args) (λ ps. char 37 ∷ ps)
    else onto (k args) (λ ps. char 37 ∷ char c ∷ ps)

-- The pieces of a format; there are none where an argument is missing or has another type.
unfoldable pub pieces_of : (escaped : Bool) → List ℕ → List Arg → Option (List Piece)
pieces_of escaped [] args = some []
pieces_of true (c ∷ cs) args = asked c args (λ rest. pieces_of false cs rest)
pieces_of false (c ∷ cs) args =
    let after = pieces_of true cs args in
    let next = onto (pieces_of false cs args) (λ ps. char c ∷ ps) in if c == 37 then after else next

-- The command shows the pieces; where there are none, its argument is undefined.
abbrev pub Result : Console → Outcome Console (Unit {0}) → Option (List Piece) → Type 0
Result s o none = o ≡ fault
Result s o (some ps) = (t : List ℕ) × (o ≡ ok tt (said s t)) × Shows ps t

-- The arguments are of their size, and a string is one of bytes.
abbrev pub InSize : Arg → Type 0
InSize (int_arg n) = n < 2 ^ 32
InSize (long_arg n) = n < 2 ^ 64
InSize (string_arg none) = Unit
InSize (string_arg (some l)) = Plain l

-- A command that sends `x`, and then one that shows pieces.
pub and_then-Result :
    {A : Type 0} {o : Outcome Console A} {a : A} (k : A → Cmd Console (Unit {0})) (s : Console)
    (x : List ℕ) (r : Option (List Piece)) (f : List Piece → List Piece)
    → o ≡ ok a (said s x)
    → Result (said s x) (k a (said s x)) r
    → ((ps : List Piece) (t : List ℕ) → Shows ps t → Shows (f ps) (t ++ x))
    → Result s (and_then o k) (onto r f)
and_then-Result k s x none f e h shows = rw e h
and_then-Result k s x (some ps) f e (t, e', sh) shows = (
  t ++ x,
  rw e (e' ∙ ap (λ l. ok tt (record s { sent = l })) (sym (append_assoc t x s.sent))),
  shows ps t sh,
)

-- `put_string` sends the text.
abbrev pub backwards : List ℕ → List ℕ
backwards [] = []
backwards (c ∷ cs) = backwards cs ++ (c ∷ [])

pub put_string-said :
    (l : List ℕ) (s : Console)
    → s.error_occurred ≡ false
    → Plain l
    → put_string l s ≡ ok tt (said s (backwards l))
unfolding put_string
put_string-said [] s alive p = refl
put_string-said (c ∷ cs) s alive p = rw (consputc-said s c alive p.0) (
    put_string-said cs (said s (c ∷ [])) alive p.1
    ∙ ap (λ l. ok tt (record s { sent = l })) (sym (append_assoc (backwards cs) (c ∷ []) s.sent)))

pub chars-Shows :
    (l : List ℕ) (ps : List Piece) (t : List ℕ) → Shows ps t → Shows (chars l ps) (t ++ backwards l)
chars-Shows [] ps t sh = subst (Shows ps) (sym (append-nil t)) sh
chars-Shows (c ∷ cs) ps t sh =
    (t ++ backwards cs, sym (append_assoc t (backwards cs) (c ∷ [])), chars-Shows cs ps t sh)
