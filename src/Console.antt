-- ===== src/Console.antt =====
-- kernel/console.c: output to the uart, and the line editor of the console's input.
pub mod Edit
mod Tests
use r5o.Base.{
  ℕ, zero, suc, ◌+◌, ◌-◌, ◌%◌, ◌^◌, Bool, true, false, not, List, [], ◌∷◌, ◌==◌, ltb, if◌then◌else◌,
  ◌&&◌, ◌||◌, update, ok, hung, Cmd, pure, ◌>>=◌, ◌>>◌,
}

-- INPUT_BUF
abbrev pub input_buf : ℕ
input_buf = 128

-- BACKSPACE
abbrev pub backspace : ℕ
backspace = 0x100

-- `cons`, `errorOccurred`, and the characters given to the uart, the latest first.
pub record Console : Type 0 where
  pub buf : ℕ → ℕ
  pub r : ℕ
  pub w : ℕ
  pub e : ℕ
  pub error_occurred : Bool
  pub sent : List ℕ

-- `uartputc`: the character goes to the transmit register once the uart has room.
abbrev pub uartputc : ℕ → Cmd Console (Unit {0})
uartputc c s = ok tt (record s { sent = c ∷ s.sent })

unfoldable pub consputc : ℕ → Cmd Console (Unit {0})
consputc c s =
    if s.error_occurred
    then hung
    else if c == backspace
    then ((uartputc 8 >> uartputc 32) >> uartputc 8) s
    else uartputc c s

-- The indices are uints.
abbrev pub succ32 : ℕ → ℕ
succ32 n = (n + 1) % 2 ^ 32

abbrev pub diff32 : ℕ → ℕ → ℕ
diff32 a b = (a + 2 ^ 32 - b) % 2 ^ 32

-- `cons.e--; consputc(BACKSPACE);`
unfoldable pub rub_out : Cmd Console (Unit {0})
rub_out s = consputc backspace (record s { e = diff32 s.e 1 })

-- The loop of control-u, with at most `k` rounds.
unfoldable pub kill_loop : ℕ → Cmd Console (Unit {0})
kill_loop zero s = hung
kill_loop (suc k) s =
    let rest = (rub_out >> kill_loop k) s in
    if not (s.e == s.w) && not (s.buf (diff32 s.e 1 % input_buf) == 10) then rest else ok tt s

-- `consputc(c); cons.buf[cons.e++ % INPUT_BUF] = c; if(…) cons.w = cons.e;`
unfoldable pub accept : ℕ → Cmd Console (Unit {0})
accept c = do
  consputc c
  λ s. ok tt (record s { buf = update s.buf (s.e % input_buf) c; e = succ32 s.e })
  λ s. ok tt (
      if c == 10 || (c == 4 || (s.e == (s.r + input_buf) % 2 ^ 32))
      then record s { w = s.e }
      else s)

-- Control-u is 21, control-h 8, '\x7f' 127, '\r' 13, '\n' 10 and control-d 4.
unfoldable pub consoleintr : ℕ → Cmd Console (Unit {0})
consoleintr c s =
    if c == 21
    then kill_loop (input_buf + 1) s
    else if (c == 8) || (c == 127)
    then (if not (s.e == s.w) then rub_out s else ok tt s)
    else if not (c == 0) && ltb (diff32 s.e s.r) input_buf
    then accept (if c == 13 then 10 else c) s
    else ok tt s
