-- ===== src/Console/Edit.antt =====
-- The line editor of kernel/console.c against lists of characters.
use r5o.Base.{
  ℕ, zero, suc, ◌+◌, ◌-◌, ◌%◌, ◌^◌, ◌≤◌, ◌<◌, ◌≡◌, ◌≢◌, refl, true, false, not, List, [], ◌∷◌, ◌++◌,
  arith, ◌==◌, ltb, if◌then◌else◌, ◌&&◌, ◌||◌, length, length-append, has, update, Outcome, ok,
  Bool-cases, inl, inr, ==_refl,
}
use r5o.Console.{
  Console, input_buf, backspace, diff32, succ32, consputc, rub_out, kill_loop, accept, consoleintr,
}

-- The characters before index `e` of the circular buffer, the latest first.
abbrev pub Behind : (ℕ → ℕ) → ℕ → List ℕ → Type 0
Behind f e [] = Unit {0}
Behind f e (x ∷ xs) = (f ((e - 1) % input_buf) ≡ x) × Behind f (e - 1) xs

-- What the editor holds: the line being edited, and the input before it that can no longer be
-- edited, both with the latest character first.
pub record Text : Type 0 where
  pub line : List ℕ
  pub input : List ℕ

-- The console holds a text of at most 128 characters, with no newline in the line being edited.
pub record Holds (s : Console) (t : Text) : Type 0 where
  pub alive : s.error_occurred ≡ false
  pub write : s.w ≡ s.r + length t.input
  pub edit : s.e ≡ s.w + length t.line
  pub room : s.e ≤ s.r + input_buf
  pub no_wrap : s.r + input_buf < 2 ^ 32
  pub behind : Behind s.buf s.e (t.line ++ t.input)
  pub one_line : has 10 t.line ≡ false

abbrev pub drop_last : List ℕ → List ℕ
drop_last [] = []
drop_last (x ∷ xs) = xs

-- A character that is not a control character of the editor, after the carriage return is read as
-- a newline: it joins the line, and ends it if it is a newline, is control-d, or fills the buffer.
abbrev pub typed : ℕ → Text → Text
typed c t =
    if c == 10 || (c == 4 || (length t.line + length t.input + 1 == input_buf))
    then record { line = []; input = c ∷ (t.line ++ t.input) }
    else record { line = c ∷ t.line; input = t.input }

-- What the editor makes of a character: control-u kills the line, control-h and delete take its
-- last character, and anything else is typed where there is room.
unfoldable pub edited : ℕ → Text → Text
edited c t =
    if c == 21
    then record { line = []; input = t.input }
    else if (c == 8) || (c == 127)
    then record { line = drop_last t.line; input = t.input }
    else if not (c == 0) && ltb (length t.line + length t.input) input_buf
    then typed (if c == 13 then 10 else c) t
    else t

-- The command returns, holding the text.
pub data Leaves (t : Text) : Outcome Console (Unit {0}) → Type 0 where
  leaves : {s : Console} → Holds s t → Leaves t (ok tt s)

rub_out-Holds :
    {s : Console} (x : ℕ) (xs input : List ℕ)
    → Holds s (record { line = x ∷ xs; input = input })
    → (s' : Console) × (rub_out s ≡ ok tt s') × Holds s' (record { line = xs; input = input })
unfolding rub_out consputc
rub_out-Holds {s} x xs input h =
    let before : diff32 s.e 1 ≡ s.e - 1 = omega (arith, h.edit, h.room, h.no_wrap) in
    (
      record s { e = diff32 s.e 1; sent = 8 ∷ 32 ∷ 8 ∷ s.sent },
      rw h.alive refl,
      record {
        alive = h.alive;
        write = h.write;
        edit = omega (arith, h.edit);
        room = omega (arith, h.edit, h.room);
        no_wrap = h.no_wrap;
        behind = rw before h.behind.1;
        one_line = ground (arith, h.one_line);
      },
    )

kill_loop-Leaves :
    (k : ℕ) {s : Console} (line input : List ℕ)
    → Holds s (record { line = line; input = input })
    → length line < k
    → Leaves (record { line = []; input = input }) (kill_loop k s)
unfolding kill_loop
kill_loop-Leaves zero line input h lt = ground arith
kill_loop-Leaves (suc k) {s} [] input h lt =
    let same : (s.e == s.w) ≡ true = ground (arith, h.edit) in rw same (leaves h)
kill_loop-Leaves (suc k) {s} (x ∷ xs) input h lt =
    let before : diff32 s.e 1 ≡ s.e - 1 = omega (arith, h.edit, h.room, h.no_wrap) in
    let differ : (s.e == s.w) ≡ false = ground (arith, h.edit) in
    let other : (s.buf (diff32 s.e 1 % input_buf) == 10) ≡ false =
      rw before (ground (arith, h.behind.0, h.one_line)) in
    let (s', e, h') = rub_out-Holds x xs input h in
    rw (differ, other, e) (kill_loop-Leaves k {s = s'} xs input h' (omega arith))

-- Writing at the edit index leaves what is behind it, where there is room.
Behind-update :
    (f : ℕ → ℕ) (i e v : ℕ) (l : List ℕ)
    → length l ≤ e
    → e ≤ i
    → i < (e - length l) + input_buf
    → Behind f e l
    → Behind (update f (i % input_buf) v) e l
Behind-update f i e v [] le h lt b = tt
Behind-update f i e v (x ∷ xs) le h lt b =
    let ne : (e - 1) % input_buf ≢ i % input_buf = omega arith in
    (
      ground (arith, b.0),
      Behind-update f i (e - 1) v xs (omega arith) (omega arith) (omega arith) b.1,
    )

accept-Leaves :
    {s : Console} (c : ℕ) (t : Text)
    → Holds s t
    → c < 256
    → length t.line + length t.input < input_buf
    → Leaves (typed c t) (accept c s)
unfolding accept consputc
accept-Leaves {s} c t h small free =
    let plain : (c == backspace) ≡ false = ground arith in
    let next : succ32 s.e ≡ s.e + 1 = omega (arith, h.edit, h.write, h.no_wrap) in
    let bound : (s.r + input_buf) % 2 ^ 32 ≡ s.r + input_buf = omega (arith, h.no_wrap) in
    let full : (s.e + 1 == s.r + input_buf) ≡ (length t.line + length t.input + 1 == input_buf) =
      ground (arith, h.edit, h.write) in
    let kept : Behind (update s.buf (s.e % input_buf) c) s.e (t.line ++ t.input) =
      Behind-update s.buf s.e s.e c (t.line ++ t.input)
        (omega (arith, length-append t.line t.input, h.edit, h.write)) (omega arith)
        (omega (arith, length-append t.line t.input, h.edit, h.write)) h.behind in
    let put : Behind (update s.buf (s.e % input_buf) c) (s.e + 1) (c ∷ (t.line ++ t.input)) =
      let back : s.e + 1 - 1 ≡ s.e = omega arith in
      rw back (ground (arith, ==_refl (s.e % input_buf)), kept) in
    let ends = c == 10 || (c == 4 || (length t.line + length t.input + 1 == input_buf)) in
    elim (Bool-cases ends) [
      | inl ended ↦
          rw (h.alive, plain, next, bound, full, ended)
            (leaves (record {
              alive = refl;
              write = omega (arith, h.edit, h.write, length-append t.line t.input);
              edit = omega arith;
              room = omega (arith, h.edit, h.write);
              no_wrap = h.no_wrap;
              behind = put;
              one_line = refl;
            }))
      | inr going ↦
          rw (h.alive, plain, next, bound, full, going)
            (leaves (record {
              alive = refl;
              write = h.write;
              edit = omega (arith, h.edit);
              room = omega (arith, h.edit, h.write);
              no_wrap = h.no_wrap;
              behind = put;
              one_line = ground (arith, h.one_line);
            }))
    ]

-- Control-h and delete.
rub_out-Leaves :
    {s : Console} (line input : List ℕ)
    → Holds s (record { line = line; input = input })
    → Leaves
        (record { line = drop_last line; input = input })
        (if not (s.e == s.w) then rub_out s else ok tt s)
rub_out-Leaves {s} [] input h =
    let same : (s.e == s.w) ≡ true = ground (arith, h.edit) in rw same (leaves h)
rub_out-Leaves {s} (x ∷ xs) input h =
    let differ : (s.e == s.w) ≡ false = ground (arith, h.edit) in
    let (s', e, h') = rub_out-Holds x xs input h in rw (differ, e) (leaves h')

-- The handler edits the text as `edited` says: from a state that holds a text, for each character of
-- 8 bits, it returns, and control-u ends, in a state that holds the edited text. Control-p prints no
-- process list: it is typed, like any letter.
pub consoleintr-Leaves :
    {s : Console} (c : ℕ) (t : Text) → Holds s t → c < 256 → Leaves (edited c t) (consoleintr c s)
unfolding consoleintr edited
consoleintr-Leaves {s} c t h small =
    let held : diff32 s.e s.r ≡ length t.line + length t.input =
      omega (arith, h.edit, h.write, h.room, h.no_wrap) in
    elim (Bool-cases (c == 21)) [
      | inl kill ↦ rw kill (
          kill_loop-Leaves (input_buf + 1) t.line t.input h
            (omega (arith, h.edit, h.write, h.room)))
      | inr going ↦ elim (Bool-cases ((c == 8) || (c == 127))) [
        | inl rub ↦ rw (going, rub) (rub_out-Leaves t.line t.input h)
        | inr other ↦
            elim (Bool-cases (not (c == 0) && ltb (length t.line + length t.input) input_buf)) [
              | inl free ↦
                  rw (going, other, held, free)
                    (accept-Leaves (if c == 13 then 10 else c) t h (ground arith) (ground arith))
              | inr ignored ↦ rw (going, other, held, ignored) (leaves h)
            ]
      ]
    ]
