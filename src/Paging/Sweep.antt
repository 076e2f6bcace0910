-- ===== src/Paging/Sweep.antt =====
-- A loop of `deallocatePageTable` in kernel/paging.c over the entries of a directory.
use mathlib.Core.Path.{subst}
use r5o.Base.{
  ℕ, zero, suc, ◌+◌, ◌≤◌, ◌<◌, ◌≡◌, ◌≢◌, refl, sym, ap, ◌∙◌, true, false, List, [], ◌∷◌, ◌++◌,
  arith, ◌==◌, Bool-cases, inl, inr, All, update, length, length-append, ok, pure, Cmd,
}
use r5o.PageAlloc.{Alloc, num_pages, free_page}
use r5o.PageAlloc.Stack.{Holds, free_page-cons}
use r5o.Paging.{Vm, num_pte, entry_at, is_valid, get_page_num, dir_of, sweep}
use r5o.Paging.Directory.{zero_invalid, update-here, update-elsewhere}
use r5o.Paging.Held.{
  Walk, pushed_on, pages_below, dirs_below, all_pages, all_dirs, nothing, Apart, AllApart, Outside,
  Same, Local, All-append, All-map, All-zip, AllApart-append, Apart-Outside, below-Local,
  pages_below_valid, pages_below_invalid, dirs_below_valid, dirs_below_invalid,
}

pub length-pushed_on : (ps free : List ℕ) → length (pushed_on ps free) ≡ length ps + length free
length-pushed_on [] free = omega arith
length-pushed_on (p ∷ ps) free = omega (arith, length-pushed_on ps (p ∷ free))

pushed_on-append :
    (ps qs free : List ℕ) → pushed_on (ps ++ qs) free ≡ pushed_on qs (pushed_on ps free)
pushed_on-append [] qs free = refl
pushed_on-append (p ∷ ps) qs free = pushed_on-append ps qs (p ∷ free)

-- A loop over `k` entries from `i` on ends, has given the pages back in order, leaves these entries
-- invalid, and writes to nothing but these entries and the directories below them.
pub record Swept (dir k i : ℕ) (pages dirs free : List ℕ) (s s' : Vm) : Type 0 where
  pub holds : Holds s'.alloc (pushed_on pages free)
  pub invalid : (j : ℕ) → i ≤ j → j < i + k → is_valid (s'.mem (entry_at dir j)) ≡ false
  pub elsewhere :
      (a : ℕ)
      → ((j : ℕ) → i ≤ j → j < i + k → a ≢ entry_at dir j)
      → All (Outside a) dirs
      → s'.mem a ≡ s.mem a

-- What the code does with the directory that an entry names.
abbrev pub Frees : (ℕ → Cmd Vm (Unit {0})) → Walk → Walk → Type 0
Frees inner pages dirs =
    (dir : ℕ) (s : Vm) (free : List ℕ)
    → Holds s.alloc free
    → length (pages s.mem dir) + length free ≤ num_pages
    → AllApart (dirs s.mem dir)
    → (s' : Vm) × (inner dir s ≡ ok tt s')
      × Holds s'.alloc (pushed_on (pages s.mem dir) free)
      × ((a : ℕ) → All (Outside a) (dirs s.mem dir) → s'.mem a ≡ s.mem a)

module _ {inner : ℕ → Cmd Vm (Unit {0})} {pages dirs : Walk} (frees : Frees inner pages dirs)
    (loc : Local pages dirs) where
  sweep_round :
      (dir k i : ℕ) (s s1 : Vm) (t : Alloc)
      → is_valid (s.mem (entry_at dir i)) ≡ true
      → inner (dir_of (s.mem (entry_at dir i))) s ≡ ok tt s1
      → free_page (get_page_num (s1.mem (entry_at dir i))) s1.alloc ≡ ok tt t
      → sweep inner dir (suc k) i s
        ≡ sweep inner dir k (i + 1) (record { alloc = t; mem = update s1.mem (entry_at dir i) 0 })
  unfolding sweep
  sweep_round dir k i s s1 t valid e f = rw (valid, e, f) refl

  sweep_skip :
      (dir k i : ℕ) (s : Vm)
      → is_valid (s.mem (entry_at dir i)) ≡ false
      → sweep inner dir (suc k) i s ≡ sweep inner dir k (i + 1) s
  unfolding sweep
  sweep_skip dir k i s invalid = rw invalid refl

  -- What the loop needs of the state.
  pub record Ready (dir k i : ℕ) (free : List ℕ) (s : Vm) : Type 0 where
    pub inside : i + k ≤ num_pte
    pub holds : Holds s.alloc free
    pub room : length (pages_below pages s.mem dir k i) + length free ≤ num_pages
    pub own : All (Apart dir) (dirs_below dirs s.mem dir k i)
    pub apart : AllApart (dirs_below dirs s.mem dir k i)

  abbrev pub Result : (dir k i : ℕ) → List ℕ → Vm → Type 0
  Result dir k i free s =
      (s' : Vm) × (sweep inner dir k i s ≡ ok tt s')
      × Swept dir k i (pages_below pages s.mem dir k i) (dirs_below dirs s.mem dir k i) free s s'

  -- One entry, where the loop is known to do the rest.
  module _ (dir k i : ℕ) (s : Vm) (free : List ℕ)
      (rest : (s : Vm) (free : List ℕ) → Ready dir k (i + 1) free s → Result dir k (i + 1) free s)
      (r : Ready dir (suc k) i free s) where
    skipped : is_valid (s.mem (entry_at dir i)) ≡ false → Result dir (suc k) i free s
    skipped bad =
        let p = pages_below_invalid pages s.mem dir k i bad in
        let d = dirs_below_invalid dirs s.mem dir k i bad in
        let (s', e, w) = rest s free (record {
          inside = omega (arith, r.inside);
          holds = r.holds;
          room = subst (λ l. length l + length free ≤ num_pages) p r.room;
          own = subst (All (Apart dir)) d r.own;
          apart = subst AllApart d r.apart;
        }) in
        (
          s',
          sweep_skip dir k i s bad ∙ e,
          record {
            holds = subst (λ l. Holds s'.alloc (pushed_on l free)) (sym p) w.holds;
            invalid = λ j le lt. elim (Bool-cases (i == j)) [
              | inl here ↦
                  let at : j ≡ i = ground arith in
                  rw at (
                    ap is_valid (
                      w.elsewhere (entry_at dir i) (λ m le' lt'. omega arith)
                        (Apart-Outside dir i _ (omega (arith, r.inside))
                          (subst (All (Apart dir)) d r.own)))
                    ∙ bad)
              | inr other ↦ w.invalid j (ground arith) (omega arith)
            ];
            elsewhere = λ a out below.
                w.elsewhere a (λ j le lt. out j (omega arith) (omega arith))
                  (subst (All (Outside a)) d below);
          },
        )

    sub : ℕ
    sub = dir_of (s.mem (entry_at dir i))

    -- Clearing the entry, once what is below it is given back, leaves the directories of the later
    -- entries as they were.
    later-Same :
        (mem : ℕ → ℕ)
        → All (Apart dir) (dirs_below dirs s.mem dir k (i + 1))
        → All (λ e. All (Apart e) (dirs s.mem sub)) (dirs_below dirs s.mem dir k (i + 1))
        → i < num_pte
        → ((a : ℕ) → All (Outside a) (dirs s.mem sub) → mem a ≡ s.mem a)
        → All (Same s.mem (update mem (entry_at dir i) 0)) (dirs_below dirs s.mem dir k (i + 1))
    later-Same mem own between lt same =
        All-map (dirs_below dirs s.mem dir k (i + 1))
          (λ e apart j small.
            update-elsewhere mem (entry_at dir i) 0 (entry_at e j)
              (elim apart.0 [ inl l ↦ omega arith | inr l ↦ omega arith ])
            ∙ same (entry_at e j) (Apart-Outside e j (dirs s.mem sub) small apart.1))
          (All-zip (Apart dir) (λ e. All (Apart e) (dirs s.mem sub))
            (dirs_below dirs s.mem dir k (i + 1)) own between)

    -- The pages below the entry, its own page and the later ones are pushed in this order.
    in_order :
        is_valid (s.mem (entry_at dir i)) ≡ true
        → (v : ℕ) → v ≡ s.mem (entry_at dir i)
        → pushed_on
            (pages_below pages s.mem dir k (i + 1))
            (get_page_num v ∷ pushed_on (pages s.mem sub) free)
          ≡ pushed_on (pages_below pages s.mem dir (suc k) i) free
    unfolding sub
    in_order good v here =
        let ps = pages_below pages s.mem dir k (i + 1) in
        ap (λ v. pushed_on ps (get_page_num v ∷ pushed_on (pages s.mem sub) free)) here
        ∙ sym (pushed_on-append (pages s.mem sub) (get_page_num (s.mem (entry_at dir i)) ∷ ps) free)
        ∙ ap (λ l. pushed_on l free) (sym (pages_below_valid pages s.mem dir k i good))

    freed : is_valid (s.mem (entry_at dir i)) ≡ true → Result dir (suc k) i free s
    unfolding sub
    freed good =
        let n = get_page_num (s.mem (entry_at dir i)) in
        let ps = pages_below pages s.mem dir k (i + 1) in
        let ds = dirs_below dirs s.mem dir k (i + 1) in
        let p = pages_below_valid pages s.mem dir k i good in
        let d = dirs_below_valid dirs s.mem dir k i good in
        let count : length (pages s.mem sub) + suc (length ps) + length free ≤ num_pages =
          omega (arith, ap length p, length-append (pages s.mem sub) (n ∷ ps), r.room) in
        let (own_sub, own) =
          All-append (Apart dir) (dirs s.mem sub) ds (subst (All (Apart dir)) d r.own) in
        let (in_sub, in_rest, between) =
          AllApart-append (dirs s.mem sub) ds (subst AllApart d r.apart) in
        let (s1, e1, h1, same1) = frees sub s free r.holds (omega (arith, count)) in_sub in
        let kept : (j : ℕ) → j < num_pte → s1.mem (entry_at dir j) ≡ s.mem (entry_at dir j) =
          λ j lt. same1 (entry_at dir j) (Apart-Outside dir j (dirs s.mem sub) lt own_sub) in
        let here = kept i (omega (arith, r.inside)) in
        let given = pushed_on (pages s.mem sub) free in
        let (t, f, h2) =
          free_page-cons (get_page_num (s1.mem (entry_at dir i))) given h1
            (omega (arith, count, length-pushed_on (pages s.mem sub) free)) in
        let s2 : Vm = record { alloc = t; mem = update s1.mem (entry_at dir i) 0 } in
        let lt : i < num_pte = omega (arith, r.inside) in
        let same = later-Same s1.mem own between lt same1 in
        let (ps_same, ds_same) =
          below-Local loc s.mem s2.mem dir k (i + 1)
            (λ j le small.
              update-elsewhere s1.mem (entry_at dir i) 0 (entry_at dir j) (omega arith)
              ∙ kept j (omega (arith, r.inside)))
            same in
        let (s', e, w) = rest s2 (get_page_num (s1.mem (entry_at dir i)) ∷ given) (record {
          inside = omega (arith, r.inside);
          holds = h2;
          room = omega (arith, ap length ps_same, count, length-pushed_on (pages s.mem sub) free);
          own = subst (All (Apart dir)) (sym ds_same) own;
          apart = subst AllApart (sym ds_same) in_rest;
        }) in
        (
          s',
          sweep_round dir k i s s1 t good e1 f ∙ e,
          record {
            holds =
                subst (Holds s'.alloc)
                  (ap (λ l. pushed_on l (get_page_num (s1.mem (entry_at dir i)) ∷ given)) ps_same
                    ∙ in_order good (s1.mem (entry_at dir i)) here)
                  w.holds;
            invalid = λ j le small. elim (Bool-cases (i == j)) [
              | inl this ↦
                  let at : j ≡ i = ground arith in
                  rw at (
                    ap is_valid (
                      w.elsewhere (entry_at dir i) (λ m le' lt'. omega arith)
                        (Apart-Outside dir i _ lt (subst (All (Apart dir)) (sym ds_same) own))
                      ∙ update-here s1.mem (entry_at dir i) 0)
                    ∙ zero_invalid)
              | inr other ↦ w.invalid j (ground arith) (omega arith)
            ];
            elsewhere = λ a out below.
                let (out_sub, out_rest) =
                  All-append (Outside a) (dirs s.mem sub) ds (subst (All (Outside a)) d below) in
                w.elsewhere a (λ j le small. out j (omega arith) (omega arith))
                  (subst (All (Outside a)) (sym ds_same) out_rest)
                ∙ update-elsewhere s1.mem (entry_at dir i) 0 a (out i (omega arith) (omega arith))
                ∙ same1 a out_sub;
          },
        )

  pub sweep-Swept :
      (dir k i : ℕ) (s : Vm) (free : List ℕ) → Ready dir k i free s → Result dir k i free s
  unfolding sweep
  sweep-Swept dir zero i s free r = (
    s,
    refl,
    record {
      holds = r.holds;
      invalid = λ j le lt. absurd (omega arith);
      elsewhere = λ a out below. refl;
    },
  )
  sweep-Swept dir (suc k) i s free r = elim (Bool-cases (is_valid (s.mem (entry_at dir i)))) [
    | inl good ↦ freed dir k i s free (sweep-Swept dir k (i + 1)) r good
    | inr bad ↦ skipped dir k i s free (sweep-Swept dir k (i + 1)) r bad
  ]

-- Nothing is below an entry of the last level.
pub pure-Frees : Frees (λ _. pure tt) nothing nothing
pure-Frees dir s free h room apart = (s, refl, h, λ a out. refl)

pub nothing-Local : Local nothing nothing
nothing-Local mem mem' dir a = (refl, refl)

pub sweep-Frees :
    {inner : ℕ → Cmd Vm (Unit {0})} {pages dirs : Walk}
    → Frees inner pages dirs
    → Local pages dirs
    → Frees (λ dir. sweep inner dir num_pte 0) (all_pages pages) (all_dirs dirs)
sweep-Frees frees loc dir s free h room (own, apart) =
    let (s', e, w) =
      sweep-Swept frees loc dir num_pte 0 s free
        (record { inside = omega arith; holds = h; room = room; own = own; apart = apart }) in
    (s', e, w.holds, λ a out. w.elsewhere a (λ j le lt. out.0 j lt) out.1)
