-- ===== src/Process/Select.antt =====
-- `selectProcessToRun` of kernel/process.c chooses round-robin.
use r5o.Base.{
  ℕ, zero, suc, ◌+◌, ◌-◌, ◌%◌, ◌≤◌, ◌<◌, ◌≡◌, refl, true, false, ◌&&◌, ltb, ◌==◌, arith,
  if◌then◌else◌, not, ==_refl, Outcome, ok, halt, Bool-cases, inl, inr,
}
use r5o.Process.{
  nproc, running, time_quantum, Machine, runnable, has_time, next_pid, start, run_on, search_loop,
  select_process_to_run,
}

-- How many steps round the table `i` lies behind `c`: 0 for `c + 1`, and 63 for `c` itself.
unfoldable pub distance : ℕ → ℕ → ℕ
distance c i = (i + nproc - c - 1) % nproc

-- What a successful choice does: `j` is current and runs, with the time `t`; nothing else of its entry
-- changes, and no other entry of the table.
pub record Chosen (m m' : Machine) (j t : ℕ) : Type 0 where
  pub current : m'.current_process ≡ j
  pub in_table : j < nproc
  pub was : runnable (m.pd j) ≡ true
  pub entry : m'.pd j ≡ record (m.pd j) { time_left = t; state = running }
  pub others : (i : ℕ) → m'.pd i ≡ (if i == j then m'.pd j else m.pd i)
  pub csr : m'.csr ≡ m.csr

-- What the loop comes to, from `c` on with `k` rounds: the first runnable process, or the message
-- where none is.
data Searched (m : Machine) (c k : ℕ) : Outcome Machine (Unit {0}) → Type 0 where
  at :
      {m' : Machine} (d j : ℕ)
      → d < k
      → j ≡ (c + d) % nproc
      → Chosen m m' j time_quantum
      → ((e : ℕ) → e < d → runnable (m.pd ((c + e) % nproc)) ≡ false)
      → Searched m c k (ok tt m')
  nowhere :
      ((e : ℕ) → e < k → runnable (m.pd ((c + e) % nproc)) ≡ false)
      → Searched m c k (halt "selectProcessToRun: No Process To Run")

module _ (m : Machine) where
  start-Chosen :
      (c : ℕ)
      → c < nproc
      → runnable (m.pd c) ≡ true
      → Chosen m (start (record m { current_process = c })) c time_quantum
  start-Chosen c lt was = record {
    current = refl;
    in_table = lt;
    was = was;
    entry = rw (==_refl c) refl;
    others = λ i. ground arith;
    csr = refl;
  }

  -- One more entry at the front that is not runnable.
  shifted :
      (c d : ℕ)
      → c < nproc
      → runnable (m.pd c) ≡ false
      → ((e : ℕ) → e < d → runnable (m.pd ((next_pid c + e) % nproc)) ≡ false)
      → (e : ℕ) → e < suc d
      → runnable (m.pd ((c + e) % nproc)) ≡ false
  shifted c d lt f h zero le = let i : (c + 0) % nproc ≡ c = omega arith in rw i f
  shifted c d lt f h (suc e) le =
      let i : (c + suc e) % nproc ≡ (next_pid c + e) % nproc = omega arith in
      rw i (h e (omega arith))

  Searched-suc :
      (c k : ℕ) {o : Outcome Machine (Unit {0})}
      → c < nproc
      → runnable (m.pd c) ≡ false
      → Searched m (next_pid c) k o
      → Searched m c (suc k) o
  Searched-suc c k lt f (at d j dk at_j ch h) =
      at (suc d) j (omega arith) (omega arith) ch (shifted c d lt f h)
  Searched-suc c k lt f (nowhere h) = nowhere (shifted c k lt f h)

  search_loop-Searched :
      (k c : ℕ) → c < nproc → Searched m c k (search_loop k (record m { current_process = c }))
  unfolding search_loop
  search_loop-Searched zero c lt = nowhere (λ e h. absurd (omega arith))
  search_loop-Searched (suc k) c lt = elim (Bool-cases (runnable (m.pd c))) [
    | inl here ↦
        rw here (
          at 0 c (omega arith) (omega arith) (start-Chosen c lt here) (λ e h. absurd (omega arith)))
    | inr no_luck ↦
        rw no_luck (Searched-suc c k lt no_luck (search_loop-Searched k (next_pid c) (omega arith)))
  ]

-- What `selectProcessToRun` comes to: the current process, if it may run on; otherwise the runnable
-- process that comes first behind it, going round the table; or the message, if no process of the
-- table is runnable.
pub data Selected (m : Machine) : Outcome Machine (Unit {0}) → Type 0 where
  runs_on :
      {m' : Machine}
      → Chosen m m' m.current_process (m.pd m.current_process).time_left
      → has_time (m.pd m.current_process) ≡ true
      → Selected m (ok tt m')
  next :
      {m' : Machine} (j : ℕ)
      → Chosen m m' j time_quantum
      → (runnable (m.pd m.current_process) && has_time (m.pd m.current_process)) ≡ false
      → ((i : ℕ)
          → i < nproc
          → runnable (m.pd i) ≡ true
          → distance m.current_process j ≤ distance m.current_process i)
      → Selected m (ok tt m')
  nobody :
      ((i : ℕ) → i < nproc → runnable (m.pd i) ≡ false)
      → Selected m (halt "selectProcessToRun: No Process To Run")

-- Where `i` stands, counted from behind `c`.
distance_lem : (c i : ℕ) → c < nproc → i < nproc → (next_pid c + distance c i) % nproc ≡ i
unfolding distance
distance_lem c i hc hi = omega arith

distance_unique :
    (c d j : ℕ) → c < nproc → d < nproc → j ≡ (next_pid c + d) % nproc → distance c j ≡ d
unfolding distance
distance_unique c d j hc hd e = omega arith

distance-lt : (c i : ℕ) → distance c i < nproc
unfolding distance
distance-lt c i = omega arith

Searched-Selected :
    (m : Machine) {o : Outcome Machine (Unit {0})}
    → m.current_process < nproc
    → (runnable (m.pd m.current_process) && has_time (m.pd m.current_process)) ≡ false
    → Searched m (next_pid m.current_process) nproc o
    → Selected m o
Searched-Selected m lt f (at d j dk at_j ch h) =
    let c = m.current_process in
    next j ch f λ i hi r. elim (Bool-cases (ltb (distance c i) d)) [
      | inl earlier ↦
          let no_luck = h (distance c i) (ground arith) in
          let i' = distance_lem c i lt hi in absurd (ground arith)
      | inr later ↦ let e = distance_unique c d j lt dk at_j in ground arith
    ]
Searched-Selected m lt f (nowhere h) = nobody (λ i hi.
    rw (← distance_lem m.current_process i lt hi)
      (h (distance m.current_process i) (distance-lt m.current_process i)))

run_on-Chosen :
    (m : Machine)
    → m.current_process < nproc
    → runnable (m.pd m.current_process) ≡ true
    → has_time (m.pd m.current_process) ≡ true
    → Chosen m (run_on m) m.current_process (m.pd m.current_process).time_left
run_on-Chosen m lt was time = record {
  current = refl;
  in_table = lt;
  was = was;
  entry = rw (==_refl m.current_process) refl;
  others = λ i. ground arith;
  csr = refl;
}

-- The choice is round-robin, from a current process in the table: where it is runnable and has time
-- left, it becomes RUNNING with that time; otherwise the first runnable process behind it becomes
-- current and RUNNING, with a new quantum. Nothing else changes. The kernel stops with its message exactly where no
-- process of the table is runnable.
pub select-Selected :
    (m : Machine) → m.current_process < nproc → Selected m (select_process_to_run m)
unfolding select_process_to_run
select-Selected m lt =
    let inside : not (ltb m.current_process nproc) ≡ false = ground arith in
    rw inside
      (elim (Bool-cases (runnable (m.pd m.current_process) && has_time (m.pd m.current_process))) [
        | inl on ↦ rw on (runs_on (run_on-Chosen m lt (ground arith) (ground arith)) (ground arith))
        | inr off ↦ rw off (
            Searched-Selected m lt off
              (search_loop-Searched m nproc (next_pid m.current_process) (omega arith)))
      ])
