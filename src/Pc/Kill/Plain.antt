-- ===== src/Pc/Kill/Plain.antt =====
-- `pc_kill` where the children of the process go to the process "init".
use mini_operating_system.Prelude.{
  ℕ, zero, suc, ◌<◌, ◌≡◌, refl, ◌≢◌, ◌⊎◌, true, false, ◌&&◌, Option, some, arith, ◌==◌,
  if◌then◌else◌, ℤ, pos, minus_one, eq_ℤ, Bool-cases, inl, inr, ==_iff,
}
use mini_operating_system.Pid.{PidMap}
use mini_operating_system.Pc.State.{Task, Table, Sched}
use mini_operating_system.Pc.Kill.{Search, end_process, adopt_visit, sweep, pc_kill}
use mini_operating_system.Pc.Kill.Sweep.{sweep-table, sweep_inv, sweep_reach}

-- What becomes of a process when `proc` is killed.
abbrev pub bereave : ℤ → Task → Task
bereave proc t =
    if eq_ℤ t.asid proc
    then record t { asid = minus_one }
    else if eq_ℤ t.ppid proc
    then record t { ppid = pos 0 }
    else t

module _ (proc : ℤ) where
  adopt_visit-table :
      (q i : ℕ) (s : Search) (a b : ℕ)
      → (adopt_visit proc q i s).0.task_queue a b
        ≡ (if (a == q) && (b == i) then bereave proc (s.0.task_queue a b) else s.0.task_queue a b)
  unfolding adopt_visit end_process
  adopt_visit-table q i (s, flag) a b = ground arith

  -- Some slot of the table holds the process.
  abbrev Holds : Sched → Type 0
  Holds s = (q : ℕ) × (i : ℕ) × (q < 8) × (i < 16) × (eq_ℤ (s.task_queue q i).asid proc ≡ true)

  abbrev Lacks : Sched → Type 0
  Lacks s = (q i : ℕ) → q < 8 → i < 16 → eq_ℤ (s.task_queue q i).asid proc ≡ false

  searched : Sched → Search
  searched s = sweep (adopt_visit proc) s.curr_proc 8 (s, false)

  found_flag : (s : Sched) → Holds s → (searched s).1 ≡ true
  unfolding searched
  found_flag s (q, i, hq, hi, e) =
      sweep_reach (adopt_visit proc) (λ r. r.1 ≡ true)
        (λ r. eq_ℤ (r.0.task_queue q i).asid proc ≡ true) q i hi keep wait here s.curr_proc 8
        (s, false) hq e
    where
      keep : (a b : ℕ) (r : Search) → r.1 ≡ true → (adopt_visit proc a b r).1 ≡ true
      keep a b (t, flag) h = unfold adopt_visit in ground arith

      wait :
          (a b : ℕ) (r : Search)
          → ((a == q) && (b == i)) ≡ false
          → eq_ℤ (r.0.task_queue q i).asid proc ≡ true
          → eq_ℤ ((adopt_visit proc a b r).0.task_queue q i).asid proc ≡ true
      wait a b r other h = ground (arith, adopt_visit-table a b r q i)

      here :
          (r : Search)
          → eq_ℤ (r.0.task_queue q i).asid proc ≡ true
          → (adopt_visit proc q i r).1 ≡ true
      here (t, flag) h = unfold adopt_visit in ground arith

  passes :
      (q i : ℕ) (r : Search) {p : PidMap}
      → q < 8
      → i < 16
      → (r.1 ≡ false) × (r.0.pids ≡ p) × Lacks r.0
      → let r' = adopt_visit proc q i r in (r'.1 ≡ false) × (r'.0.pids ≡ p) × Lacks r'.0
  passes q i (t, flag) hq hi (f, e, lacks) = (
    unfold adopt_visit in ground (arith, lacks q i hq hi),
    unfold adopt_visit in ground (arith, lacks q i hq hi),
    λ a b ha hb. ground (arith, adopt_visit-table q i (t, flag) a b, lacks a b ha hb),
  )

  missing_flag : (s : Sched) → Lacks s → ((searched s).1 ≡ false) × ((searched s).0.pids ≡ s.pids)
  unfolding searched
  missing_flag s lacks =
      let r =
        sweep_inv (adopt_visit proc) (λ r. (r.1 ≡ false) × (r.0.pids ≡ s.pids) × Lacks r.0)
          s.curr_proc 8 (s, false) (λ q i r hq hi h. passes q i r hq hi h) (refl, refl, lacks) in
      (r.0, r.1)

  -- `curr_proc`, `curr_queue`, `kill_state` and the time slices are as they were.
  abbrev SameGlobals : Sched → Sched → Type 0
  SameGlobals s t =
      (t.curr_proc ≡ s.curr_proc)
      × (t.curr_queue ≡ s.curr_queue)
      × (t.kill_state ≡ s.kill_state)
      × (t.time_slice ≡ s.time_slice)

  searched-SameGlobals : (s : Sched) → SameGlobals s (searched s).0
  unfolding searched
  searched-SameGlobals s =
      sweep_inv (adopt_visit proc) (λ r. SameGlobals s r.0) s.curr_proc 8 (s, false) keep
        (refl, refl, refl, refl)
    where
      keep :
          (q i : ℕ) (r : Search)
          → q < 8
          → i < 16
          → SameGlobals s r.0
          → SameGlobals s (adopt_visit proc q i r).0
      keep q i (t, flag) _ _ h = unfold adopt_visit end_process in ground arith

  searched-table :
      (s : Sched) (q i : ℕ)
      → q < 8
      → i < 16
      → (searched s).0.task_queue q i ≡ bereave proc (s.task_queue q i)
  unfolding searched
  searched-table s q i hq hi = ground (
    arith,
    sweep-table (adopt_visit proc) (λ r. r.0.task_queue) (bereave proc) adopt_visit-table
        s.curr_proc 8 (s, false) q i,
  )

  in_row :
      (level : ℕ → Task) (n : ℕ)
      → ((i : ℕ) × (i < n) × (eq_ℤ (level i).asid proc ≡ true))
        ⊎ ((i : ℕ) → i < n → eq_ℤ (level i).asid proc ≡ false)
  in_row level zero = inr λ i h. absurd (omega arith)
  in_row level (suc n) = elim (Bool-cases (eq_ℤ (level n).asid proc)) [
    | inl here ↦ inl (n, omega arith, here)
    | inr not_here ↦ elim (in_row level n) [
      | inl (i, h, e) ↦ inl (i, omega arith, e)
      | inr none_below ↦ inr λ i h. elim (Bool-cases (i == n)) [
        | inl e ↦ rw ((==_iff i n).0 e) not_here
        | inr e ↦ none_below i (ground arith)
      ]
    ]
  ]

  in_table :
      (f : Table) (n : ℕ)
      → ((q : ℕ) × (i : ℕ) × (q < n) × (i < 16) × (eq_ℤ (f q i).asid proc ≡ true))
        ⊎ ((q i : ℕ) → q < n → i < 16 → eq_ℤ (f q i).asid proc ≡ false)
  in_table f zero = inr λ q i h. absurd (omega arith)
  in_table f (suc n) = elim (in_row (f n) 16) [
    | inl (i, h, e) ↦ inl (n, i, omega arith, h, e)
    | inr none_here ↦ elim (in_table f n) [
      | inl (q, i, hq, hi, e) ↦ inl (q, i, omega arith, hi, e)
      | inr none_below ↦ inr λ q i hq hi. elim (Bool-cases (q == n)) [
        | inl e ↦ rw ((==_iff q n).0 e) (none_here i hi)
        | inr e ↦ none_below q i (ground arith) hi
      ]
    ]
  ]

  -- Every slot that holds the process is empty, every child of it has the parent "init", and
  -- nothing else of the table has changed.
  pub record Bereaved (s t : Sched) : Type 0 where
    pub slots : (q i : ℕ) → q < 8 → i < 16 → t.task_queue q i ≡ bereave proc (s.task_queue q i)
    pub globals : SameGlobals s t

  pub data Killed (s : Sched) : Option (Sched × ℕ) → Type 0 where
    found : {t : Sched} → Holds s → Bereaved s t → Killed s (some (t, 2))
    missing : {t : Sched} → Lacks s → Bereaved s t → t.pids ≡ s.pids → Killed s (some (t, 3))

  -- With `kill_state` not 0 and a pid other than 0 and 1, `pc_kill` returns 2 exactly when a slot
  -- holds that pid and 3 when none does, and then leaves the pid map alone; every slot with that
  -- pid becomes empty, every other child of it gets the parent 0, and no other slot, position,
  -- queue number, kill state or time slice changes.
  pub pc_kill-Killed :
      (fuel : ℕ) (s : Sched)
      → s.kill_state ≢ 0
      → eq_ℤ proc (pos 0) ≡ false
      → eq_ℤ proc (pos 1) ≡ false
      → Killed s (pc_kill (suc fuel) proc s)
  unfolding pc_kill searched
  pc_kill-Killed fuel s mode not_init not_shell =
      let plain : (s.kill_state == 0) ≡ false = ground arith in
      let changed : Bereaved s (searched s).0 = record {
        slots = searched-table s;
        globals = searched-SameGlobals s;
      } in
      rw (not_init, not_shell, plain)
        (elim (in_table s.task_queue 8) [
          | inl holds ↦ rw (found_flag s holds) (found holds changed)
          | inr lacks ↦
              let (flag, pids) = missing_flag s lacks in rw flag (missing lacks changed pids)
        ])
