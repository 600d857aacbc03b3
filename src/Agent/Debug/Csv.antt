-- ===== src/Agent/Debug/Csv.antt =====
-- The CSV file of cmd/mini-sb-agent/runtime_debug.go: its header and the line of a sample, and which
-- texts its cells can hold. The clock and the numbers of the Go runtime are given.
use mini_sb_xboard_agent.Base.{
  ℕ, zero, suc, ◌+◌, ◌/◌, ◌%◌, ◌^◌, ◌≡◌, refl, ap, Bool, List, [], ◌∷◌, ◌++◌, length, arith, ltb,
  nat_beq, if◌then◌else◌, Bool-cases, inl, inr, map,
}
use mini_sb_xboard_agent.Base.Int.{ℤ, pos, negsuc}
use mini_sb_xboard_agent.Base.Text.{Text, lit, is_empty, digits, digits_onto, itoa}
use mini_sb_xboard_agent.Base.Words.{split, join, replace_all, Without, AllWithout, split-join}
use mini_sb_xboard_agent.Base.Words.Laws.{replace_all-Without}
use mini_sb_xboard_agent.Agent.Debug.{Sample}

-- The numbers of the Go runtime; `pause_ns` is the ring of the last 256 pauses.
pub record MemStats : Type 0 where
  pub goroutines : ℕ
  pub heap_alloc : ℕ
  pub heap_sys : ℕ
  pub heap_idle : ℕ
  pub heap_released : ℕ
  pub stack_inuse : ℕ
  pub other_sys : ℕ
  pub num_gc : ℕ
  pub pause_total_ns : ℕ
  pub pause_ns : ℕ → ℕ

-- `(ms.NumGC+255)%256`, in 32 bits.
abbrev pub last_pause : MemStats → ℕ
last_pause ms = if ltb 0 ms.num_gc then ms.pause_ns ((ms.num_gc + 255) % 2 ^ 32 % 256) else 0

abbrev pub csv_header : Text
csv_header =
    lit
      "ts,pid,utime_ticks,stime_ticks,threads,vmrss_kb,vmhwm_kb,vmdata_kb,cgroup_memory,cgroup_oom,cgroup_oom_kill,cgroup_pids,cgroup_pids_max,mem_available_kb,goroutines,heap_alloc,heap_sys,heap_idle,heap_released,stack_inuse,other_sys,num_gc,pause_total_ns,last_gc_pause_ns"

-- `csvSafe`
unfoldable pub csv_safe : Text → Text
unfolding replace_all
csv_safe = replace_all b',' b'_'

-- The numbers of a line before and after the only text, at a time and for a process.
abbrev numbers_before : ℤ → ℤ → Sample → List ℤ
numbers_before now pid s =
    now
    ∷ pid
    ∷ pos s.utime_ticks
    ∷ pos s.stime_ticks
    ∷ s.threads
    ∷ pos s.vm_rss_kb
    ∷ pos s.vm_hwm_kb
    ∷ pos s.vm_data_kb
    ∷ pos s.cgroup_memory
    ∷ pos s.cgroup_oom
    ∷ pos s.cgroup_oom_kill
    ∷ pos s.cgroup_pids
    ∷ []

abbrev numbers_after : Sample → MemStats → List ℤ
numbers_after s ms =
    pos s.mem_available_kb
    ∷ pos ms.goroutines
    ∷ pos ms.heap_alloc
    ∷ pos ms.heap_sys
    ∷ pos ms.heap_idle
    ∷ pos ms.heap_released
    ∷ pos ms.stack_inuse
    ∷ pos ms.other_sys
    ∷ pos ms.num_gc
    ∷ pos ms.pause_total_ns
    ∷ pos (last_pause ms)
    ∷ []

abbrev pub csv_cells : ℤ → ℤ → Sample → MemStats → List Text
csv_cells now pid s ms =
    map itoa (numbers_before now pid s)
    ++ (csv_safe s.cgroup_pids_max ∷ map itoa (numbers_after s ms))

-- The line that is printed, less its newline.
unfoldable pub csv_line : ℤ → ℤ → Sample → MemStats → Text
unfolding join csv_safe
csv_line now pid s ms = join b',' (csv_cells now pid s ms)

-- The file after a sample: the header if it is empty, and then the line.
unfoldable pub logged : Text → Text → Text
logged file line = (if is_empty file then csv_header ++ lit "\n" else file) ++ (line ++ lit "\n")

abbrev pub is_comma : ℕ → Bool
is_comma c = nat_beq c b','

digits_onto-Without :
    (f n : ℕ) (acc : Text) → Without is_comma acc → Without is_comma (digits_onto f n acc)
unfolding digits_onto
digits_onto-Without zero n acc h = h
digits_onto-Without (suc f) n acc h = elim (Bool-cases (ltb n 10)) [
  | inl small ↦ rw small (ground arith, h)
  | inr big ↦ rw big (digits_onto-Without f (n / 10) _ (ground arith, h))
]

itoa-Without : (z : ℤ) → Without is_comma (itoa z)
unfolding itoa digits
itoa-Without (pos n) = digits_onto-Without (suc n) n [] tt
itoa-Without (negsuc n) = (refl, digits_onto-Without (suc (suc n)) (suc n) [] tt)

itoa-AllWithout : (zs : List ℤ) → AllWithout is_comma (map itoa zs)
itoa-AllWithout [] = tt
itoa-AllWithout (z ∷ zs) = (itoa-Without z, itoa-AllWithout zs)

append-AllWithout :
    (vs ws : List Text)
    → AllWithout is_comma vs
    → AllWithout is_comma ws
    → AllWithout is_comma (vs ++ ws)
append-AllWithout [] ws h hs = hs
append-AllWithout (v ∷ vs) ws h hs = (h.0, append-AllWithout vs ws h.1 hs)

cells-AllWithout :
    (now pid : ℤ) (s : Sample) (ms : MemStats) → AllWithout is_comma (csv_cells now pid s ms)
unfolding csv_safe
cells-AllWithout now pid s ms =
    let safe = replace_all-Without b',' b'_' s.cgroup_pids_max refl in
    append-AllWithout (map itoa (numbers_before now pid s))
      (csv_safe s.cgroup_pids_max ∷ map itoa (numbers_after s ms))
      (itoa-AllWithout (numbers_before now pid s)) (safe, itoa-AllWithout (numbers_after s ms))

-- Whatever the files hold, a line has one value under each column of the header: cut at
-- its commas, it is the list of the values, and there are as many as the header has columns.
pub csv_line_columns :
    (now pid : ℤ) (s : Sample) (ms : MemStats)
    → (split is_comma (csv_line now pid s ms) ≡ csv_cells now pid s ms)
      × (length (split is_comma (csv_line now pid s ms)) ≡ length (split is_comma csv_header))
unfolding csv_line split
csv_line_columns now pid s ms =
    let cut = split-join is_comma b',' (itoa now) _ refl (cells-AllWithout now pid s ms) in
    (cut, ap length cut)
