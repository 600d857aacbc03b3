-- ===== src/Agent/Debug.antt =====
-- The samples of cmd/mini-sb-agent/runtime_debug.go: what is read of the files of /proc and of the
-- cgroup. The files are given. A
-- text is a list of bytes here; blanks other than ASCII are not met in these files.
pub mod Csv
pub mod Laws
mod Tests
use mini_sb_xboard_agent.Base.{
  ℕ, zero, suc, ◌+◌, ◌%◌, ◌^◌, Bool, true, false, not, ◌&&◌, ◌||◌, Option, none, some, List, [],
  ◌∷◌, ◌++◌, ◌==◌, ltb, leb, length, if◌then◌else◌, nat_beq,
}
use mini_sb_xboard_agent.Base.Int.{ℤ, pos, negsuc, max_int64}
use mini_sb_xboard_agent.Base.Text.{Text, lit, text_eq, is_empty, itoa, trim_space}
use mini_sb_xboard_agent.Base.Words.{
  split, word_fields, join, after_last, replace_all, Parsed, value, bad_syntax, out_of_range,
  max_uint64, parse_uint,
}

-- `runtimeDebugSample`, less the numbers of the Go runtime.
pub record Sample : Type 0 where
  pub utime_ticks : ℕ
  pub stime_ticks : ℕ
  pub start_time_ticks : ℕ
  pub threads : ℤ
  pub vm_rss_kb : ℕ
  pub vm_hwm_kb : ℕ
  pub vm_data_kb : ℕ
  pub cgroup_memory : ℕ
  pub cgroup_oom : ℕ
  pub cgroup_oom_kill : ℕ
  pub cgroup_pids : ℕ
  pub cgroup_pids_max : Text
  pub mem_available_kb : ℕ

abbrev pub zero_sample : Sample
zero_sample = record {
  utime_ticks = 0;
  stime_ticks = 0;
  start_time_ticks = 0;
  threads = pos 0;
  vm_rss_kb = 0;
  vm_hwm_kb = 0;
  vm_data_kb = 0;
  cgroup_memory = 0;
  cgroup_oom = 0;
  cgroup_oom_kill = 0;
  cgroup_pids = 0;
  cgroup_pids_max = [];
  mem_available_kb = 0;
}

-- `atou`: the error is dropped, and with it a number that is too large is the largest one.
unfoldable pub atou : Text → ℕ
atou s = elim (parse_uint s) [ value n ↦ n | bad_syntax ↦ 0 | out_of_range ↦ max_uint64 ]

-- `strconv.Atoi` without its error, for a sign and what follows it.
abbrev clamp_int : Bool → Parsed → ℤ
clamp_int negative bad_syntax = pos 0
clamp_int false out_of_range = pos max_int64
clamp_int true out_of_range = negsuc max_int64
clamp_int false (value n) = if leb n max_int64 then pos n else pos max_int64
clamp_int true (value zero) = pos 0
clamp_int true (value (suc n)) = if leb n max_int64 then negsuc n else negsuc max_int64

-- `atoi`, which drops the error of `strconv.Atoi`.
unfoldable pub int_or_zero : Text → ℤ
int_or_zero [] = pos 0
int_or_zero (c ∷ s) =
    if nat_beq c b'-'
    then clamp_int true (parse_uint s)
    else if nat_beq c b'+'
    then clamp_int false (parse_uint s)
    else clamp_int false (parse_uint (c ∷ s))

abbrev pub is_newline : ℕ → Bool
is_newline c = nat_beq c 10

-- `fields[i]`, where there are more fields than i.
unfoldable pub field_at : ℕ → List Text → Text
field_at i [] = []
field_at zero (w ∷ ws) = w
field_at (suc i) (w ∷ ws) = field_at i ws

-- A line of /proc/self/status.
unfoldable pub status_line : List Text → Sample → Sample
unfolding atou int_or_zero
status_line [] s = s
status_line (k ∷ []) s = s
status_line (k ∷ v ∷ ws) s =
    if k == lit "Threads:"
    then record s { threads = int_or_zero v }
    else if k == lit "VmRSS:"
    then record s { vm_rss_kb = atou v }
    else if k == lit "VmHWM:"
    then record s { vm_hwm_kb = atou v }
    else if k == lit "VmData:"
    then record s { vm_data_kb = atou v }
    else s

unfoldable pub status_lines : List Text → Sample → Sample
unfolding status_line
status_lines [] s = s
status_lines (l ∷ ls) s = status_lines ls (status_line (word_fields l) s)

-- A line of the cgroup's memory.events: two fields.
unfoldable pub event_line : List Text → Sample → Sample
unfolding atou
event_line (k ∷ v ∷ []) s =
    if k == lit "oom"
    then record s { cgroup_oom = atou v }
    else if k == lit "oom_kill"
    then record s { cgroup_oom_kill = atou v }
    else s
event_line _ s = s

unfoldable pub event_lines : List Text → Sample → Sample
unfolding event_line
event_lines [] s = s
event_lines (l ∷ ls) s = event_lines ls (event_line (word_fields l) s)

-- The first line of /proc/meminfo that has the number.
abbrev is_available : List Text → Option Text
is_available (k ∷ v ∷ ws) = if k == lit "MemAvailable:" then some v else none
is_available _ = none

unfoldable pub available_in : List Text → ℕ
unfolding atou
available_in [] = 0
available_in (l ∷ ls) =
    let rest = available_in ls in
    elim (is_available (word_fields l)) [ some v ↦ atou v | none ↦ rest ]

-- `fields`, if there are at least twenty.
unfoldable pub stat_fields : List Text → Sample → Sample
unfolding atou field_at
stat_fields fields s = if ltb (length fields) 20 then s else record s {
  utime_ticks = atou (field_at 11 fields);
  stime_ticks = atou (field_at 12 fields);
  start_time_ticks = atou (field_at 19 fields);
}

-- `text[idx+2:]`, if `idx+2` is inside: what follows one character after the parenthesis.
unfoldable pub after_comm : Option Text → Option Text
after_comm (some (c ∷ d ∷ t)) = some (d ∷ t)
after_comm _ = none

-- `fillProcStat` on the contents of /proc/self/stat.
unfoldable pub proc_stat : Text → Sample → Sample
unfolding after_comm stat_fields
proc_stat text s = elim (after_comm (after_last b')' text)) [
  | none ↦ s
  | some rest ↦ stat_fields (word_fields rest) s
]

-- `read` is `os.ReadFile`, `none` its error.
module _ (read : Text → Option Text) where
  unfoldable pub read_trim : Text → Text
  read_trim path = elim (read path) [ none ↦ [] | some t ↦ trim_space t ]

  -- One path of `readUintFirst`, and the loop. A text that is not empty has a field.
  unfoldable pub uint_at : Text → Option ℕ
  unfolding read_trim field_at
  uint_at path =
      let text = read_trim path in
      if is_empty text || text == lit "max"
      then none
      else elim (parse_uint (field_at 0 (word_fields text))) [
        | value n ↦ some n
        | bad_syntax ↦ none
        | out_of_range ↦ none
      ]

  unfoldable pub read_uint_first : List Text → ℕ
  unfolding uint_at
  read_uint_first [] = 0
  read_uint_first (path ∷ paths) =
      let rest = read_uint_first paths in elim (uint_at path) [ some n ↦ n | none ↦ rest ]

  -- What a file that can be read does to a sample.
  abbrev pub fill : Text → (Text → Sample → Sample) → Sample → Sample
  fill path f s = elim (read path) [ none ↦ s | some text ↦ f text s ]

  -- `collectRuntimeDebugSample`, less the process and the runtime.
  unfoldable pub collect_sample : Sample
  unfolding read_uint_first read_trim status_lines event_lines available_in proc_stat
  collect_sample =
      let start = record zero_sample {
        cgroup_pids_max = read_trim (lit "/sys/fs/cgroup/pids.max");
      } in
      let status = fill (lit "/proc/self/status") (λ t. status_lines (split is_newline t)) start in
      let stat = fill (lit "/proc/self/stat") proc_stat status in
      let memory = record stat {
        cgroup_memory = read_uint_first (
            lit "/sys/fs/cgroup/memory.current"
            ∷ lit "/sys/fs/cgroup/memory/memory.usage_in_bytes"
            ∷ []);
      } in
      let events =
        fill (lit "/sys/fs/cgroup/memory.events") (λ t. event_lines (split is_newline t)) memory in
      record events {
        cgroup_pids = read_uint_first (lit "/sys/fs/cgroup/pids.current" ∷ []);
        mem_available_kb = elim (read (lit "/proc/meminfo")) [
          | none ↦ 0
          | some t ↦ available_in (split is_newline t)
        ];
      }
