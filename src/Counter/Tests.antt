-- ===== src/Counter/Tests.antt =====
-- The theorems on counter/ at concrete inputs.
use mini_sb_xboard_agent.Counter.Limited.{Inside, limited_write, limited_write_buffer}
use mini_sb_xboard_agent.Counter.Limited.Buffer.{WroteAll, limited_write_buffer_lem}
use mini_sb_xboard_agent.Counter.Limited.Complete.{Progress, limited_write_lem, take_all}
use mini_sb_xboard_agent.Counter.RateLimit.{LimiterClosed, limiter_closed}
use mini_sb_xboard_agent.Base.{
  none, ok, true, ◌++◌, ap, sym, length, ltb, if◌then◌else◌, ℕ, ◌*◌, ◌≡◌, ◌≢◌, refl, false, some,
  List, [], ◌∷◌, arith,
}
use mini_sb_xboard_agent.Base.Int.{ℤ, pos, add64, wrap64}
use mini_sb_xboard_agent.Base.Text.{Text, lit, text_eq, text_beq}
use mini_sb_xboard_agent.Base.Map.{Map, IsMap, lookup, put, contains}
use mini_sb_xboard_agent.Counter.Traffic.{
  TrafficCounter, new_traffic_counter, get_counter, count_read, count_write, change, snapshot_delta,
  commit_snapshot, commit_user, remove_absent,
}
use mini_sb_xboard_agent.Counter.Traffic.Ledger.{IsValid, view, new_traffic_counter-IsValid}
use mini_sb_xboard_agent.Counter.Traffic.Run.{
  Op, reads, writes, commits, step, run_ops, run_refines,
}
use mini_sb_xboard_agent.Counter.Traffic.Connections.{
  Event, routed, conn_reads, conn_writes, committed_all, removed, Served, act_all, Books, book_all,
  Describes,
}
use mini_sb_xboard_agent.Counter.Traffic.Connections.Pushes.{Turn, happens, pushes}
use mini_sb_xboard_agent.Counter.Traffic.Connections.Refine.{connections_refine}
use mini_sb_xboard_agent.Counter.Traffic.Orphan.{orphan_uncounted}
use mini_sb_xboard_agent.Counter.RateLimit.{RateLimiter, wait_loop, billion}
use mini_sb_xboard_agent.Counter.RateLimit.Waiting.{Ended, wait_ends}

-- A megabyte per second, with 65536 bytes in a bucket of 200000.
abbrev half_full : RateLimiter
half_full = record {
  rate = pos 1_000_000;
  burst = pos 200_000;
  tokens = pos (65536 * billion);
  last = 5;
  disabled = false;
  closed = false;
}

wait_ends_example : Ended 1_000_000 200_000 (wait_loop (6 ∷ 7 ∷ 8 ∷ []) 500_000 0 half_full)
wait_ends_example =
    wait_ends 1_000_000 200_000 (6 ∷ 7 ∷ 8 ∷ []) 500_000 0 half_full
      (record {
        rate_is = refl;
        burst_is = refl;
        rate_positive = omega arith;
        burst_positive = omega arith;
        enabled = refl;
        is_open = refl;
      })
      (omega arith)

-- User 7 has read ten bytes and written four, user 9 has read one.
abbrev started : List Op
started = reads (lit "7") (pos 10) ∷ writes (lit "7") (pos 4) ∷ reads (lit "9") (pos 1) ∷ []

abbrev busy : TrafficCounter
busy = run_ops new_traffic_counter started

busy-IsValid : IsValid busy
busy-IsValid = (run_refines started new_traffic_counter new_traffic_counter-IsValid).0

abbrev pushed : Map Text (ℤ × ℤ)
pushed = (lit "7", (pos 10, pos 4)) ∷ []

pushed-IsMap : IsMap pushed
unfolding lookup
pushed-IsMap = (refl, tt)

-- Two connections of user 7; the first is still open when the user, whose traffic is committed, is
-- removed.
abbrev ten_read : Map Text (ℤ × ℤ)
ten_read = (lit "7", (pos 10, pos 0)) ∷ []

ten_read-IsMap : IsMap ten_read
unfolding lookup
ten_read-IsMap = (refl, tt)

abbrev connected : List Event
connected =
    routed (lit "7")
    ∷ conn_reads 0 (pos 10)
    ∷ committed_all ten_read ten_read-IsMap
    ∷ removed []
    ∷ conn_reads 0 (pos 5)
    ∷ routed (lit "7")
    ∷ conn_writes 1 (pos 2)
    ∷ []

abbrev no_conns : Served
no_conns = record { counter = new_traffic_counter; conns = [] }

abbrev empty_books : Books
empty_books = record { ledger = view new_traffic_counter; owners = [] }

connections_refine_example : Describes (act_all no_conns connected) (book_all empty_books connected)
connections_refine_example =
    connections_refine connected no_conns empty_books
      (record { valid = new_traffic_counter-IsValid; accounts = refl; held = tt })

-- The first push fails; a connection goes on during the second, and after its user is removed.
abbrev pushed_twice : List Turn
pushed_twice =
    happens (routed (lit "7"))
    ∷ happens (conn_reads 0 (pos 10))
    ∷ pushes false (conn_writes 0 (pos 2) ∷ [])
    ∷ pushes true (conn_reads 0 (pos 3) ∷ [])
    ∷ pushes true []
    ∷ happens (removed [])
    ∷ happens (conn_reads 0 (pos 4))
    ∷ []

abbrev meanwhile : List Op
meanwhile = reads (lit "7") (pos 3) ∷ writes (lit "9") (pos 2) ∷ writes (lit "7") (pos 6) ∷ []

-- All that user 7 has moved is committed.
abbrev settling : List Op
settling = commits pushed pushed-IsMap ∷ []

abbrev settled : TrafficCounter
settled = run_ops busy settling

settled-IsValid : IsValid settled
settled-IsValid = (run_refines settling busy busy-IsValid).0

orphan_uncounted_example :
    (snapshot_delta (count_read 0 (pos 5) (remove_absent [] settled))
      ≡ snapshot_delta (remove_absent [] settled))
    × (snapshot_delta (count_write 0 (pos 5) (remove_absent [] settled))
        ≡ snapshot_delta (remove_absent [] settled))
    × ((get_counter (lit "7") (remove_absent [] settled)).1 ≢ 0)
unfolding run_ops step get_counter count_read count_write change lookup put add64 wrap64 text_beq
    commit_snapshot commit_user contains
orphan_uncounted_example =
    orphan_uncounted [] settled (lit "7") 0 settled-IsValid refl refl refl (pos 5)

-- A connection that takes all, behind a limiter that is closed once two bytes are sent.
abbrev closing : Inside (List ℕ) LimiterClosed
closing = record {
  wait = λ n w. (w, if ltb 1 (length w) then some limiter_closed else none);
  allow = λ n w. (w, ok true);
  read = λ n w. (w, (n, none));
  write = λ b w. (w ++ b, (length b, none));
}

limited_write_lem_example :
    Progress closing (λ w. w) (1 ∷ 2 ∷ 3 ∷ []) 0 [] (limited_write closing true (1 ∷ 2 ∷ 3 ∷ []) [])
limited_write_lem_example =
    limited_write_lem closing (λ w. w) (λ n w. refl) (λ b w. omega arith)
      (λ b w. ap (λ l. w ++ l) (sym (take_all b))) (1 ∷ 2 ∷ 3 ∷ []) []

limited_write_buffer_lem_example :
    WroteAll closing
      (λ w. w)
      (λ b w. (w ++ b, none))
      (1 ∷ 2 ∷ 3 ∷ [])
      []
      (limited_write_buffer closing (λ b w. (w ++ b, none)) true (1 ∷ 2 ∷ 3 ∷ []) [])
limited_write_buffer_lem_example =
    limited_write_buffer_lem closing (λ w. w) (λ b w. (w ++ b, none)) (λ n w. refl) (λ b w h. refl)
      (λ b w h. refl) true (1 ∷ 2 ∷ 3 ∷ []) []
