-- ===== src/Agent/Debug/Laws.antt =====
-- What is found in /proc/self/stat (cmd/mini-sb-agent/runtime_debug.go).
use mathlib.Core.Path.{subst}
use mathlib.Core.List.{append_assoc}
use mini_sb_xboard_agent.Base.{
  ℕ, ◌≤◌, ◌≡◌, refl, sym, ap, ◌∙◌, Bool, false, Option, some, none, List, [], ◌∷◌, ◌++◌, length,
  arith, ltb, nat_beq,
}
use mini_sb_xboard_agent.Base.Text.{Text, lit, is_empty, is_space, digits}
use mini_sb_xboard_agent.Base.Words.{word_fields, join, max_uint64, Without, AllWithout}
use mini_sb_xboard_agent.Base.Words.Laws.{
  NonEmpty, word_fields-join, after_last_lem, parse_uint-digits,
}
use mini_sb_xboard_agent.Agent.Debug.{Sample, atou, field_at, stat_fields, after_comm, proc_stat}

abbrev pub is_paren : ℕ → Bool
is_paren c = nat_beq c b')'

append-Without : (p : ℕ → Bool) (w s : Text) → Without p w → Without p s → Without p (w ++ s)
append-Without p [] s h hs = hs
append-Without p (c ∷ w) s h hs = (h.0, append-Without p w s h.1 hs)

join-Without :
    (p : ℕ → Bool) (c : ℕ) (ws : List Text) (s : Text)
    → p c ≡ false
    → AllWithout p ws
    → Without p s
    → Without p (join c ws ++ s)
unfolding join
join-Without p c [] s sep h hs = hs
join-Without p c (w ∷ []) s sep h hs = append-Without p w s h.0 hs
join-Without p c (w ∷ v ∷ ws) s sep h hs =
    subst (Without p) (sym (append_assoc w (c ∷ join c (v ∷ ws)) s)) (
      append-Without p w (c ∷ (join c (v ∷ ws) ++ s)) h.0
        (sep, join-Without p c (v ∷ ws) s sep h.1 hs))

atou-digits : (n : ℕ) → n ≤ max_uint64 → atou (digits n) ≡ n
unfolding atou
atou-digits n h = rw (atou, parse_uint-digits n h) refl

-- A text that begins with a word that is not empty has a first character.
after_comm_lem :
    (c : ℕ) (w : Text) (ws : List Text) (s : Text)
    → is_empty w ≡ false
    → after_comm (some (32 ∷ (join c (w ∷ ws) ++ s))) ≡ some (join c (w ∷ ws) ++ s)
unfolding after_comm join
after_comm_lem c [] ws s h = absurd (ground (arith, h))
after_comm_lem c (d ∷ w) [] s h = refl
after_comm_lem c (d ∷ w) (v ∷ ws) s h = refl

stat_fields_lem :
    (fields : List Text) (s : Sample) (u t start : ℕ)
    → 20 ≤ length fields
    → field_at 11 fields ≡ digits u
    → field_at 12 fields ≡ digits t
    → field_at 19 fields ≡ digits start
    → u ≤ max_uint64
    → t ≤ max_uint64
    → start ≤ max_uint64
    → stat_fields fields s ≡ record s { utime_ticks = u; stime_ticks = t; start_time_ticks = start }
unfolding stat_fields
stat_fields_lem fields s u t start many fu ft fs bu bt bs =
    let enough : ltb (length fields) 20 ≡ false = ground arith in
    let eu = ap atou fu ∙ atou-digits u bu in
    let et = ap atou ft ∙ atou-digits t bt in
    let es = ap atou fs ∙ atou-digits start bs in rw (stat_fields, enough, eu, et, es) refl

-- The numbers of a process are found in the line of its stat file, whatever its name is: behind the
-- last parenthesis and a blank, the words of the line, at least twenty, separated by
-- blanks and ended by a newline, without blanks and closing parentheses in them. If
-- the twelfth, thirteenth and twentieth of them are numerals of 64 bits, a sample gets those
-- numbers and keeps all else.
pub proc_stat_lem :
    (before w : Text) (ws : List Text) (s : Sample) (u t start : ℕ)
    → AllWithout is_space (w ∷ ws)
    → AllWithout is_paren (w ∷ ws)
    → NonEmpty (w ∷ ws)
    → 19 ≤ length ws
    → field_at 11 (w ∷ ws) ≡ digits u
    → field_at 12 (w ∷ ws) ≡ digits t
    → field_at 19 (w ∷ ws) ≡ digits start
    → u ≤ max_uint64
    → t ≤ max_uint64
    → start ≤ max_uint64
    → proc_stat (before ++ (b')' ∷ b' ' ∷ (join b' ' (w ∷ ws) ++ lit "\n"))) s
      ≡ record s { utime_ticks = u; stime_ticks = t; start_time_ticks = start }
unfolding proc_stat is_space
proc_stat_lem before w ws s u t start blanks parens full many fu ft fs bu bt bs =
    let line = join b' ' (w ∷ ws) ++ lit "\n" in
    let found =
      after_last_lem b')' before (b' ' ∷ line)
        (refl, join-Without is_paren b' ' (w ∷ ws) (lit "\n") refl parens (refl, tt)) in
    let rest = after_comm_lem b' ' w ws (lit "\n") full.0 in
    let fields = word_fields-join b' ' 10 w ws refl refl blanks full in
    ap (λ o. elim (after_comm o) [ none ↦ s | some x ↦ stat_fields (word_fields x) s ]) found
    ∙ ap (λ (o : Option Text). elim o [ none ↦ s | some x ↦ stat_fields (word_fields x) s ]) rest
    ∙ ap (λ l. stat_fields l s) fields
    ∙ stat_fields_lem (w ∷ ws) s u t start (omega arith) fu ft fs bu bt bs
