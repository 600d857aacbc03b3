-- ===== src/Agent/Tests.antt =====
-- The theorems on the agent at concrete inputs.
use mini_sb_xboard_agent.Base.{
  ℕ, ◌≡◌, refl, true, none, some, List, [], ◌∷◌, ◌++◌, ◌&&◌, ◌||◌, not, ◌==◌, arith, select, map,
  ap, Bool-cases, inl, inr, eq_of_beq, Result, ok, err,
}
use mini_sb_xboard_agent.Base.Int.{ℤ, pos, int_eq, add64, wrap64, ◌*ℤ◌}
use mini_sb_xboard_agent.Base.Text.{Text, lit, is_digit, text_eq, text_beq, itoa}
use mini_sb_xboard_agent.Base.Map.{Map, IsMap, lookup, put}
use mini_sb_xboard_agent.Counter.Traffic.{
  TrafficCounter, new_traffic_counter, get_counter, count_read, count_write, change,
}
use mini_sb_xboard_agent.Counter.Traffic.Ledger.{view, new_traffic_counter-IsValid}
use mini_sb_xboard_agent.Counter.Traffic.Run.{Op, reads, writes, step, run_ops, run_refines}
use mini_sb_xboard_agent.PanelApi.Client.{Delta, is_numeric_user}
use mini_sb_xboard_agent.PanelApi.Sync.{flush}
use mini_sb_xboard_agent.PanelApi.{User}
use mini_sb_xboard_agent.Counter.RateLimit.{new_rate_limiter}
use mini_sb_xboard_agent.Agent.Users.{
  LimiterPair, Clock, UserManager, VlessUser, new_user_manager, retire_all, enrol_all, enrol,
  retire, enrol_user, retire_user, update_limiter, mbps_to_bytes,
}
use mini_sb_xboard_agent.Agent.Users.Apply.{
  Inbound, vless, apply_box, apply_inbounds, apply_inbound, resolve, directional_limiters,
}
use mini_sb_xboard_agent.Agent.Users.Limits.{IsOwned, limit_of, limit_for, limit_for_known}
use mini_sb_xboard_agent.Agent.Users.Index.{IsCovered, owner_of, panel_user}
use mini_sb_xboard_agent.Agent.Users.Billing.{
  speeds, apply_box_bills, apply_box_keeps, apply_box_failed,
}
use mini_sb_xboard_agent.Agent.Users.Tables.{mem_text, mem_vless, any_entry, has_uuid}
use mini_sb_xboard_agent.Agent.Users.Accepted.{IsDistinct, apply_box_accepts}
use mini_sb_xboard_agent.Agent.Update.{Agent, update_users, update_keeps_counter}
use mini_sb_xboard_agent.Agent.Hook.{Hook}
use mini_sb_xboard_agent.Agent.Hook.Flush.{hook_traffic, counter_at}
use mini_sb_xboard_agent.Agent.Hook.Exact.{hook_calls, Flushed, flush_exact}

abbrev started : List Op
started = reads (lit "7") (pos 10) ∷ writes (lit "7") (pos 4) ∷ []

abbrev busy : TrafficCounter
busy = run_ops new_traffic_counter started

abbrev hook : Hook
hook = (lit "vless-in", busy) ∷ (lit "hy2-in", new_traffic_counter) ∷ []

abbrev meanwhile : List (Text × Op)
meanwhile =
    (lit "vless-in", reads (lit "7") (pos 3)) ∷ (lit "hy2-in", writes (lit "7") (pos 9)) ∷ []

abbrev refused : Result Text (Unit {0})
refused = err (lit "panel api push status 500")

abbrev push_refused : Delta → Result Text (Unit {0})
push_refused delta = refused

flush_exact_example :
    Flushed refused
      (lit "vless-in")
      (lit "7")
      (reads (lit "7") (pos 3) ∷ [])
      0
      10
      0
      4
      (flush hook_calls push_refused (hook_traffic meanwhile) hook)
unfolding run_ops step get_counter count_read count_write change view lookup put add64 wrap64
    text_beq is_numeric_user is_digit counter_at
flush_exact_example =
    flush_exact push_refused hook (lit "vless-in") (lit "7") meanwhile 0 10 0 4 (refl, (refl, tt))
      (run_refines started new_traffic_counter new_traffic_counter-IsValid).0 (tt, tt) refl refl
      (omega arith) (omega arith)

-- An inbound as the list of the UUIDs that it accepts.
abbrev forget : List Text → List Text → List Text × Result Text (Unit {0})
forget l w = (select (λ s. not (mem_text s l)) w, ok tt)

abbrev learn : List VlessUser → List Text → List Text × Result Text (Unit {0})
learn l w = (w ++ map VlessUser.uuid l, ok tt)

forget_lem :
    (l w : List Text) (v : Text) → mem_text v (forget l w).0 ≡ mem_text v w && not (mem_text v l)
unfolding select
forget_lem l [] v = refl
forget_lem l (s ∷ w) v = elim (Bool-cases (s == v)) [
  | inl same ↦ ground (arith, forget_lem l w v, ap (λ t. mem_text t l) (eq_of_beq s v same))
  | inr other ↦ ground (arith, forget_lem l w v)
]

learn_lem :
    (l : List VlessUser) (w : List Text) (v : Text)
    → mem_text v (learn l w).0 ≡ mem_text v w || mem_vless v l
learn_lem [] [] v = refl
learn_lem (u ∷ l) [] v = ground (arith, learn_lem l [] v)
learn_lem l (s ∷ w) v = ground (arith, learn_lem l w v)

abbrev inbounds : Map Text (Inbound (List Text) Text)
inbounds = (lit "vless-in", vless forget learn) ∷ []

abbrev panel_user_with : ℕ → Text → ℕ → User
panel_user_with id uuid limit = record {
  id = pos id;
  uuid = uuid;
  password = uuid;
  name = lit "u";
  speed_limit = pos limit;
}

abbrev no_limiters : LimiterPair
no_limiters = record { rx = new_rate_limiter 0 (pos 0); tx = new_rate_limiter 0 (pos 0) }

abbrev clock : Clock
clock id = (1, 2)

abbrev fresh : UserManager
fresh = new_user_manager (0, 0) (λ _. no_limiters) (pos 100)

fresh-IsOwned : IsOwned fresh
unfolding new_user_manager lookup
fresh-IsOwned = ((λ i a h. absurd (ground arith)), λ i j a h h'. absurd (ground arith))

fresh-IsCovered : IsCovered fresh
unfolding new_user_manager limit_of lookup
fresh-IsCovered j h = refl

abbrev first_users : List User
first_users = panel_user_with 5 (lit "a") 8 ∷ panel_user_with 6 (lit "b") 0 ∷ []

abbrev next_users : List User
next_users = panel_user_with 5 (lit "a2") 16 ∷ panel_user_with 9 (lit "c") 8 ∷ []

abbrev first : UserManager × List Text
first = (apply_box true clock inbounds first_users (fresh, [])).0

abbrev next : (UserManager × List Text) × Result Text (Unit {0})
next = apply_box true clock inbounds next_users (first.0, first.1)

first_done : (apply_box true clock inbounds first_users (fresh, [])).1 ≡ ok tt
unfolding apply_box apply_inbounds apply_inbound retire_all enrol_all new_user_manager enrol retire
    enrol_user retire_user lookup put update_limiter
first_done = refl

next_done : next.1 ≡ ok tt
unfolding apply_box apply_inbounds apply_inbound retire_all enrol_all new_user_manager enrol retire
    enrol_user retire_user lookup put update_limiter text_beq
next_done = refl

first_keeps : IsOwned first.0 × IsCovered first.0
first_keeps =
    apply_box_keeps true clock inbounds first_users fresh [] fresh-IsOwned fresh-IsCovered
      first_done

apply_box_keeps_example : IsOwned next.0.0 × IsCovered next.0.0
apply_box_keeps_example =
    apply_box_keeps true clock inbounds next_users first.0 first.1 first_keeps.0 first_keeps.1
      next_done

apply_box_bills_example :
    (resolve (lit "a2") next.0.0 ≡ lit "5")
    × (speeds (directional_limiters true (lit "a2") next.0.0).1
        ≡ some (pos 2_000_000, pos 2_000_000))
unfolding owner_of panel_user limit_for itoa text_beq mbps_to_bytes ◌*ℤ◌
apply_box_bills_example =
    apply_box_bills true clock inbounds next_users first.0 first.1 first_keeps.0 first_keeps.1
      next_done (lit "a2") refl

-- An inbound that refuses to learn.
abbrev refuse : List VlessUser → List Text → List Text × Result Text (Unit {0})
refuse l w = (w, err (lit "refused"))

abbrev refusing : (UserManager × List Text) × Result Text (Unit {0})
refusing =
    apply_box true clock ((lit "vless-in", vless forget refuse) ∷ []) next_users (first.0, first.1)

refusing_failed : refusing.1 ≡ err (lit "refused")
unfolding apply_box apply_inbounds apply_inbound retire_all enrol_all new_user_manager enrol retire
    enrol_user retire_user lookup put update_limiter text_beq
refusing_failed = refl

apply_box_failed_example :
    (refusing.0.0.users ≡ first.0.users)
    × (refusing.0.0.by_secret ≡ first.0.by_secret)
    × ((j : ℤ) → limit_of j refusing.0.0 ≡ limit_for_known true (panel_user j next_users) none)
apply_box_failed_example =
    apply_box_failed true clock ((lit "vless-in", vless forget refuse) ∷ []) next_users first.0
      first.1 first_keeps.0 first_keeps.1 refusing_failed

first-IsMap : IsMap first.0.users
unfolding apply_box apply_inbounds apply_inbound retire_all enrol_all new_user_manager enrol retire
    enrol_user retire_user lookup put update_limiter text_beq
first-IsMap = (refl, (refl, tt))

first-IsDistinct : IsDistinct first.0.users
unfolding apply_box apply_inbounds apply_inbound retire_all enrol_all new_user_manager enrol retire
    enrol_user retire_user lookup put update_limiter text_beq
first-IsDistinct i j a b h h' = ground (
  arith,
  int_eq.equal_iff (pos 5) i,
  int_eq.equal_iff (pos 6) i,
  int_eq.equal_iff (pos 5) j,
  int_eq.equal_iff (pos 6) j,
)

abbrev agent : Agent (List Text)
agent = record { manager = first.0; inbounds = first.1; hook = hook }

abbrev agent_next : Agent (List Text) × Result Text (Unit {0})
agent_next = update_users true clock inbounds next_users agent

agent_done : agent_next.1 ≡ ok tt
unfolding update_users apply_box apply_inbounds apply_inbound retire_all enrol_all new_user_manager
    enrol retire enrol_user retire_user lookup put update_limiter text_beq
agent_done = refl

update_keeps_counter_example :
    (resolve (lit "c") agent_next.0.manager ≡ lit "9")
    × ((c' : TrafficCounter) × (lookup (lit "vless-in") agent_next.0.hook ≡ some c')
        × (lookup (lit "9") c'.counters ≡ lookup (lit "9") busy.counters))
unfolding owner_of itoa text_beq lookup run_ops step get_counter put count_read count_write change
update_keeps_counter_example =
    update_keeps_counter true clock inbounds next_users agent (lit "c") (pos 9) (lit "vless-in")
      busy agent_done refl refl refl
      (run_refines started new_traffic_counter new_traffic_counter-IsValid).0.one_each

apply_box_accepts_example :
    mem_text (lit "a2") next.0.1 ≡ any_entry (has_uuid (lit "a2")) next.0.0.users
unfolding apply_box apply_inbounds apply_inbound retire_all enrol_all new_user_manager enrol retire
    enrol_user retire_user lookup put update_limiter text_beq
apply_box_accepts_example =
    apply_box_accepts (λ w v. mem_text v w) forget learn (λ l w v done. forget_lem l w v)
      (λ l w v done. learn_lem l w v) true clock (lit "vless-in") next_users first.0 first.1
      (lit "a2") refl first-IsMap first-IsDistinct refl next_done
