-- ===== src/PanelApi/Tests.antt =====
-- The theorems on panelapi/ at concrete inputs.
use mini_sb_xboard_agent.Base.{arith, ℕ, ◌≡◌, refl, none, some, List, [], ◌∷◌, ok}
use mini_sb_xboard_agent.Base.Int.{pos}
use mini_sb_xboard_agent.Base.Text.{Text, lit, itoa, is_digit, text_beq, to_lower}
use mini_sb_xboard_agent.Base.Map.{contains, put}
use mini_sb_xboard_agent.PanelApi.{User, Answer, fetch_users, fetch_from, merge_user, merge_users}
use mini_sb_xboard_agent.PanelApi.Client.{
  Client, Delta, push_request, matches_inbound, is_numeric_user,
}
use mini_sb_xboard_agent.PanelApi.Client.Amounts.{amounts_at, push_request_sums}
use mini_sb_xboard_agent.PanelApi.Merge.{count_id, fetch_users_count}

abbrev user : ℕ → Text → User
user id uuid = record {
  id = pos id;
  uuid = uuid;
  password = uuid;
  name = uuid;
  speed_limit = pos 0;
}

abbrev first_answer : List User
first_answer = user 5 (lit "a") ∷ user 0 (lit "b") ∷ []

abbrev second_answer : List User
second_answer = user 0 (lit "c") ∷ user 5 (lit "d") ∷ user 6 (lit "e") ∷ []

abbrev answers : List (Answer Text)
answers = some (ok first_answer) ∷ none ∷ some (ok second_answer) ∷ []

abbrev merged : List User
merged = user 5 (lit "a") ∷ user 0 (lit "b") ∷ user 0 (lit "c") ∷ user 6 (lit "e") ∷ []

fetched_merged : fetch_users answers ≡ ok merged
unfolding fetch_users fetch_from merge_users merge_user contains put
fetched_merged = refl

fetch_users_count_example : count_id (pos 5) merged ≡ 1
fetch_users_count_example = fetch_users_count (pos 5) answers fetched_merged

-- User 7 on two inbounds, of which one matches, and a user without a number.
abbrev delta : Delta
delta =
    (lit "vless-in", (lit "7", (pos 5, pos 6)) ∷ (lit "bob", (pos 1, pos 1)) ∷ [])
    ∷ (lit "hy2-in", (lit "7", (pos 100, pos 200)) ∷ [])
    ∷ []

abbrev client : Client
client = record {
  base_url = lit "https://panel";
  token = lit "t";
  node_id = lit "1";
  node_type = lit "vless";
}

push_request_sums_example : amounts_at (pos 7) (push_request client delta) ≡ (pos 5, pos 6)
unfolding is_numeric_user itoa is_digit matches_inbound text_beq to_lower
push_request_sums_example =
    push_request_sums client delta (pos 7) (omega arith) refl
      ((
        ((omega arith, omega arith), ((omega arith, omega arith), tt)),
        (((omega arith, omega arith), tt), tt),
      ))
      (
        ((λ _. (pos 7, omega arith, refl)), ((λ h. absurd (ground arith)), tt)),
        (((λ _. (pos 7, omega arith, refl)), tt), tt),
      )
      (omega arith) (omega arith)
