-- ===== src/Counter/Traffic/Connections/Exact.antt =====
-- What the pushes report of the connections' bytes (counter/counter.go).
use mini_sb_xboard_agent.Base.{ℕ, ◌+◌, ◌≤◌, ◌≡◌, [], All}
use mini_sb_xboard_agent.Base.Text.{Text, text_eq}
use mini_sb_xboard_agent.Counter.Traffic.{TrafficCounter, new_traffic_counter}
use mini_sb_xboard_agent.Counter.Traffic.Connections.{committed_all, Served}
use mini_sb_xboard_agent.Counter.Traffic.Connections.Pushes.{Turn, happens, pushes}
use mini_sb_xboard_agent.Counter.Traffic.Connections.Account.{IsTraffic, At}

-- Only a push commits, and no user is removed during one: the synchroniser does both, one after the
-- other.
abbrev pub IsSerial : Turn → Type 0
IsSerial (happens (committed_all snap u)) = ⊥
IsSerial (happens _) = Unit
IsSerial (pushes ok es) = All IsTraffic es

module _ (v : Text) where
  -- From p and r bytes committed and q and s bytes on top of them, with b and d more bytes: what was sent
  -- of them, and what is left.
  pub record Moved (g k p q r s b d : ℕ) (c : TrafficCounter) : Type 0 where
    pub old_up : ℕ
    pub new_up : ℕ
    pub old_down : ℕ
    pub new_down : ℕ
    pub at : At v old_up new_up old_down new_down c
    pub up : g + new_up ≡ q + b
    pub down : k + new_down ≡ s + d
    pub up_total : old_up + new_up ≤ p + (q + b)
    pub down_total : old_down + new_down ≤ r + (s + d)

abbrev pub no_traffic : Served
no_traffic = record { counter = new_traffic_counter; conns = [] }
