-- ===== src/TinyXboard/NodeType.antt =====
-- The node types of tiny-xboard/store.go (`normalizeNodeType`) and tiny-xboard/auth.go
-- (`matchNodeType`).
use mini_sb_xboard_agent.Base.{Bool, true, ◌||◌, ◌==◌, if◌then◌else◌}
use mini_sb_xboard_agent.Base.Text.{Text, lit, text_eq, to_lower, trim_space}

abbrev pub vless : Text
vless = lit "vless"

abbrev pub hy2 : Text
hy2 = lit "hy2"

abbrev pub both : Text
both = lit "both"

-- The `switch` on the cleaned text. The agent's `normalizeNodeMode` has the same cases.
canonical : Text → Text
canonical t =
    if t == vless || t == lit "vless-reality" || t == lit "reality"
    then vless
    else if t == hy2 || t == lit "hysteria" || t == lit "hysteria2"
    then hy2
    else if t == both || t == lit "dual" || t == lit "all"
    then both
    else t

unfoldable pub normalize_node_type : Text → Text
unfolding canonical
normalize_node_type t = canonical (to_lower (trim_space t))

unfoldable pub match_node_type : Text → Text → Bool
match_node_type cfg_type requested =
    let cfg = normalize_node_type cfg_type in
    if cfg == both then true else cfg == normalize_node_type requested

-- `case "vless", "hy2", "both":`
unfoldable pub is_served_type : Text → Bool
is_served_type t = let n = normalize_node_type t in n == vless || n == hy2 || n == both
