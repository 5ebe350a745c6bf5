-- ===== src/Match.antt =====
-- command.c: the match types of a typed word against a token of a command, and their order.
pub mod Ipv4
pub mod Ipv4Prefix
pub mod Ipv6
pub mod Range
use qr_wireguard_ui.Base.{ℕ, ltb, if◌then◌else◌}

-- `enum match_type`, in the source's order.
pub data MatchType : Type 0 where
  no_match extend_match ipv4_prefix_match ipv4_match ipv6_prefix_match ipv6_match : MatchType
  range_match vararg_match partly_match exact_match : MatchType

-- The value of the enumeration constant.
unfoldable pub rank : MatchType → ℕ
rank no_match = 0
rank extend_match = 1
rank ipv4_prefix_match = 2
rank ipv4_match = 3
rank ipv6_prefix_match = 4
rank ipv6_match = 5
rank range_match = 6
rank vararg_match = 7
rank partly_match = 8
rank exact_match = 9

-- `if (match_type < t) match_type = t;`
unfoldable pub raise_to : MatchType → MatchType → MatchType
unfolding rank
raise_to t match_type = if ltb (rank match_type) (rank t) then t else match_type
