-- ===== src/Bans.antt =====
-- The limit on connections from one address, class Ban of src/ban.h and src/ban.cpp. The bans
-- of accounts and addresses that IOBan looks up are questions to the database.
pub mod Limits
pub mod Refusing
mod Examples
use baiak_fonticak.Base.{ℕ, zero, suc, ◌+◌, ◌-◌, ◌*◌, ◌/◌, ◌%◌, ◌^◌, ◌≤◌, ◌<◌, min, max}
use baiak_fonticak.Base.{bit_and, bit_or, bit_xor, String, ◌≡◌, refl, sym, ap, ap₂, subst}
use baiak_fonticak.Base.{fun_ext, ◌∙◌, ◌≢◌, ◌↔◌, ◌⊎◌, inl, inr, Bool, true, false, not, ◌&&◌}
use baiak_fonticak.Base.{◌||◌, Option, none, some, option_map, List, [], ◌∷◌, ◌++◌, map}
use baiak_fonticak.Base.{append-nil, append_assoc, arith, str_eq, length, is_empty}
use baiak_fonticak.Base.{get_elem?, set, get_or, take, drop, length-append, take_prefix}
use baiak_fonticak.Base.{drop_prefix, take-append-drop, length-take-le, length-drop-le}
use baiak_fonticak.Base.{length-set, All, contains, erase_first, IsDistinct, count-append}
use baiak_fonticak.Base.{contains-iff-count, count-erase_first, length-erase_first-le}
use baiak_fonticak.Base.{same_bytes, same_bytes_self, same_bytes_lem, ltb, leb, ◌==◌, ◌!=◌}
use baiak_fonticak.Base.{if◌then◌else◌, ltb→lt, lt→ltb, leb→le, le→leb, lt→leb_false}
use baiak_fonticak.Base.{lt→ltb_false, ==_iff, ==_self, tests, Bool-cases, Option-cases}
use baiak_fonticak.Base.Words.{sub_u64}

pub record ConnectBlock : Type 0 where
  pub last_attempt : ℕ
  pub block_time : ℕ
  pub count : ℕ

abbrev pub IpConnectMap : Type 0
IpConnectMap = ℕ → Option ConnectBlock

unfoldable pub put : ℕ → ConnectBlock → IpConnectMap → IpConnectMap
put ip block m k = if k == ip then some block else m k

-- A 64-bit difference, read as signed, is at most `n`.
unfoldable pub is_at_most : ℕ → ℕ → Bool
is_at_most n diff = leb (2 ^ 63) diff || leb diff n

-- The end of acceptConnection once the count of quick attempts has passed the limit or not.
unfoldable pub count_attempt : ℕ → ℕ → ConnectBlock → Bool × ConnectBlock
count_attempt now diff block =
    if ltb 5 block.count
    then (if is_at_most 500 diff
        then (false, record block { count = 0; block_time = (now + 3000) % 2 ^ 64 })
        else (true, record block { count = 0 }))
    else (true, block)

-- acceptConnection for an address that is in the map, at the time `now`.
unfoldable pub accept_again : ℕ → ConnectBlock → Bool × ConnectBlock
accept_again now block =
    let diff = sub_u64 now block.last_attempt in
    if ltb now block.block_time
    then (false, record block { block_time = (block.block_time + 250) % 2 ^ 64 })
    else if is_at_most 5000 diff
    then count_attempt now diff
        (record block { last_attempt = now; count = (block.count + 1) % 2 ^ 32 })
    else (true, record block { last_attempt = now; count = 1 })

unfoldable pub first_block : ℕ → ConnectBlock
first_block now = record { last_attempt = now; block_time = 0; count = 1 }

unfoldable pub accept_entry : ℕ → Option ConnectBlock → Bool × ConnectBlock
accept_entry now none = (true, first_block now)
accept_entry now (some block) = accept_again now block

unfoldable pub accept_connection : ℕ → ℕ → IpConnectMap → Bool × IpConnectMap
accept_connection now ip m =
    let (accepted, block) = accept_entry now (m ip) in (accepted, put ip block m)
