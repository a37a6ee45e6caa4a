-- ===== src/Party.antt =====
-- Parties of players (src/party.cpp, src/party.h), with what they change in players
-- (Player::setParty, addPartyInvitation, removePartyInvitation in src/player.h and src/player.cpp).
-- A player and a party are numbers that stand for their addresses, 0 for nullptr. `party_of` and
-- `invitations` are the fields `party` and `invitePartyList` of every player; `alive` turns false
-- at `delete this`. What is only sent to clients is left out. The script events that may refuse
-- an operation, the players' levels and places, the clock and the configuration are parameters.
pub mod Roster
pub mod Members
pub mod Keeping
pub mod Leaving
pub mod Clearing
pub mod Steps
pub mod Sharing
pub mod Examples
use baiak_fonticak.Base.{ℕ, zero, suc, ◌+◌, ◌-◌, ◌*◌, ◌/◌, ◌%◌, ◌^◌, ◌≤◌, ◌<◌, min, max}
use baiak_fonticak.Base.{bit_and, bit_or, bit_xor, String, ◌≡◌, refl, sym, ap, ap₂, subst}
use baiak_fonticak.Base.{fun_ext, ◌∙◌, ◌≢◌, ◌↔◌, ◌⊎◌, inl, inr, Bool, true, false, not, ◌&&◌}
use baiak_fonticak.Base.{◌||◌, Option, none, some, List, [], ◌∷◌, ◌++◌, map, append-nil}
use baiak_fonticak.Base.{append_assoc, arith, str_eq, length, is_empty, get_elem?, set}
use baiak_fonticak.Base.{get_or, take, drop, length-append, take_prefix, drop_prefix}
use baiak_fonticak.Base.{take-append-drop, length-take-le, length-drop-le, length-set, All}
use baiak_fonticak.Base.{contains, erase_first, count, IsDistinct, count-append}
use baiak_fonticak.Base.{contains-iff-count, count-erase_first, length-erase_first-le, ltb}
use baiak_fonticak.Base.{leb, ◌==◌, ◌!=◌, if◌then◌else◌, ltb→lt, lt→ltb, leb→le, le→leb}
use baiak_fonticak.Base.{lt→leb_false, lt→ltb_false, ==_iff, ==_self, tests, Bool-cases}
use baiak_fonticak.Base.{Option-cases}
use baiak_fonticak.World.Position.{Position, are_in_range_z}

pub record Party : Type 0 where
  pub self : ℕ
  pub alive : Bool
  pub leader : ℕ
  pub member_list : List ℕ
  pub invite_list : List ℕ
  pub ticks_map : ℕ → Option ℕ
  pub shared_exp_active : Bool
  pub shared_exp_enabled : Bool
  pub party_of : ℕ → ℕ
  pub invitations : ℕ → List ℕ

-- g_events->eventPartyOn...: whether the script lets the operation go on.
pub record Events : Type 0 where
  pub on_disband : Bool
  pub on_leave : ℕ → Bool
  pub on_pass_leadership : ℕ → Bool
  pub on_join : ℕ → Bool
  pub on_revoke_invitation : ℕ → Bool

-- What canUseSharedExperience reads of players, of the clock and of the configuration.
pub record World : Type 0 where
  pub level : ℕ → ℕ
  pub position : ℕ → Position
  pub not_gain_in_fight : ℕ → Bool
  pub now : ℕ
  pub pz_locked : ℕ

abbrev pub update {ℓ} : {A : Type ℓ} → (ℕ → A) → ℕ → A → ℕ → A
update f k v i = if i == k then v else f i

-- std::list::remove
abbrev pub remove_all : ℕ → List ℕ → List ℕ
remove_all a [] = []
remove_all a (x ∷ xs) = if x == a then remove_all a xs else x ∷ remove_all a xs

abbrev pub set_party : ℕ → ℕ → Party → Party
set_party player party s = record s { party_of = update s.party_of player party }

unfoldable pub remove_party_invitation : ℕ → Party → Party
remove_party_invitation player s = record s {
  invitations = update s.invitations player (remove_all s.self (s.invitations player));
}

unfoldable pub add_party_invitation : ℕ → Party → Party
add_party_invitation player s =
    if contains s.self (s.invitations player)
    then s
    else record s { invitations = update s.invitations player (s.self ∷ s.invitations player) }

-- Party::Party(leader), at a fresh address.
unfoldable pub create : ℕ → ℕ → (ℕ → ℕ) → (ℕ → List ℕ) → Party
create self leader party_of invitations = record {
  self = self;
  alive = true;
  leader = leader;
  member_list = [];
  invite_list = [];
  ticks_map = λ i. none;
  shared_exp_active = false;
  shared_exp_enabled = false;
  party_of = update party_of leader self;
  invitations = invitations;
}

unfoldable pub empty : Party → Bool
empty s = is_empty s.member_list && is_empty s.invite_list

unfoldable pub is_player_invited : ℕ → Party → Bool
is_player_invited player s = contains player s.invite_list

-- The loops of disband over the invited players and over the members.
unfoldable pub remove_invitations : List ℕ → Party → Party
remove_invitations [] s = s
remove_invitations (invitee ∷ rest) s = remove_invitations rest (remove_party_invitation invitee s)

unfoldable pub clear_parties : List ℕ → Party → Party
clear_parties [] s = s
clear_parties (member ∷ rest) s = clear_parties rest (set_party member 0 s)

unfoldable pub disband : Events → Party → Party
disband ev s =
    if ev.on_disband
    then (let s1 = set_party s.leader 0 (record s { leader = 0 }) in
        let s2 = record (remove_invitations s.invite_list s1) { invite_list = [] } in
        let s3 = record (clear_parties s.member_list s2) { member_list = [] } in
        record s3 { alive = false })
    else s

-- The highest level, from the leader's on.
unfoldable pub highest_level : (ℕ → ℕ) → ℕ → List ℕ → ℕ
highest_level level highest [] = highest
highest_level level highest (member ∷ rest) =
    highest_level level (if ltb highest (level member) then level member else highest) rest

-- OTSYS_TIME() - it->second as a uint64_t, against PZ_LOCKED.
unfoldable pub is_active_since : World → Option ℕ → Bool
is_active_since w none = false
is_active_since w (some tick) =
    if ltb w.pz_locked ((w.now + 2 ^ 64 - tick) % 2 ^ 64) then false else true

-- The smallest level is the ceiling of two thirds of the highest, which the float computes
-- exactly for levels below 2 ^ 23.
unfoldable pub can_use_shared_experience : World → ℕ → Party → Bool
can_use_shared_experience w player s =
    if is_empty s.member_list
    then false
    else if ltb (w.level player)
        ((highest_level w.level (w.level s.leader) s.member_list * 2 + 2) / 3)
    then false
    else if not (are_in_range_z 30 30 1 (w.position s.leader) (w.position player))
    then false
    else if w.not_gain_in_fight player
    then true
    else is_active_since w (s.ticks_map player)

unfoldable pub all_can_use : World → List ℕ → Party → Bool
all_can_use w [] s = true
all_can_use w (member ∷ rest) s =
    if can_use_shared_experience w member s then all_can_use w rest s else false

unfoldable pub can_enable_shared_experience : World → Party → Bool
can_enable_shared_experience w s =
    if can_use_shared_experience w s.leader s then all_can_use w s.member_list s else false

abbrev pub bool_eq : Bool → Bool → Bool
bool_eq true b = b
bool_eq false b = not b

unfoldable pub update_shared_experience : World → Party → Party
update_shared_experience w s =
    if s.shared_exp_active
    then (let result = can_enable_shared_experience w s in
        if bool_eq result s.shared_exp_enabled then s else record s { shared_exp_enabled = result })
    else s
