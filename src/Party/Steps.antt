-- ===== src/Party/Steps.antt =====
-- The operations of a party as steps, and the agreement of the party with its players.
use baiak_fonticak.Base.{ℕ, ◌≡◌, inl, inr, Bool, true}
use baiak_fonticak.Party.{Party, Events, World, disband}
use baiak_fonticak.Party.Members.{clear_party_invitations, pass_party_leadership}
use baiak_fonticak.Party.Members.{leave_party, join_party, remove_invite, revoke_invitation}
use baiak_fonticak.Party.Members.{invite_player, set_shared_experience, update_player_ticks}
use baiak_fonticak.Party.Clearing.{clear-Outcome}
use baiak_fonticak.Party.Roster.{IsConsistent-IsCovered, disband-IsDissolved, IsConsistent}
use baiak_fonticak.Party.Keeping.{pass-IsConsistent, join-IsConsistent, invite-IsConsistent}
use baiak_fonticak.Party.Keeping.{set_shared-IsConsistent, ticks-IsConsistent}
use baiak_fonticak.Party.Leaving.{Outcome, leave-Outcome, remove_invite-Outcome}
use baiak_fonticak.Party.Leaving.{revoke-Outcome}

-- An operation on a party. `joins` carries what Game::playerJoinParty has tested before. The
-- removeInvite that leaves the invitation with the player is only a part of `clears`.
pub data Step (ev : Events) (w : World) (s : Party) : Party → Type 0 where
  leaves : (player : ℕ) → Step ev w s (leave_party ev w player s).1
  passes : (player : ℕ) (force : Bool) → Step ev w s (pass_party_leadership ev w player force s).1
  joins : (player : ℕ) → s.party_of player ≡ 0 → Step ev w s (join_party ev w player s).1
  invites : (player : ℕ) → Step ev w s (invite_player player s).1
  uninvites : (player : ℕ) → Step ev w s (remove_invite ev player true s).1
  clears : (player : ℕ) → Step ev w s (clear_party_invitations ev player s)
  disbands : Step ev w s (disband ev s)
  revokes : (player : ℕ) → Step ev w s (revoke_invitation ev player s)
  shares : (player : ℕ) (active : Bool) → Step ev w s (set_shared_experience w player active s).1
  ticks : (player points : ℕ) → Step ev w s (update_player_ticks w player points s)

-- Leaving, passing the lead, joining, inviting, taking an invitation back, giving one's
-- invitations back, revoking, disbanding, switching the sharing and gaining points, in whichever
-- branch, each keep a party consistent with its players, or delete the party and leave no player that
-- has it as its party or holds its invitation. The script event of disbanding is taken not to
-- veto, and a player who joins to have no party.
pub Step-Outcome :
    {ev : Events} {w : World} {s t : Party}
    → ev.on_disband ≡ true
    → IsConsistent s
    → Step ev w s t
    → Outcome t
Step-Outcome {ev} {w} {s} allowed h (leaves player) = leave-Outcome ev w player s allowed h
Step-Outcome {ev} {w} {s} allowed h (passes player force) =
    inl (pass-IsConsistent ev w player force s h)
Step-Outcome {ev} {w} {s} allowed h (joins player free) =
    inl (join-IsConsistent ev w player s free h)
Step-Outcome {s} allowed h (invites player) = inl (invite-IsConsistent player s h)
Step-Outcome {ev} {s} allowed h (uninvites player) = remove_invite-Outcome ev player s allowed h
Step-Outcome {ev} {s} allowed h (clears player) = clear-Outcome ev player s allowed h
Step-Outcome {ev} {s} allowed h disbands =
    inr (disband-IsDissolved ev s allowed (IsConsistent-IsCovered s h))
Step-Outcome {ev} {s} allowed h (revokes player) = revoke-Outcome ev player s allowed h
Step-Outcome {w} {s} allowed h (shares player active) =
    inl (set_shared-IsConsistent w player active s h)
Step-Outcome {w} {s} allowed h (ticks player points) = inl (ticks-IsConsistent w player points s h)
