-- ===== src/Party/Keeping.antt =====
-- The operations that leave a party consistent: creating it, joining, inviting, passing the lead,
-- sharing experience.
use baiak_fonticak.Base.{ℕ, ◌<◌, ◌≡◌, refl, ◌≢◌, inl, inr, Bool, true, false, not, ◌&&◌}
use baiak_fonticak.Base.{◌||◌, List, [], ◌∷◌, arith, contains, count, count-append}
use baiak_fonticak.Base.{contains-iff-count, count-erase_first, ◌==◌, ◌!=◌, if◌then◌else◌}
use baiak_fonticak.Base.{Bool-cases}
use baiak_fonticak.Party.{Party, Events, World, remove_party_invitation}
use baiak_fonticak.Party.{add_party_invitation, create, is_player_invited}
use baiak_fonticak.Party.{can_enable_shared_experience, bool_eq}
use baiak_fonticak.Party.Members.{pass_party_leadership, join_party, invite_player}
use baiak_fonticak.Party.Members.{set_shared_experience, update_player_ticks}
use baiak_fonticak.Party.Roster.{IsConsistent, update_shared-IsConsistent, count-remove_all}

pub create-IsConsistent :
    (self leader : ℕ) (party_of : ℕ → ℕ) (invitations : ℕ → List ℕ)
    → 0 < self
    → ((q : ℕ) → party_of q ≢ self)
    → ((q : ℕ) → count self (invitations q) ≡ 0)
    → IsConsistent (create self leader party_of invitations)
unfolding create
create-IsConsistent self leader party_of invitations pos fresh unknown = record {
  lives = refl;
  named = pos;
  roster = λ q. ground (arith, fresh q);
  invited = λ q. ground (arith, unknown q);
  once = λ q. omega arith;
}

pub pass-IsConsistent :
    (ev : Events) (w : World) (player : ℕ) (force : Bool) (s : Party)
    → IsConsistent s
    → IsConsistent (pass_party_leadership ev w player force s).1
unfolding pass_party_leadership
pass-IsConsistent ev w player force s h =
    elim (Bool-cases (s.leader == player || s.party_of player != s.self)) [
      | inl refused ↦ rw refused h
      | inr proper ↦ elim (Bool-cases (not (ev.on_pass_leadership player) && not force)) [
        | inl vetoed ↦ rw (proper, vetoed) h
        | inr granted ↦
            rw (proper, granted)
              (update_shared-IsConsistent w _ (record {
                lives = h.lives;
                named = h.named;
                roster = λ q.
                    ground (
                      arith,
                      h.roster q,
                      h.roster player,
                      count-erase_first q player s.member_list,
                    );
                invited = h.invited;
                once = h.once;
              }))
      ]
    ]

-- A joining player has no party: Game::playerJoinParty has tested that.
pub join-IsConsistent :
    (ev : Events) (w : World) (player : ℕ) (s : Party)
    → s.party_of player ≡ 0
    → IsConsistent s
    → IsConsistent (join_party ev w player s).1
unfolding join_party is_player_invited remove_party_invitation
join-IsConsistent ev w player s free h = elim (Bool-cases (ev.on_join player)) [
  | inr vetoed ↦ rw vetoed h
  | inl granted ↦ elim (Bool-cases (contains player s.invite_list)) [
    | inr unknown ↦ rw (granted, unknown) h
    | inl found ↦
        rw (granted, found)
          (update_shared-IsConsistent w _ (record {
            lives = h.lives;
            named = h.named;
            roster = λ q.
                ground
                  (arith, h.roster q, h.named, free, count-append q s.member_list (player ∷ []));
            invited = λ q. ground (
              arith,
              h.invited q,
              h.once q,
              count-erase_first q player s.invite_list,
              count-remove_all s.self s.self (s.invitations q),
            );
            once = λ q. ground (arith, h.once q, count-erase_first q player s.invite_list);
          }))
  ]
]

pub invite-IsConsistent :
    (player : ℕ) (s : Party) → IsConsistent s → IsConsistent (invite_player player s).1
unfolding invite_player is_player_invited add_party_invitation
invite-IsConsistent player s h = elim (Bool-cases (contains player s.invite_list)) [
  | inl found ↦ rw found h
  | inr unknown ↦ elim (Bool-cases (contains s.self (s.invitations player))) [
    | inl known ↦ absurd (
        ground (
          arith,
          h.invited player,
          contains-iff-count player s.invite_list,
          contains-iff-count s.self (s.invitations player),
        ))
    | inr new ↦
        rw (unknown, new)
          (record {
            lives = h.lives;
            named = h.named;
            roster = h.roster;
            invited = λ q. ground (arith, h.invited q, count-append q s.invite_list (player ∷ []));
            once = λ q. ground (
              arith,
              h.once q,
              count-append q s.invite_list (player ∷ []),
              contains-iff-count player s.invite_list,
            );
          })
  ]
]

pub set_shared-IsConsistent :
    (w : World) (player : ℕ) (active : Bool) (s : Party)
    → IsConsistent s
    → IsConsistent (set_shared_experience w player active s).1
unfolding set_shared_experience
set_shared-IsConsistent w player active s h = elim (Bool-cases (s.leader != player)) [
  | inl other ↦ rw other h
  | inr same ↦ elim (Bool-cases (bool_eq s.shared_exp_active active)) [
    | inl old ↦ rw (same, old) h
    | inr new ↦ rw (same, new) (shared active)
  ]
]
  where
    shared :
        (b : Bool)
        → IsConsistent (
            if b
            then record (record s { shared_exp_active = b }) {
              shared_exp_enabled =
                  can_enable_shared_experience w (record s { shared_exp_active = b });
            }
            else record s { shared_exp_active = b })
    shared true = record {
      lives = h.lives;
      named = h.named;
      roster = h.roster;
      invited = h.invited;
      once = h.once;
    }
    shared false = record {
      lives = h.lives;
      named = h.named;
      roster = h.roster;
      invited = h.invited;
      once = h.once;
    }

pub ticks-IsConsistent :
    (w : World) (player points : ℕ) (s : Party)
    → IsConsistent s
    → IsConsistent (update_player_ticks w player points s)
unfolding update_player_ticks
ticks-IsConsistent w player points s h =
    elim (Bool-cases (points != 0 && not (w.not_gain_in_fight player))) [
      | inl counted ↦ rw counted (
          update_shared-IsConsistent w _ (record {
            lives = h.lives;
            named = h.named;
            roster = h.roster;
            invited = h.invited;
            once = h.once;
          }))
      | inr skipped ↦ rw skipped h
    ]
