-- ===== src/Party/Leaving.antt =====
-- The operations after which a party may be empty: leaving and taking back an invitation.
use baiak_fonticak.Base.{ℕ, ◌≡◌, refl, sym, subst, ◌≢◌, ◌⊎◌, inl, inr, true, false, ◌&&◌}
use baiak_fonticak.Base.{◌||◌, List, [], ◌∷◌, arith, length, is_empty, contains, erase_first}
use baiak_fonticak.Base.{count, contains-iff-count, count-erase_first, ◌==◌, ◌!=◌}
use baiak_fonticak.Base.{if◌then◌else◌, ==_iff, Bool-cases}
use baiak_fonticak.Party.{Party, Events, World, remove_party_invitation, empty}
use baiak_fonticak.Party.{is_player_invited, disband, update_shared_experience}
use baiak_fonticak.Party.Members.{clear_player_points, pass_party_leadership}
use baiak_fonticak.Party.Members.{is_missing_leader, front, leave_tail, leave_party}
use baiak_fonticak.Party.Members.{remove_invite, revoke_invitation}
use baiak_fonticak.Party.Roster.{IsConsistent, IsDissolved, IsCovered}
use baiak_fonticak.Party.Roster.{update_shared-IsConsistent, IsConsistent-IsCovered}
use baiak_fonticak.Party.Roster.{disband-IsDissolved, update_shared-shape, count-remove_all}
use baiak_fonticak.Party.Keeping.{pass-IsConsistent}

abbrev pub Outcome : Party → Type 0
Outcome s = IsConsistent s ⊎ IsDissolved s

clear_points-shape :
    (w : World) (player : ℕ) (s : Party)
    → let t = clear_player_points w player s in
      t ≡ record s { ticks_map = t.ticks_map; shared_exp_enabled = t.shared_exp_enabled }
unfolding clear_player_points update_shared_experience
clear_points-shape w player s = ground arith

clear_points-IsConsistent :
    (w : World) (player : ℕ) (s : Party)
    → IsConsistent s
    → IsConsistent (clear_player_points w player s)
clear_points-IsConsistent w player s h = rw (clear_points-shape w player s) (record {
  lives = h.lives;
  named = h.named;
  roster = h.roster;
  invited = h.invited;
  once = h.once;
})

tail-IsCovered :
    (w : World) (player : ℕ) (s : Party)
    → IsCovered s
    → IsCovered (clear_player_points w player (update_shared_experience w s))
tail-IsCovered w player s h = rw (clear_points-shape w player (update_shared_experience w s)) (
    rw (update_shared-shape w s)
      (record { living = h.living; real = h.real; members = h.members; invitees = h.invitees }))

disband_if_empty :
    (ev : Events) (s : Party)
    → ev.on_disband ≡ true
    → IsConsistent s
    → Outcome (if empty s then disband ev s else s)
disband_if_empty ev s allowed h = elim (Bool-cases (empty s)) [
  | inl none_left ↦
      rw none_left (inr (disband-IsDissolved ev s allowed (IsConsistent-IsCovered s h)))
  | inr some_left ↦ rw some_left (inl h)
]

-- A player who is not the leader leaves.
leave_tail-member :
    (ev : Events) (w : World) (player : ℕ) (s : Party)
    → ev.on_disband ≡ true
    → s.leader ≢ player
    → IsConsistent s
    → Outcome (leave_tail ev w player false s)
unfolding leave_tail
leave_tail-member ev w player s allowed other h = disband_if_empty ev _ allowed (
    clear_points-IsConsistent w player _ (
      update_shared-IsConsistent w _ (record {
        lives = h.lives;
        named = h.named;
        roster = λ q.
            ground (
              arith,
              h.roster q,
              h.roster player,
              h.named,
              count-erase_first q player s.member_list,
            );
        invited = h.invited;
        once = h.once;
      })))

-- The leader leaves and nobody is left to lead.
leave_tail-leader :
    (ev : Events) (w : World) (player : ℕ) (s : Party)
    → ev.on_disband ≡ true
    → s.leader ≡ player
    → IsConsistent s
    → IsDissolved (leave_tail ev w player true s)
unfolding leave_tail
leave_tail-leader ev w player s allowed same h = disband-IsDissolved ev _ allowed (
    tail-IsCovered w player _ (record {
      living = h.lives;
      real = h.named;
      members = λ q e. ground (
        arith,
        h.roster q,
        h.roster player,
        h.named,
        count-erase_first q player s.member_list,
        contains-iff-count q (erase_first player s.member_list),
      );
      invitees = (IsConsistent-IsCovered s h).invitees;
    }))

-- The first member takes the lead.
pass_to_front :
    (ev : Events) (w : World) (s : Party) (x : ℕ) (xs : List ℕ)
    → s.member_list ≡ x ∷ xs
    → IsConsistent s
    → (pass_party_leadership ev w x true s).1.leader ≢ s.leader
unfolding pass_party_leadership update_shared_experience
pass_to_front ev w s x xs e h =
    let own : count x (s.leader ∷ x ∷ xs) ≡ (if s.party_of x == s.self then 1 else 0) =
      subst (λ l. count x (s.leader ∷ l) ≡ (if s.party_of x == s.self then 1 else 0)) e
        (h.roster x) in
    ground (arith, own)

leave_as_leader :
    (ev : Events) (w : World) (s : Party) (members : List ℕ)
    → s.member_list ≡ members
    → is_missing_leader s.leader s ≡ false
    → ev.on_disband ≡ true
    → IsConsistent s
    → Outcome (leave_tail ev w s.leader false (pass_party_leadership ev w (front members) true s).1)
unfolding is_missing_leader
leave_as_leader ev w s [] e led allowed h = absurd (
    subst
      (λ l.
        (s.leader == s.leader && (is_empty l || (length l == 1 && is_empty s.invite_list))) ≡ false
        → ⊥)
      (sym e) (λ f. ground arith) led)
leave_as_leader ev w s (x ∷ xs) e led allowed h =
    leave_tail-member ev w s.leader (pass_party_leadership ev w x true s).1 allowed
      (pass_to_front ev w s x xs e h) (pass-IsConsistent ev w x true s h)

pub leave-Outcome :
    (ev : Events) (w : World) (player : ℕ) (s : Party)
    → ev.on_disband ≡ true
    → IsConsistent s
    → Outcome (leave_party ev w player s).1
unfolding leave_party
leave-Outcome ev w player s allowed h =
    elim (Bool-cases (s.party_of player != s.self && s.leader != player)) [
      | inl stranger ↦ rw stranger (inl h)
      | inr own ↦ elim (Bool-cases (ev.on_leave player)) [
        | inr vetoed ↦ rw (own, vetoed) (inl h)
        | inl granted ↦ elim (Bool-cases (s.leader == player)) [
          | inr member ↦
              let led : is_missing_leader player s ≡ false =
                unfold is_missing_leader in rw member in
              rw (own, granted, member, led)
                (leave_tail-member ev w player s allowed (ground arith) h)
          | inl leads ↦ elim (Bool-cases (is_missing_leader player s)) [
            | inl missing ↦
                rw (own, granted, leads, missing)
                  (inr (leave_tail-leader ev w player s allowed ((==_iff _ _).0 leads) h))
            | inr led ↦
                rw (own, granted, leads, led)
                  (subst
                    (λ p.
                      is_missing_leader p s ≡ false
                      → Outcome (
                          leave_tail ev w p false
                            (pass_party_leadership ev w (front s.member_list) true s).1))
                    ((==_iff _ _).0 leads)
                    (λ f. leave_as_leader ev w s s.member_list refl f allowed h) led)
          ]
        ]
      ]
    ]

pub remove_invite-Outcome :
    (ev : Events) (player : ℕ) (s : Party)
    → ev.on_disband ≡ true
    → IsConsistent s
    → Outcome (remove_invite ev player true s).1
unfolding remove_invite is_player_invited remove_party_invitation
remove_invite-Outcome ev player s allowed h = elim (Bool-cases (contains player s.invite_list)) [
  | inr unknown ↦ rw unknown (inl h)
  | inl found ↦ rw found (
      disband_if_empty ev _ allowed (record {
        lives = h.lives;
        named = h.named;
        roster = h.roster;
        invited = λ q. ground (
          arith,
          h.invited q,
          h.once q,
          count-erase_first q player s.invite_list,
          count-remove_all s.self s.self (s.invitations q),
        );
        once = λ q. ground (arith, h.once q, count-erase_first q player s.invite_list);
      }))
]

pub revoke-Outcome :
    (ev : Events) (player : ℕ) (s : Party)
    → ev.on_disband ≡ true
    → IsConsistent s
    → Outcome (revoke_invitation ev player s)
unfolding revoke_invitation
revoke-Outcome ev player s allowed h = elim (Bool-cases (ev.on_revoke_invitation player)) [
  | inl granted ↦ rw granted (remove_invite-Outcome ev player s allowed h)
  | inr vetoed ↦ rw vetoed (inl h)
]
