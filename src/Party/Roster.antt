-- ===== src/Party/Roster.antt =====
-- When a party and its players agree, and what disbanding leaves.
use baiak_fonticak.Base.{ℕ, ◌≤◌, ◌<◌, ◌≡◌, refl, ap, ◌∙◌, ◌≢◌, true, false, List, [], ◌∷◌}
use baiak_fonticak.Base.{arith, contains, count, contains-iff-count, ◌==◌, if◌then◌else◌}
use baiak_fonticak.Party.{Events, disband, Party, World, update, remove_all, set_party}
use baiak_fonticak.Party.{remove_party_invitation, remove_invitations, clear_parties}
use baiak_fonticak.Party.{update_shared_experience}

-- A living party and its players agree: exactly the leader and the members have it as their
-- party, each of them once, and exactly the invited players hold its invitation, once.
pub record IsConsistent (s : Party) : Type 0 where
  pub lives : s.alive ≡ true
  pub named : 0 < s.self
  pub roster :
      (q : ℕ) → count q (s.leader ∷ s.member_list) ≡ (if s.party_of q == s.self then 1 else 0)
  pub invited : (q : ℕ) → count q s.invite_list ≡ count s.self (s.invitations q)
  pub once : (q : ℕ) → count q s.invite_list ≤ 1

-- A deleted party that no player refers to, as its party or by an invitation.
pub record IsDissolved (s : Party) : Type 0 where
  pub deleted : s.alive ≡ false
  pub no_member : (q : ℕ) → s.party_of q ≢ s.self
  pub no_invitation : (q : ℕ) → count s.self (s.invitations q) ≡ 0

-- Sharing experience touches nothing else.
pub update_shared-shape :
    (w : World) (s : Party)
    → update_shared_experience w s
      ≡ record s { shared_exp_enabled = (update_shared_experience w s).shared_exp_enabled }
unfolding update_shared_experience
update_shared-shape w s = ground arith

pub update_shared-IsConsistent :
    (w : World) (s : Party) → IsConsistent s → IsConsistent (update_shared_experience w s)
update_shared-IsConsistent w s h = rw (update_shared-shape w s) (record {
  lives = h.lives;
  named = h.named;
  roster = h.roster;
  invited = h.invited;
  once = h.once;
})

pub count-remove_all :
    (a b : ℕ) (xs : List ℕ) → count a (remove_all b xs) ≡ (if a == b then 0 else count a xs)
count-remove_all a b [] = ground arith
count-remove_all a b (x ∷ xs) = ground (arith, count-remove_all a b xs)

clear_parties-party_of :
    (xs : List ℕ) (s : Party) (q : ℕ)
    → (clear_parties xs s).party_of q ≡ (if contains q xs then 0 else s.party_of q)
unfolding clear_parties
clear_parties-party_of [] s q = refl
clear_parties-party_of (x ∷ xs) s q = ground (arith, clear_parties-party_of xs (set_party x 0 s) q)

clear_parties-shape :
    (xs : List ℕ) (s : Party)
    → clear_parties xs s ≡ record s { party_of = (clear_parties xs s).party_of }
unfolding clear_parties
clear_parties-shape [] s = refl
clear_parties-shape (x ∷ xs) s = clear_parties-shape xs (set_party x 0 s)

remove_invitations-count :
    (xs : List ℕ) (s : Party) (q : ℕ)
    → count s.self ((remove_invitations xs s).invitations q)
      ≡ (if contains q xs then 0 else count s.self (s.invitations q))
unfolding remove_invitations remove_party_invitation
remove_invitations-count [] s q = refl
remove_invitations-count (x ∷ xs) s q = ground (
  arith,
  remove_invitations-count xs
      (record s { invitations = update s.invitations x (remove_all s.self (s.invitations x)) }) q,
  count-remove_all s.self s.self (s.invitations x),
)

remove_invitations-shape :
    (xs : List ℕ) (s : Party)
    → remove_invitations xs s ≡ record s { invitations = (remove_invitations xs s).invitations }
unfolding remove_invitations remove_party_invitation
remove_invitations-shape [] s = refl
remove_invitations-shape (x ∷ xs) s =
    remove_invitations-shape xs
      (record s { invitations = update s.invitations x (remove_all s.self (s.invitations x)) })

-- Every player that refers to the party is on one of its lists.
pub record IsCovered (s : Party) : Type 0 where
  pub living : s.alive ≡ true
  pub real : 0 < s.self
  pub members : (q : ℕ) → s.party_of q ≡ s.self → contains q (s.leader ∷ s.member_list) ≡ true
  pub invitees : (q : ℕ) → contains q s.invite_list ≡ false → count s.self (s.invitations q) ≡ 0

pub IsConsistent-IsCovered : (s : Party) → IsConsistent s → IsCovered s
IsConsistent-IsCovered s h = record {
  living = h.lives;
  real = h.named;
  members = λ q e. ground (arith, h.roster q, contains-iff-count q s.member_list);
  invitees = λ q e. ground (arith, h.invited q, contains-iff-count q s.invite_list);
}

-- What disbanding leaves of the references to the party.
pub disband-shape :
    (ev : Events) (s : Party)
    → ev.on_disband ≡ true
    → ((disband ev s).self ≡ s.self)
      × ((disband ev s).alive ≡ false)
      × ((q : ℕ)
          → (disband ev s).party_of q
            ≡ (if contains q (s.leader ∷ s.member_list) then 0 else s.party_of q))
      × ((q : ℕ)
          → count s.self ((disband ev s).invitations q)
            ≡ (if contains q s.invite_list then 0 else count s.self (s.invitations q)))
unfolding disband
disband-shape ev s allowed =
    let s1 = set_party s.leader 0 (record s { leader = 0 }) in
    let r = remove_invitations s.invite_list s1 in
    let s2 = record r { invite_list = [] } in
    let shape = remove_invitations-shape s.invite_list s1 in
    let cleared = clear_parties-shape s.member_list s2 in
    rw allowed (
      ap (λ (p : Party). p.self) cleared ∙ ap (λ (p : Party). p.self) shape,
      refl,
      λ q. ground (
        arith,
        clear_parties-party_of s.member_list s2 q,
        ap (λ (p : Party). p.party_of q) shape,
      ),
      λ q.
          ap (λ (p : Party). count s.self (p.invitations q)) cleared
          ∙ remove_invitations-count s.invite_list s1 q,
    )

-- Deleting a party whose lists cover its players leaves no reference to it.
pub disband-IsDissolved :
    (ev : Events) (s : Party) → ev.on_disband ≡ true → IsCovered s → IsDissolved (disband ev s)
disband-IsDissolved ev s allowed h =
    let (same, dead, parties, invited) = disband-shape ev s allowed in
    record {
      deleted = dead;
      no_member = λ q. ground (arith, same, parties q, h.members q, h.real);
      no_invitation = λ q.
          ap (λ n. count n ((disband ev s).invitations q)) same
          ∙ invited q
          ∙ ground (arith, h.invitees q);
    }
