-- ===== src/Conditions/Shares.antt =====
-- What one condition changes a value of its creature by (src/condition.cpp): its part is put in at
-- the start and taken out at the end, and a new condition of its key changes it by the difference.
use baiak_fonticak.Base.Words.{sub_u32, u32}
use baiak_fonticak.Base.{ℕ, ◌+◌, ◌≡◌, refl, sym, ap, ◌∙◌, Bool, false, not, ◌||◌, arith}
use baiak_fonticak.Base.{◌==◌}
use baiak_fonticak.Conditions.{Kind, generic, invisible, spell_cooldown}
use baiak_fonticak.Conditions.{spell_group_cooldown, attributes, regeneration, soul, damage}
use baiak_fonticak.Conditions.{speed, outfit, light, drunk, Condition, minus_one}
use baiak_fonticak.Conditions.Bearer.{Creature, World, start_kind, execute_kind, end_kind}
use baiak_fonticak.Conditions.Bearer.{with_percent, drawn}
use baiak_fonticak.Conditions.Lasting.{execute_base}
use baiak_fonticak.Conditions.Marks.{class, if_both, mark, class-mark}
use baiak_fonticak.Conditions.Steps.{mark-start_kind, mark-execute_kind}
use baiak_fonticak.Conditions.Gauges.{Gauge, part}

-- Only attributes and changes of speed have a part.
unfoldable pub has_part : ℕ → Bool
has_part n = n == 4 || n == 8

pub part-other : (g : Gauge) (p : Bool) (k : Kind) → has_part (class k) ≡ false → part g p k ≡ 0
unfolding part class has_part
part-other g p generic h = refl
part-other g p invisible h = refl
part-other g p spell_cooldown h = refl
part-other g p spell_group_cooldown h = refl
part-other g p (attributes a) h = ground arith
part-other g p (regeneration r) h = refl
part-other g p (soul v) h = refl
part-other g p (damage d) h = refl
part-other g p (speed v) h = ground arith
part-other g p (outfit o) h = refl
part-other g p (light l) h = refl
part-other g p (drunk n) h = refl

module _ (g : Gauge) where
  -- The condition that `c` became has no part, as `c` had none.
  pub part-became :
      (p : Bool) (c d : Condition) (k : Kind)
      → c.kind ≡ k
      → mark d ≡ mark c
      → has_part (class k) ≡ false
      → part g p d.kind ≡ 0
  part-became p c d k h e bare =
      part-other g p d.kind (ap has_part (class-mark d c e ∙ ap class h) ∙ bare)

  pub total-end_kind :
      (k : Kind) (s : Creature)
      → u32 (g.total (end_kind k s) + part g s.is_player k) ≡ u32 (g.total s)
  unfolding end_kind part
  total-end_kind generic s = omega arith
  total-end_kind invisible s = omega arith
  total-end_kind spell_cooldown s = omega arith
  total-end_kind spell_group_cooldown s = omega arith
  total-end_kind (attributes a) s = g.total-end_attributes a s
  total-end_kind (regeneration r) s = omega arith
  total-end_kind (soul v) s = omega arith
  total-end_kind (damage d) s = omega arith
  total-end_kind (speed v) s =
      let changed = g.total-change_speed (sub_u32 0 v.speed_delta) s in
      let taken = g.weigh_speed-sub 0 v.speed_delta in
      let nothing = g.weigh_speed-zero in omega arith
  total-end_kind (outfit o) s = omega arith
  total-end_kind (light l) s = omega arith
  total-end_kind (drunk n) s = let same = g.total-drunkenness s 0 in omega arith

  -- The two sides of a start that gives no part.
  pub started_lightly :
      (w : World) (c : Condition) (k : Kind) (s t : Creature)
      → c.kind ≡ k
      → has_part (class k) ≡ false
      → g.total t ≡ g.total s
      → u32 (g.total t) ≡ u32 (g.total s + part g s.is_player (start_kind w c k s).1.kind)
  started_lightly w c k s t h bare same =
      let e =
        part-became s.is_player c (start_kind w c k s).1 k h (mark-start_kind w c k s h) bare in
      omega arith

  pub total-start_kind :
      (w : World) (c : Condition) (k : Kind) (s : Creature)
      → c.kind ≡ k
      → u32 (g.total (start_kind w c k s).2)
        ≡ u32 (g.total s + part g s.is_player (start_kind w c k s).1.kind)
  unfolding start_kind part class has_part
  total-start_kind w c generic s h = started_lightly w c generic s s h refl refl
  total-start_kind w c invisible s h = started_lightly w c invisible s s h refl refl
  total-start_kind w c spell_cooldown s h = started_lightly w c spell_cooldown s s h refl refl
  total-start_kind w c spell_group_cooldown s h =
      started_lightly w c spell_group_cooldown s s h refl refl
  total-start_kind w c (attributes a) s h =
      let filled = with_percent w s a in
      let added =
        g.total-add_attributes filled (record s { use_defense = not a.disable_defense }) in
      let same = g.total-use_defense s (not a.disable_defense) in
      added ∙ ap (λ x. u32 (x + g.weigh s.is_player filled)) same
  total-start_kind w c (regeneration r) s h = started_lightly w c (regeneration r) s s h refl refl
  total-start_kind w c (soul v) s h = started_lightly w c (soul v) s s h refl refl
  total-start_kind w c (damage d) s h = started_lightly w c (damage d) s s h refl refl
  total-start_kind w c (speed v) s h = g.total-change_speed (drawn w v).speed_delta s
  total-start_kind w c (outfit o) s h = started_lightly w c (outfit o) s s h refl refl
  total-start_kind w c (light l) s h = started_lightly w c (light l) s s h refl refl
  total-start_kind w c (drunk n) s h =
      started_lightly w c (drunk n) s _ h refl (g.total-drunkenness s n)

  pub kind-execute_base : (now i : ℕ) (c : Condition) → (execute_base now i c).1.kind ≡ c.kind
  unfolding execute_base
  kind-execute_base now i c =
      if_both (λ (r : Bool × Condition). r.1.kind ≡ c.kind) (c.ticks == minus_one) refl refl

  pub executed_lightly :
      (w : World) (i : ℕ) (c : Condition) (q p : Bool) (k : Kind)
      → c.kind ≡ k
      → has_part (class k) ≡ false
      → part g p (execute_kind w i c q k).1.kind ≡ part g p k
  executed_lightly w i c q p k h bare =
      part-became p c _ k h (mark-execute_kind w i c q k h) bare ∙ sym (part-other g p k bare)

  pub part-execute_kind :
      (w : World) (i : ℕ) (c : Condition) (q p : Bool) (k : Kind)
      → c.kind ≡ k
      → part g p (execute_kind w i c q k).1.kind ≡ part g p k
  unfolding execute_kind class has_part
  part-execute_kind w i c q p generic h = executed_lightly w i c q p generic h refl
  part-execute_kind w i c q p invisible h = executed_lightly w i c q p invisible h refl
  part-execute_kind w i c q p spell_cooldown h = executed_lightly w i c q p spell_cooldown h refl
  part-execute_kind w i c q p spell_group_cooldown h =
      executed_lightly w i c q p spell_group_cooldown h refl
  part-execute_kind w i c q p (attributes a) h = ap (part g p) (kind-execute_base w.now i c ∙ h)
  part-execute_kind w i c q p (regeneration r) h =
      executed_lightly w i c q p (regeneration r) h refl
  part-execute_kind w i c q p (soul v) h = executed_lightly w i c q p (soul v) h refl
  part-execute_kind w i c q p (damage d) h = executed_lightly w i c q p (damage d) h refl
  part-execute_kind w i c q p (speed v) h = ap (part g p) (kind-execute_base w.now i c ∙ h)
  part-execute_kind w i c q p (outfit o) h = executed_lightly w i c q p (outfit o) h refl
  part-execute_kind w i c q p (light l) h = executed_lightly w i c q p (light l) h refl
  part-execute_kind w i c q p (drunk n) h = executed_lightly w i c q p (drunk n) h refl
