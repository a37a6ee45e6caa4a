-- ===== src/Conditions/Single.antt =====
-- One saved condition is loaded (src/condition.cpp).
use baiak_fonticak.Base.{ℕ, ◌-◌, ◌^◌, ◌<◌, ◌≡◌, refl, ap, ◌∙◌, Bool, true, false, some, List}
use baiak_fonticak.Base.{[], ◌∷◌, arith, All, ◌==◌, if◌then◌else◌}
use baiak_fonticak.Conditions.{Kind, generic, invisible, spell_cooldown}
use baiak_fonticak.Conditions.{spell_group_cooldown, attributes, regeneration, soul, damage}
use baiak_fonticak.Conditions.{speed, outfit, light, drunk, Condition, minus_one}
use baiak_fonticak.Conditions.Codes.{type_attr, id_attr, ticks_attr, is_buff_attr}
use baiak_fonticak.Conditions.Codes.{sub_id_attr, is_aggressive_attr}
use baiak_fonticak.Base.Words.{u8}
use baiak_fonticak.Conditions.Writing.{written, base_fields, kind_fields, of_bool, wide_id}
use baiak_fonticak.Conditions.Creating.{new_condition, create_kind, create_condition}
use baiak_fonticak.Conditions.Creating.{ticks_of, aggressive_of}
use baiak_fonticak.Conditions.Loading.{create_from}
use baiak_fonticak.Conditions.Fields.{absorb, onto, IsWritable, expect_lem}
use baiak_fonticak.Conditions.Restoring.{blank, kept, kept_ticks, new_end, IsKindSound}
use baiak_fonticak.Conditions.Restoring.{of_bool_back}
use baiak_fonticak.Conditions.Kinds.{shell, absorb-regeneration, absorb-soul, absorb-speed}
use baiak_fonticak.Conditions.Kinds.{absorb-outfit, absorb-light, absorb-damage}
use baiak_fonticak.Conditions.Arrays.{absorb-attributes}

-- A condition that fits its fields: its type is one of its class, numbers fit their words, and
-- what its class writes fits as well.
pub record IsSound (c : Condition) : Type 0 where
  pub known : create_kind c.type 0 ≡ some (blank c.kind)
  pub id_fits : c.id < 2 ^ 8
  pub type_fits : c.type < 2 ^ 32
  pub ticks_fit : c.ticks < 2 ^ 32
  pub sub_id_fits : c.sub_id < 2 ^ 32
  pub fields_fit : All IsWritable (kind_fields c.kind)
  pub kind_sound : IsKindSound c.kind

module _ (now id type sub_id : ℕ) (buff aggressive : Bool) (ticks : ℕ)
    (alive : (ticks == minus_one) ≡ false) where
  abbrev created : Kind → Condition
  created k = new_condition id type ticks buff sub_id aggressive k

  -- A condition that was just created has no end time.
  abbrev starts : Kind → Bool → Bool → Condition
  starts k agg b = shell now id type sub_id buff agg ticks (if b then 2 ^ 63 - 1 else 0) k

  pub absorb_kind :
      (k : Kind)
      → IsKindSound k
      → absorb now (kind_fields k) (created (blank k))
        ≡ some (
            shell now id type sub_id buff
              (aggressive_of k aggressive)
              (kept_ticks k ticks)
              (new_end now k)
              (kept k))
  unfolding blank kept kept_ticks new_end aggressive_of ticks_of new_condition kind_fields absorb
      IsKindSound
  absorb_kind generic h = ap (λ b. some (starts generic aggressive b)) alive
  absorb_kind invisible h = ap (λ b. some (starts invisible aggressive b)) alive
  absorb_kind spell_cooldown h = ap (λ b. some (starts spell_cooldown false b)) alive
  absorb_kind spell_group_cooldown h = ap (λ b. some (starts spell_group_cooldown false b)) alive
  absorb_kind (attributes a) h =
      ap (λ b. absorb now (kind_fields (attributes a)) (starts (blank (attributes a)) aggressive b))
        alive
      ∙ absorb-attributes now id type sub_id buff aggressive ticks 0 a h.0 h.1 h.2
  absorb_kind (regeneration r) h =
      ap
        (λ b.
          absorb now (kind_fields (regeneration r)) (starts (blank (regeneration r)) aggressive b))
        alive
      ∙ absorb-regeneration now id type sub_id buff aggressive ticks 0 r
  absorb_kind (soul s) h =
      ap (λ b. absorb now (kind_fields (soul s)) (starts (blank (soul s)) aggressive b)) alive
      ∙ absorb-soul now id type sub_id buff aggressive ticks 0 s
  absorb_kind (damage d) h = absorb-damage now id type sub_id buff aggressive d h.0 h.1
  absorb_kind (speed s) h =
      ap (λ b. absorb now (kind_fields (speed s)) (starts (blank (speed s)) aggressive b)) alive
      ∙ absorb-speed now id type sub_id buff aggressive ticks 0 s
  absorb_kind (outfit o) h =
      ap (λ b. absorb now (kind_fields (outfit o)) (starts (blank (outfit o)) aggressive b)) alive
      ∙ absorb-outfit now id type sub_id buff aggressive ticks 0 o
  absorb_kind (light l) h =
      ap (λ b. absorb now (kind_fields (light l)) (starts (blank (light l)) aggressive b)) alive
      ∙ absorb-light now id type sub_id buff aggressive ticks 0 l h.0 h.1
  absorb_kind (drunk n) h = ap (λ b. some (starts (drunk 25) aggressive b)) alive

id_back : (id : ℕ) → id < 2 ^ 8 → u8 (wide_id id) ≡ id
unfolding wide_id
id_back id h = ground (arith, h)

wide_id_fits : (id : ℕ) → id < 2 ^ 8 → wide_id id < 256 ^ 4
unfolding wide_id
wide_id_fits id h = ground (arith, h)

of_bool_fits : (b : Bool) → of_bool b < 256 ^ 1
unfolding of_bool
of_bool_fits true = omega arith
of_bool_fits false = omega arith

-- The six attributes that every condition begins with.
pub create_from-base :
    (c : Condition) (rest : List ℕ)
    → IsSound c
    → create_from (onto (base_fields c) rest)
      ≡ some
          (new_condition c.id c.type c.ticks c.is_buff c.sub_id c.aggressive (blank c.kind), rest)
unfolding create_from onto base_fields create_condition
create_from-base c rest h =
    let r1 = onto (written is_aggressive_attr 1 (of_bool c.aggressive) ∷ []) rest in
    let r2 = onto (written sub_id_attr 4 c.sub_id ∷ []) r1 in
    let r3 = onto (written is_buff_attr 1 (of_bool c.is_buff) ∷ []) r2 in
    let r4 = onto (written ticks_attr 4 c.ticks ∷ []) r3 in
    let r5 = onto (written id_attr 4 (wide_id c.id) ∷ []) r4 in
    let e1 = expect_lem type_attr 4 c.type r5 h.type_fits in
    let e2 = expect_lem id_attr 4 (wide_id c.id) r4 (wide_id_fits c.id h.id_fits) in
    let e3 = expect_lem ticks_attr 4 c.ticks r3 h.ticks_fit in
    let e4 = expect_lem is_buff_attr 1 (of_bool c.is_buff) r2 (of_bool_fits c.is_buff) in
    let e5 = expect_lem sub_id_attr 4 c.sub_id r1 h.sub_id_fits in
    let e6 =
      expect_lem is_aggressive_attr 1 (of_bool c.aggressive) rest (of_bool_fits c.aggressive) in
    rw e1 (
      rw e2 (
        rw e3 (
          rw e4 (
            rw e5 (
              rw e6 (
                rw (id_back c.id h.id_fits) (
                  rw (of_bool_back c.is_buff)
                    (rw (of_bool_back c.aggressive) (rw h.known refl)))))))))

pub base-IsWritable : (c : Condition) → IsSound c → All IsWritable (base_fields c)
unfolding base_fields
base-IsWritable c h =
    omega (arith, wide_id_fits c.id h.id_fits, of_bool_fits c.is_buff, of_bool_fits c.aggressive)
