-- ===== src/Conditions/Kinds.antt =====
-- Each class of conditions (src/condition.cpp) reads what it writes.
use baiak_fonticak.Base.{ℕ, ◌+◌, ◌-◌, ◌%◌, ◌^◌, ◌<◌, ◌≡◌, refl, sym, ap, ap₂, ◌∙◌, Bool}
use baiak_fonticak.Base.{true, some, List, [], ◌∷◌, ◌++◌, append-nil, append_assoc, arith}
use baiak_fonticak.Base.{All, ltb, ◌!=◌, if◌then◌else◌}
use baiak_fonticak.Conditions.{Regeneration, Soul, IntervalInfo, Damage, Speed, Light, Kind}
use baiak_fonticak.Conditions.{regeneration, soul, damage, speed, outfit, light, Condition}
use baiak_fonticak.Conditions.{minus_one, to_int64, set_ticks}
use baiak_fonticak.Base.Words.{add_u32}
use baiak_fonticak.Conditions.Writing.{kind_fields, intervals, of_interval, to_interval}
use baiak_fonticak.Conditions.Creating.{new_damage, new_regeneration}
use baiak_fonticak.Conditions.Reading.{kind_field, regeneration_field, soul_field}
use baiak_fonticak.Conditions.Reading.{damage_field, speed_field, outfit_field, light_field}
use baiak_fonticak.Conditions.Reading.{push_interval}
use baiak_fonticak.Conditions.Fields.{absorb, absorb_into}
use baiak_fonticak.Conditions.Restoring.{blank, kept, total, end_after, IsInterval}
use baiak_fonticak.Conditions.Restoring.{of_bool_back}

interval_back : (i : IntervalInfo) → IsInterval i → to_interval (of_interval i) ≡ i
unfolding to_interval of_interval
interval_back i h = ground (arith, h)

module _ (now id type sub_id : ℕ) (buff aggressive : Bool) where
  -- A condition with these scalars.
  abbrev pub shell : ℕ → ℕ → Kind → Condition
  shell ticks e k = record {
    id = id;
    type = type;
    ticks = ticks;
    end_time = e;
    is_buff = buff;
    sub_id = sub_id;
    aggressive = aggressive;
    kind = k;
  }

  pub absorb-regeneration :
      (ticks e : ℕ) (r : Regeneration)
      → absorb now (kind_fields (regeneration r)) (shell ticks e (blank (regeneration r)))
        ≡ some (shell ticks e (kept (regeneration r)))
  unfolding absorb absorb_into kind_fields blank kept kind_field regeneration_field new_regeneration
  absorb-regeneration ticks e r = refl

  pub absorb-soul :
      (ticks e : ℕ) (s : Soul)
      → absorb now (kind_fields (soul s)) (shell ticks e (blank (soul s)))
        ≡ some (shell ticks e (kept (soul s)))
  unfolding absorb absorb_into kind_fields blank kept kind_field soul_field
  absorb-soul ticks e s = refl

  pub absorb-speed :
      (ticks e : ℕ) (s : Speed)
      → absorb now (kind_fields (speed s)) (shell ticks e (blank (speed s)))
        ≡ some (shell ticks e (kept (speed s)))
  unfolding absorb absorb_into kind_fields blank kept kind_field speed_field
  absorb-speed ticks e s = refl

  pub absorb-outfit :
      (ticks e o : ℕ)
      → absorb now (kind_fields (outfit o)) (shell ticks e (blank (outfit o)))
        ≡ some (shell ticks e (kept (outfit o)))
  unfolding absorb absorb_into kind_fields blank kept kind_field outfit_field
  absorb-outfit ticks e o = refl

  pub absorb-light :
      (ticks e : ℕ) (l : Light)
      → l.level < 2 ^ 8
      → l.color < 2 ^ 8
      → absorb now (kind_fields (light l)) (shell ticks e (blank (light l)))
        ≡ some (shell ticks e (kept (light l)))
  unfolding absorb absorb_into kind_fields blank kept kind_field light_field
  absorb-light ticks e l h1 h2 =
      ap₂ (λ a b. some (shell ticks e (light (record l { level = a; color = b }))))
        (omega (arith, h1)) (omega (arith, h2))

  -- A damage on the way, with the intervals read so far.
  abbrev part : ℕ → ℕ → Damage → List IntervalInfo → Condition
  part ticks e d list = shell ticks e (damage (record d { damage_list = list }))

  pushed :
      (ticks e : ℕ) (d : Damage) (list : List IntervalInfo) (i : IntervalInfo)
      → ticks + i.interval < 2 ^ 31
      → push_interval now (record d { damage_list = list }) (part ticks e d list) i
        ≡ part (ticks + i.interval) ((ticks + i.interval + now) % 2 ^ 64) d (list ++ i ∷ [])
  unfolding push_interval set_ticks to_int64
  pushed ticks e d list i h =
      let alive : (ticks != minus_one) ≡ true = ground (arith, h) in
      let exact : add_u32 ticks i.interval ≡ ticks + i.interval = omega (arith, h) in
      let sign : ltb (ticks + i.interval) (2 ^ 31) ≡ true = ground (arith, h) in
      let longer = part ticks e d (list ++ i ∷ []) in
      ap (λ b. if b then set_ticks now (add_u32 ticks i.interval) longer else longer) alive
      ∙ ap (λ (t : ℕ). set_ticks now t longer) exact
      ∙ ap
          (λ (b : Bool).
            part (ticks + i.interval)
              (((if b then ticks + i.interval else ticks + i.interval + (2 ^ 64 - 2 ^ 32)) + now)
                % 2 ^ 64)
              d (list ++ i ∷ []))
          sign

  -- The end time after intervals that begin at `ticks`.
  end_from : ℕ → ℕ → List IntervalInfo → ℕ
  end_from ticks e [] = e
  end_from ticks e (i ∷ list) = (ticks + total (i ∷ list) + now) % 2 ^ 64

  end_later :
      (ticks e : ℕ) (i : IntervalInfo) (list : List IntervalInfo)
      → end_from (ticks + i.interval) ((ticks + i.interval + now) % 2 ^ 64) list
        ≡ end_from ticks e (i ∷ list)
  unfolding end_from total
  end_later ticks e i [] = omega arith
  end_later ticks e i (j ∷ list) = omega arith

  absorb-intervals :
      (ticks e : ℕ) (d : Damage) (before list : List IntervalInfo)
      → All IsInterval list
      → ticks + total list < 2 ^ 31
      → absorb now (intervals list) (part ticks e d before)
        ≡ some (part (ticks + total list) (end_from ticks e list) d (before ++ list))
  unfolding absorb absorb_into intervals kind_field damage_field total end_from
  absorb-intervals ticks e d before [] h fits =
      ap₂ (λ (t : ℕ) (l : List IntervalInfo). some (part t e d l)) (omega arith)
        (sym (append-nil before))
  absorb-intervals ticks e d before (i ∷ list) (h, hs) fits =
      let c = part ticks e d before in
      let d1 = record d { damage_list = before } in
      ap (λ (j : IntervalInfo). absorb now (intervals list) (push_interval now d1 c j))
        (interval_back i h)
      ∙ ap (absorb now (intervals list)) (pushed ticks e d before i (omega (arith, fits)))
      ∙ absorb-intervals (ticks + i.interval) ((ticks + i.interval + now) % 2 ^ 64) d
          (before ++ i ∷ []) list hs (omega (arith, fits))
      ∙ ap₂
          (λ (t : ℕ) (l : List IntervalInfo).
            some (
              part t (end_from (ticks + i.interval) ((ticks + i.interval + now) % 2 ^ 64) list) d
                l))
          (omega arith) (append_assoc before (i ∷ []) list)
      ∙ ap (λ (n : ℕ). some (part (ticks + (i.interval + total list)) n d (before ++ i ∷ list)))
          (end_later ticks e i list)

  from_zero : (list : List IntervalInfo) → end_from 0 0 list ≡ end_after now list
  unfolding end_from end_after
  from_zero [] = refl
  from_zero (i ∷ list) = omega arith

  pub absorb-damage :
      (d : Damage)
      → All IsInterval d.damage_list
      → total d.damage_list < 2 ^ 31
      → absorb now (kind_fields (damage d)) (shell 0 0 (blank (damage d)))
        ≡ some (shell (total d.damage_list) (end_after now d.damage_list) (kept (damage d)))
  unfolding absorb absorb_into kind_fields blank kept kind_field damage_field new_damage
  absorb-damage d h fits =
      let new = λ (b : Bool). record new_damage { delayed = b; period_damage = d.period_damage } in
      ap (λ (b : Bool). absorb now (intervals d.damage_list) (part 0 0 (new b) []))
        (of_bool_back d.delayed)
      ∙ absorb-intervals 0 0 (new d.delayed) [] d.damage_list h (omega (arith, fits))
      ∙ ap₂ (λ (t e : ℕ). some (part t e (new d.delayed) d.damage_list)) (omega arith)
          (from_zero d.damage_list)
