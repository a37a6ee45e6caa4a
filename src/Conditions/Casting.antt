-- ===== src/Conditions/Casting.antt =====
-- Conditions taken as one of their classes (src/condition.cpp, the casts of addCondition).
use baiak_fonticak.Base.{ℕ, Option, none, some}
use baiak_fonticak.Conditions.{Attributes, Regeneration, Soul, Damage, Speed, Light, Kind}
use baiak_fonticak.Conditions.{attributes, regeneration, soul, damage, speed, outfit, light}
use baiak_fonticak.Conditions.{drunk}

-- Conditions are cast to the class that the type of the one that is there has: none where the
-- other is of another class, which a creature's conditions never are.
unfoldable pub as_attributes : Kind → Option Attributes
as_attributes (attributes a) = some a
as_attributes k = none

unfoldable pub as_regeneration : Kind → Option Regeneration
as_regeneration (regeneration r) = some r
as_regeneration k = none

unfoldable pub as_soul : Kind → Option Soul
as_soul (soul v) = some v
as_soul k = none

unfoldable pub as_damage : Kind → Option Damage
as_damage (damage d) = some d
as_damage k = none

unfoldable pub as_speed : Kind → Option Speed
as_speed (speed v) = some v
as_speed k = none

unfoldable pub as_outfit : Kind → Option ℕ
as_outfit (outfit o) = some o
as_outfit k = none

unfoldable pub as_light : Kind → Option Light
as_light (light l) = some l
as_light k = none

unfoldable pub as_drunk : Kind → Option ℕ
as_drunk (drunk n) = some n
as_drunk k = none
