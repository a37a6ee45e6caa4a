-- ===== src/Conditions/Params.antt =====
-- The parameters of conditions (src/enums.h, ConditionParam_t).
use baiak_fonticak.Base.{ℕ}

abbrev pub owner_param : ℕ
owner_param = 1

abbrev pub ticks_param : ℕ
ticks_param = 2

abbrev pub healthgain_param : ℕ
healthgain_param = 4

abbrev pub healthticks_param : ℕ
healthticks_param = 5

abbrev pub managain_param : ℕ
managain_param = 6

abbrev pub manaticks_param : ℕ
manaticks_param = 7

abbrev pub delayed_param : ℕ
delayed_param = 8

abbrev pub speed_param : ℕ
speed_param = 9

abbrev pub light_level_param : ℕ
light_level_param = 10

abbrev pub light_color_param : ℕ
light_color_param = 11

abbrev pub soulgain_param : ℕ
soulgain_param = 12

abbrev pub soulticks_param : ℕ
soulticks_param = 13

abbrev pub minvalue_param : ℕ
minvalue_param = 14

abbrev pub maxvalue_param : ℕ
maxvalue_param = 15

abbrev pub startvalue_param : ℕ
startvalue_param = 16

abbrev pub tickinterval_param : ℕ
tickinterval_param = 17

abbrev pub forceupdate_param : ℕ
forceupdate_param = 18

abbrev pub skill_melee_param : ℕ
skill_melee_param = 19

abbrev pub skill_fist_param : ℕ
skill_fist_param = 20

abbrev pub skill_club_param : ℕ
skill_club_param = 21

abbrev pub skill_sword_param : ℕ
skill_sword_param = 22

abbrev pub skill_axe_param : ℕ
skill_axe_param = 23

abbrev pub skill_distance_param : ℕ
skill_distance_param = 24

abbrev pub skill_shield_param : ℕ
skill_shield_param = 25

abbrev pub skill_fishing_param : ℕ
skill_fishing_param = 26

abbrev pub stat_maxhitpoints_param : ℕ
stat_maxhitpoints_param = 27

abbrev pub stat_maxmanapoints_param : ℕ
stat_maxmanapoints_param = 28

abbrev pub stat_magicpoints_param : ℕ
stat_magicpoints_param = 30

abbrev pub stat_maxhitpointspercent_param : ℕ
stat_maxhitpointspercent_param = 31

abbrev pub stat_maxmanapointspercent_param : ℕ
stat_maxmanapointspercent_param = 32

abbrev pub stat_magicpointspercent_param : ℕ
stat_magicpointspercent_param = 34

abbrev pub periodicdamage_param : ℕ
periodicdamage_param = 35

abbrev pub skill_meleepercent_param : ℕ
skill_meleepercent_param = 36

abbrev pub skill_fistpercent_param : ℕ
skill_fistpercent_param = 37

abbrev pub skill_clubpercent_param : ℕ
skill_clubpercent_param = 38

abbrev pub skill_swordpercent_param : ℕ
skill_swordpercent_param = 39

abbrev pub skill_axepercent_param : ℕ
skill_axepercent_param = 40

abbrev pub skill_distancepercent_param : ℕ
skill_distancepercent_param = 41

abbrev pub skill_shieldpercent_param : ℕ
skill_shieldpercent_param = 42

abbrev pub skill_fishingpercent_param : ℕ
skill_fishingpercent_param = 43

abbrev pub buff_spell_param : ℕ
buff_spell_param = 44

abbrev pub subid_param : ℕ
subid_param = 45

abbrev pub field_param : ℕ
field_param = 46

abbrev pub disable_defense_param : ℕ
disable_defense_param = 47

abbrev pub specialskill_criticalhitchance_param : ℕ
specialskill_criticalhitchance_param = 48

abbrev pub specialskill_criticalhitamount_param : ℕ
specialskill_criticalhitamount_param = 49

abbrev pub specialskill_lifeleechchance_param : ℕ
specialskill_lifeleechchance_param = 50

abbrev pub specialskill_lifeleechamount_param : ℕ
specialskill_lifeleechamount_param = 51

abbrev pub specialskill_manaleechchance_param : ℕ
specialskill_manaleechchance_param = 52

abbrev pub specialskill_manaleechamount_param : ℕ
specialskill_manaleechamount_param = 53

abbrev pub aggressive_param : ℕ
aggressive_param = 54

abbrev pub drunkenness_param : ℕ
drunkenness_param = 55
