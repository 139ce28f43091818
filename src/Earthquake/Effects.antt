-- ===== src/Earthquake/Effects.antt =====
-- EARTHQUAKE.cpp, the texts of a report: `three`, which is the same for an intensity whether it was
-- found by PGA or by PGV, and the sentences round it.
use live_streamer.Common.{ℕ, String, List, [], ◌∷◌, ◌++◌}
use live_streamer.Text.{Text, codes}

unfoldable pub concat : List String → Text
concat [] = []
concat (s ∷ ss) = codes s ++ concat ss

-- The effects of each intensity.
pub data Intensity : Type 0 where
  i ii iii iv v vi vii viii ix x xi xii : Intensity

unfoldable pub number : Intensity → ℕ
number Intensity.i = 1
number Intensity.ii = 2
number Intensity.iii = 3
number Intensity.iv = 4
number Intensity.v = 5
number Intensity.vi = 6
number Intensity.vii = 7
number Intensity.viii = 8
number Intensity.ix = 9
number Intensity.x = 10
number Intensity.xi = 11
number Intensity.xii = 12

-- `one` up to the intensity.
unfoldable pub numeral : Intensity → String
numeral Intensity.i = "1"
numeral Intensity.ii = "2"
numeral Intensity.iii = "3"
numeral Intensity.iv = "4"
numeral Intensity.v = "5"
numeral Intensity.vi = "6"
numeral Intensity.vii = "7"
numeral Intensity.viii = "8"
numeral Intensity.ix = "9"
numeral Intensity.x = "10"
numeral Intensity.xi = "11"
numeral Intensity.xii = "12"

-- `three`
unfoldable pub effect : Intensity → Text
effect Intensity.i =
    concat (
      "\nThis Earthquake is not felt except by a few under especially favorable circumstances."
      ∷ [])
effect Intensity.ii = concat (
    "\nFelt only by a few persons at rest, especially on upper floors of buildings. Delicately "
    ∷ "suspended objects may swing." ∷ [])
effect Intensity.iii = concat (
    "\nFelt quite noticeably indoors, especially on upper floors of buildings, but many people "
    ∷ "do not recognize it as an earthquake."
    ∷ "\nStanding automobiles may rock slightly. Vibrations like passing of truck." ∷ [])
effect Intensity.iv = concat (
    "\nDuring the day felt indoors by many, outdoors by few. At night some awakened."
    ∷ "\nDishes, windows, doors disturbed,walls make creaking sound."
    ∷ "\nSensation like heavy truck striking building. Standing automobiles rocked noticeable."
    ∷ [])
effect Intensity.v = concat (
    "\nFelt by nearly everyone, many awakened. Some dishes, windows, and so on broken,cracked "
    ∷ "plaster in a few places,unstable objects overturned."
    ∷ "\nDisturbances of trees, poles, and other tall objects sometimes noticed. Pendulum clocks "
    ∷ "may stop." ∷ [])
effect Intensity.vi = concat (
    "\nFelt by all, many frightened and run outdoors."
    ∷ "\nSome heavy furniture moved a few instances of fallen plaster and damaged chimneys. "
    ∷ "Damage slight." ∷ [])
effect Intensity.vii = concat (
    "\nEverybody runs outdoors. Damage negligible in buildings of good design and construction,"
    ∷ "\nslight to moderate in well-built ordinary structures, considerable in poorly built or "
    ∷ "badly designed structures," ∷ "\nsome chimneys broken. Noticed by persons driving cars."
    ∷ [])
effect Intensity.viii = concat (
    "\nDamage slight in specially designed structures, considerable in ordinary substantial "
    ∷ "buildings with partial collapse,"
    ∷ "\ngreat in poorly built structures. Panel walls thrown out of frame structures. Fall of "
    ∷ "chimneys,"
    ∷ "\nfactory stacks, columns, monuments, walls. Heavy furniture overturned. Sand and mud "
    ∷ "ejected in small amounts." ∷ "\nChanges in well water. Persons driving cars disturbed." ∷ [])
effect Intensity.ix = concat (
    "\nDamage considerable in specially designed structures, well-designed frame structures "
    ∷ "thrown out of plumb."
    ∷ "\nGreat in substantial buildings, with partial collapse. Buildings shifted of foundations."
    ∷ "\nGround cracked conspicuously. Underground pipes broken." ∷ [])
effect Intensity.x = concat (
    "\nSome well-built wooden structures destroyed, most masonry and frame structures "
    ∷ "destroyed with foundations, ground badly cracked."
    ∷ "\nRails bent. Landslides considerable from river banks and steep slopes.Water splashed, "
    ∷ "slopped over banks." ∷ [])
effect Intensity.xi = concat (
    "\nFew, if any,(masonry) structures remain standing. Bridges destroyed. Broad fissures in "
    ∷ "ground."
    ∷ "\nUnderground pipelines completely out of service. Earth slumps and land slips in soft "
    ∷ "ground. Rails bent greatly." ∷ [])
effect Intensity.xii = concat (
    "\nDamage total. Waves seen on ground surface. Lines of sight and level distorted. Objects "
    ∷ "thrown into the air." ∷ [])

unfoldable pub effect_of_biggest : Text
effect_of_biggest = codes "\nThis earthquake is the biggest earthquake ever recorded."
