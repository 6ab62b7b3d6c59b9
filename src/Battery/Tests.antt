-- ===== src/Battery/Tests.antt =====
-- The theorems on the battery log at concrete events.
use totem_zmk_config.Prelude.{arith, List, [], ◌∷◌}
use totem_zmk_config.Battery.{initial, Change}
use totem_zmk_config.Battery.Spaced.{Input, printed, SpacedLines, printed-SpacedLines}

-- A burst of reports of the right half, and one of this half later.
abbrev burst : List Input
burst =
    record { now = 5000; mv = 0; levels = 55 ∷ []; change = Change.peripheral 7 }
    ∷ record { now = 5010; mv = 0; levels = 48 ∷ []; change = Change.peripheral 0 }
    ∷ record { now = 7000; mv = 0; levels = 48 ∷ []; change = Change.own }
    ∷ []

printed-SpacedLines_example : SpacedLines (printed burst initial)
printed-SpacedLines_example = printed-SpacedLines burst initial (omega arith)
