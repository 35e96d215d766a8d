-- ===== src/Exclusion/Regions/Hooks/Requested.antt =====
-- What the kernel is asked at a checkpoint for the list of libs/libkrgcheckpoint/libkrgcheckpoint.c.
use kerrighed_tools.Base.{ℕ, ◌≡◌, ◌⊎◌, Option, some, List, [], ◌∷◌, ℤ, minus_one}
use kerrighed_tools.Kernel.{World, Log, ioctl, app_cr_exclude}
use kerrighed_tools.Exclusion.Regions.{Regions}

-- The lists of regions that the kernel was asked to exclude, newest first.
abbrev pub exclusions : Log → List (List (ℤ × ℕ × ℕ))
exclusions [] = []
exclusions (ioctl (app_cr_exclude rs) ∷ log) = rs ∷ exclusions log
exclusions (c ∷ log) = exclusions log

module _ (w : World) where
  -- What is known of a result of the callback and of the calls made.
  Requests : List (ℤ × ℕ × ℕ) → Regions → Log → Option (ℤ × Regions) × Log → Type 0
  Requests rs s log (result, log') =
      (r : ℤ) × (result ≡ some (r, s))
      × (((r ≡ minus_one) × (exclusions log' ≡ exclusions log))
          ⊎ (exclusions log' ≡ rs ∷ exclusions log))
