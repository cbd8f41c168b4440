-- ===== src/Support/Ageing.antt =====
-- How the tier of a support window changes with time.
use refresh.Prelude.{ℕ, ◌≤◌, ◌≡◌, ◌↔◌, arith, Bool, true, false}
use refresh.Support.{SupportTier, classify_support}

-- May the first tier have become the second one some time later?
abbrev pub may_become : SupportTier → SupportTier → Bool
may_become SupportTier.standard SupportTier.standard = true
may_become SupportTier.standard SupportTier.extended = true
may_become SupportTier.standard SupportTier.unsupported = true
may_become SupportTier.extended SupportTier.extended = true
may_become SupportTier.extended SupportTier.unsupported = true
may_become SupportTier.unsupported SupportTier.unsupported = true
may_become SupportTier.unknown SupportTier.unknown = true
may_become _ _ = false

-- A tier is unknown exactly where neither window has an end, and as time passes the tier of a
-- version stays as it is, or goes from standard to extended or unsupported, or from extended to
-- unsupported, whatever the ends of the windows are.
pub classify_support-ages :
    (standard_end extended_end now later : ℕ) (fallback : Bool)
    → now ≤ later
    → (((classify_support standard_end extended_end now fallback).tier ≡ SupportTier.unknown)
        ↔ ((standard_end ≡ 0) × (extended_end ≡ 0)))
      × (may_become
            (classify_support standard_end extended_end now fallback).tier
            (classify_support standard_end extended_end later fallback).tier
          ≡ true)
unfolding classify_support
classify_support-ages standard_end extended_end now later fallback h = (ground arith, ground arith)
