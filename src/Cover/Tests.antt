-- ===== src/Cover/Tests.antt =====
-- Covers of ui/src/components/Cover.tsx, as its tests have them, and the theorem at a run.
use byom.Prelude.{◌≡◌, refl, codes, decimal, true, false, [], ◌∷◌}
use byom.Cover.{
  Cover, Size, loads, errors, new_cover, has_artwork, pending, src, src_set, widths, aria_label,
  step, run,
}

program : Unit {0}
unfolding has_artwork pending src src_set widths aria_label step run decimal
program = tt

abbrev cover : Cover
cover = new_cover (codes "abc")

cover_tests :
    (pending cover ≡ true)
    × (pending (new_cover []) ≡ false)
    × (pending (run (loads ∷ []) cover) ≡ false)
    × (has_artwork (run (errors ∷ []) cover) ≡ false)
    × (aria_label (codes "Blue") (new_cover []) ≡ codes "Blue — no cover art")
    × (src_set cover Size.hero ≡ codes "/images/abc?size=320 1x, /images/abc?size=640 2x")
unfolding program
cover_tests = (refl, refl, refl, refl, refl, refl)
