-- ===== src/Scrolling/Failures.antt =====
-- What the views of a list do when a fetch fails: ui/src/components/InfiniteScrollSentinel.tsx and
-- ui/src/features/library/AlbumSection.tsx on ui/src/lib/pagination.ts.
use byom.Prelude.{ℕ, ◌≡◌, Text, true, false, some, [], refl}
use byom.Pagination.{Page, Call, World, reject}
use byom.Pagination.Steps.{Reach}
use byom.Pagination.Mounting.{reject-load_more}
use byom.Scrolling.{Sentinel, wants, settle, section_shown, button_shown, shows_retry}

module _ {ℓ} {A : Type ℓ} (listing : Text → Text → Page A) where
  -- In a reachable world, when the call of a list fails while the list has the call's key and is not
  -- done, the entry is cached, and the sentinel is in view and has not just asked, the sentinel
  -- makes the same call again at once, though the page shows its retry button.
  reject-settle :
      (id : ℕ) (c : Call) (e : Text) {w : World A} (s : Sentinel)
      → Reach listing w
      → w.calls id ≡ some c
      → (w.lists c.list).key ≡ c.key
      → w.cache c.key ≡ some c.entry
      → (w.lists c.list).done ≡ false
      → s.intersecting ≡ true
      → s.should_load ≡ false
      → let w' = reject id e w in
        (shows_retry (w'.lists c.list) ≡ true) × ((settle c.list s w').1.calls w.issued ≡ some c)
  unfolding settle wants shows_retry
  reject-settle id c e {w} s reach call now cached more seen idle =
      let (failed, _, again) = reject-load_more listing id c e reach call now cached in
      (rw failed refl, rw failed (rw (seen, idle, more) again))

  -- In a reachable world, when the call of a section that shows no albums fails while the list has
  -- the call's key and the entry is cached, the list has the error, and neither the section nor its
  -- button is shown.
  reject-section_shown :
      (id : ℕ) (c : Call) (e : Text) {w : World A}
      → Reach listing w
      → w.calls id ≡ some c
      → (w.lists c.list).key ≡ c.key
      → w.cache c.key ≡ some c.entry
      → (w.lists c.list).items ≡ []
      → let l = (reject id e w).lists c.list in
        (l.error ≡ some e) × (section_shown l ≡ false) × (button_shown l ≡ false)
  unfolding section_shown button_shown
  reject-section_shown id c e {w} reach call now cached nothing =
      let (failed, _, _) = reject-load_more listing id c e reach call now cached in
      rw failed (rw nothing (refl, refl, refl))
