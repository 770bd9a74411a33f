-- ===== src/Scrolling.antt =====
-- The views that show an infinite list and ask it for more: the scroll sentinel of
-- ui/src/components/InfiniteScrollSentinel.tsx, the list pages ui/src/routes/albums/index.tsx and
-- ui/src/routes/artists/index.tsx, ui/src/features/library/AlbumSection.tsx, and
-- `createScrollRestoration` of ui/src/lib/pagination.ts.
--
-- The sentinel's effect runs when its value has changed. A run may load more, which changes what
-- the list says; the effect then runs again, with the value false, and does nothing, so `settle` is
-- all the runs after one change.
pub mod Loading
pub mod Failures
mod Tests
use byom.Prelude.{
  ℕ, Text, codes, Bool, true, false, not, ◌&&◌, ◌||◌, Option, none, some, [], ltb, is_empty,
  if◌then◌else◌,
}
use byom.Proto.Library.{AlbumOrder, BootlegFilter, ListAlbumsRequest}
use byom.Proto.LibraryService.{ListArtistsRequest}
use byom.Pagination.{InfiniteList, World, load_more, set_scroll_y}

-- The signal `intersecting`, and the value with which the effect has last run.
pub record Sentinel : Type 0 where
  pub intersecting : Bool
  pub should_load : Bool

abbrev pub new_sentinel : Sentinel
new_sentinel = record { intersecting = false; should_load = false }

-- The observer's callback, with `entries[0]?.isIntersecting`.
unfoldable pub observe : Option Bool → Sentinel → Sentinel
observe none s = record s { intersecting = false }
observe (some b) s = record s { intersecting = b }

-- The requests of the two pages for a token. The fields that they leave out have their zero values.
unfoldable pub grid_request : Text → ListAlbumsRequest
grid_request page_token = record {
  page_size = 0;
  page_token = page_token;
  artist_id = [];
  include_all_versions = false;
  album_types = [];
  bootlegs = BootlegFilter.unspecified;
  order = AlbumOrder.artist;
  descending = false;
}

unfoldable pub artists_request : Text → ListArtistsRequest
artists_request page_token = record { page_size = 0; page_token = page_token }

module _ {ℓ} {A : Type ℓ} where
  -- The pages' `disabled`.
  unfoldable pub disabled : InfiniteList A → Bool
  disabled l = l.loading || l.done

  -- What the sentinel's effect computes.
  unfoldable pub wants : Sentinel → InfiniteList A → Bool
  unfolding disabled
  wants s l = s.intersecting && not (disabled l)

  -- The sentinel of the list `i` after a change of its signal or of the list.
  unfoldable pub settle : ℕ → Sentinel → World A → Sentinel × World A
  settle i s w =
      let should_load = wants s (w.lists i) in
      let w' = if should_load && not s.should_load then load_more i w else w in
      (record s { should_load = wants s (w'.lists i) }, w')

  -- Whether a list page says that there is nothing, and whether it has its retry button.
  unfoldable pub shows_empty_note : InfiniteList A → Bool
  shows_empty_note l = is_empty l.items && l.done

  unfoldable pub shows_retry : InfiniteList A → Bool
  shows_retry l = elim l.error [ some e ↦ true | none ↦ false ]

  -- A section is absent when it has nothing to show; the button stands inside it.
  unfoldable pub section_shown : InfiniteList A → Bool
  section_shown l = not (is_empty l.items) || l.loading

  unfoldable pub button_shown : InfiniteList A → Bool
  unfolding section_shown
  button_shown l = section_shown l && (not l.done && not l.loading)

  unfoldable pub button_label : InfiniteList A → Text
  button_label l = elim l.error [ some e ↦ codes "FAILED — RETRY" | none ↦ codes "LOAD MORE" ]

  -- `createScrollRestoration`: where the window scrolls to when the list has settled, if it does,
  -- and its scroll listener.
  unfoldable pub restored_offset : InfiniteList A → Option ℕ
  restored_offset l = if ltb 0 l.scroll_y then some l.scroll_y else none

  unfoldable pub on_scroll : ℕ → ℕ → World A → World A
  on_scroll i window_y w = set_scroll_y i window_y w
