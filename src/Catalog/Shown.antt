-- ===== src/Catalog/Shown.antt =====
-- What the albums grid and the sections of an artist's page show of the server's albums:
-- ui/src/lib/pagination.ts on rpc/library.go and sqlite/libraryread.go.
use byom.Prelude.{
  ℕ, zero, suc, ◌+◌, ◌*◌, ◌<◌, ◌≤◌, ◌≡◌, sym, ap, ◌∙◌, Text, true, List, arith, length, map, take,
  leb, none, ok, keep,
}
use byom.Proto.Library.{Album, ListAlbumsRequest}
use byom.Pagination.{World, mount}
use byom.Pagination.Walk.{walk}
use byom.Pagination.Steps.{Reach}
use byom.Pagination.Listing.{Reach-IsShown}
use byom.Pagination.Progress.{answer, load_rounds}
use byom.Pagination.Mounting.{mount-load_rounds}
use byom.Paging.{Codec, page_size}
use byom.Paging.Pages.{catalog, catalog-IsAscending, page_size_bounds}
use byom.Paging.Sorting.{IsAscending, order_by-perm}
use byom.Catalog.{StoredAlbum, AlbumQuery, album_query, album_proto, selects}
use byom.Catalog.Albums.{AlbumCursor, albums_of, sort_values, album_row_order}
use byom.Catalog.Serving.{HasIds, HasIds-IsDistinct, served, walk-served, walk-served_done}
use mathlib.Core.List.{Perm}

le_times : (m s : ℕ) → 1 ≤ s → m ≤ m * s
le_times zero s h = omega arith
le_times (suc m) s h = grind (arith, le_times m s h)

leb_trans : (a b c : ℕ) → a ≤ b → b ≤ c → leb a c ≡ true
leb_trans a b c h k = ground arith

module _ (codec : Codec AlbumCursor) (rows : List StoredAlbum) (ids : HasIds rows)
    (request_of : Text → ListAlbumsRequest) where
  -- If no two albums of the server have one ID, and every list of a world asks the server for the
  -- albums of its key's request, then in every reachable world a mounted list that is done, of a key
  -- whose request is accepted, shows the albums that its query selects, all of them and no others,
  -- each once, in strictly ascending order of the values that it is sorted by.
  pub Reach-shows_selected :
      {w : World Album}
      → Reach (served codec rows request_of) w
      → (i : ℕ) → i < w.mounted
      → (q : AlbumQuery) → album_query (request_of (w.lists i).key) ≡ ok q
      → (w.lists i).done ≡ true
      → (shown : List StoredAlbum) × ((w.lists i).items ≡ map album_proto shown)
        × Perm shown (keep (selects q) rows)
        × IsAscending (album_row_order q.descending) (sort_values q.order) shown
  Reach-shows_selected {w} reach i listed q valid done =
      let (n, items, ended) = Reach-IsShown (served codec rows request_of) reach i listed in
      let k = (w.lists i).key in
      (
        catalog (albums_of codec q) rows,
        items ∙ walk-served_done codec rows request_of k q valid ids n (sym ended ∙ done),
        order_by-perm (album_row_order q.descending) (sort_values q.order) (keep (selects q) rows),
        catalog-IsAscending (albums_of codec q) rows (HasIds-IsDistinct q rows ids),
      )

  -- A list that is mounted in a reachable world for a key with no cached entry and with an accepted
  -- request shows, when its first fetch and `n` loads more have been answered, the first `n + 1`
  -- pages of the selected albums in their order; it is done exactly if these are all of them, which
  -- is so when there are at most `n + 1`.
  pub mount-shows_first :
      (k : Text) {w : World Album}
      → Reach (served codec rows request_of) w
      → w.cache k ≡ none
      → (q : AlbumQuery) → album_query (request_of k) ≡ ok q
      → (n : ℕ)
      → let listing = served codec rows request_of in
        let l =
          (load_rounds listing n w.mounted (answer listing w.issued (mount k w))).lists w.mounted in
        let selected = catalog (albums_of codec q) rows in
        let size = suc n * page_size (request_of k).page_size in
        (l.items ≡ map album_proto (take size selected))
        × (l.done ≡ leb (length selected) size)
        × (length selected ≤ suc n → l.done ≡ true)
  mount-shows_first k {w} reach new q valid n =
      let listing = served codec rows request_of in
      let (items, done, _) = mount-load_rounds listing k reach new n in
      let (first, ended) = walk-served codec rows request_of k q valid ids n in
      let (positive, _) = page_size_bounds (request_of k).page_size in
      let next : n + 1 ≡ suc n = omega arith in
      let done' = done ∙ ap (λ m. (walk (listing k) m).done) next ∙ ended in
      let room = le_times (suc n) (page_size (request_of k).page_size) positive in
      (
        items ∙ ap (λ m. (walk (listing k) m).items) next ∙ first,
        done',
        λ few.
            done'
            ∙ leb_trans (length (catalog (albums_of codec q) rows)) (suc n)
                (suc n * page_size (request_of k).page_size) few room,
      )
