-- ===== src/AlbumPage/Limits.antt =====
-- How many tracks an album's page shows of those on the server: ui/src/routes/albums/[id].tsx on
-- ui/src/lib/rpc/library.ts, rpc/library.go and page/page.go.
use byom.Prelude.{
  ℕ, ◌≡◌, ◌≢◌, refl, ap, ◌∙◌, Text, text_eq, List, [], ◌∷◌, arith, length, map, keep, leb, ok, some,
  if◌then◌else◌,
}
use byom.Proto.LibraryService.{LibraryService, ListTracksResponse}
use byom.Paging.{Codec, page_size, cut_page}
use byom.Paging.Bounds.{length-map, cut_page-length}
use byom.Paging.Pages.{catalog, token_of, list_page_start}
use byom.Paging.Sorting.{length-order_by}
use byom.Catalog.Tracks.{StoredTrack, TrackCursor, tracks_of, tracks, list_tracks, track_proto}
use byom.Rpc
use byom.TrackList.Counting.{total_tracks, discs-total_tracks}
use byom.AlbumPage.{Detail, preload, shown_detail, album_detail}
use byom.AlbumPage.Counts.{album_detail_shown}

-- The rows of the tracks of an album.
abbrev pub tracks_on : Text → List StoredTrack → List StoredTrack
tracks_on id rows = keep (λ (t : StoredTrack). text_eq t.album_id id) rows

module _ (codec : Codec TrackCursor) (rows : List StoredTrack) where
  -- The first page of an album's tracks.
  first_page :
      (id : Text) (n : ℕ) (res : ListTracksResponse)
      → id ≢ []
      → list_tracks codec rows (record { page_size = n; page_token = []; album_id = id }) ≡ ok res
      → length res.items ≡ (
          if leb (length (tracks_on id rows)) (page_size n)
          then length (tracks_on id rows)
          else page_size n)
  unfolding list_tracks tracks
  first_page [] n res given answered = absurd (given refl)
  first_page (c ∷ cs) n res given answered =
      let l = tracks_of codec (c ∷ cs) in
      let stored = tracks_on (c ∷ cs) rows in
      let p = cut_page (page_size n) (token_of l) (catalog l rows) in
      let start : list_tracks codec rows
            (record { page_size = n; page_token = []; album_id = c ∷ cs })
          ≡ ok (record { items = map track_proto p.items; next_page_token = p.next_page_token }) =
        rw (list_page_start l rows n) refl in
      let same : record { items = map track_proto p.items; next_page_token = p.next_page_token }
          ≡ res =
        ground arith in
      rw⁻¹ same (
        length-map track_proto p.items
        ∙ cut_page-length (page_size n) (token_of l) (catalog l rows)
        ∙ ap (λ k. if leb k (page_size n) then k else page_size n)
            (length-order_by l.order l.key stored))

  -- If the server answers a page's request for the tracks of its album, and the page shows the album,
  -- then the tracks on the discs of the page are all that the server has of the album if these are at
  -- most 200, and else 200.
  pub album_detail-total_tracks :
      (service : LibraryService) (id : Text) (d : Detail)
      → id ≢ []
      → list_tracks codec rows (record { page_size = 500; page_token = []; album_id = id })
        ≡ ok (Rpc.list_tracks service id)
      → album_detail id (preload service id) ≡ some d
      → let stored = length (tracks_on id rows) in
        total_tracks d.discs ≡ (if leb stored 200 then stored else 200)
  unfolding shown_detail preload page_size
  album_detail-total_tracks service id d given served shown =
      let (a, same) = album_detail_shown id (preload service id) d shown in
      rw same (
        discs-total_tracks (Rpc.list_tracks service id).items
        ∙ first_page id 500 (Rpc.list_tracks service id) given served)
