-- ===== src/Catalog/ArtistPages.antt =====
-- What the artists page shows of the server's artists: ui/src/lib/pagination.ts on rpc/library.go
-- and sqlite/libraryread.go.
use byom.Prelude.{
  ℕ, [], ◌∷◌, ◌<◌, ◌≡◌, refl, sym, ap, ◌∙◌, Text, true, keep, subst, List, map, Result, ok, err,
  ◌>>=◌,
}
use byom.Proto.Library.{Artist}
use byom.Proto.LibraryService.{ListArtistsRequest, ListArtistsResponse}
use byom.Pagination.{Page, World}
use byom.Pagination.Steps.{Reach}
use byom.Pagination.Listing.{Reach-IsShown}
use byom.Paging.{Codec, StoreError, list_page}
use byom.Paging.Orders.{lex_order, text_order}
use byom.Paging.Pages.{catalog, catalog-IsAscending}
use byom.Paging.Sorting.{IsDistinct, IsAscending, order_by-perm}
use byom.Paging.Walks.{page_of}
use byom.Paging.Answers.{IsConverted, IsDistinct-finer, walk-answers_done}
use byom.Catalog.{Code, or_rpc_error}
use byom.Catalog.Artists.{
  StoredArtist, ArtistCursor, artist_key, artists_of, artists, list_artists, artist_proto,
  artists_of-IsKeyset,
}
use mathlib.Core.List.{Perm}

-- A response as a fetcher passes it on; a refusal gives nothing.
abbrev pub response_page : Result Code ListArtistsResponse → Page Artist
response_page (ok r) = record { items = r.items; next_page_token = r.next_page_token }
response_page (err e) = record { items = []; next_page_token = [] }

-- No two rows have one ID.
abbrev pub HasIds : List StoredArtist → Type 0
HasIds rows = IsDistinct text_order (λ (a : StoredArtist). a.id) rows

HasIds-IsDistinct :
    (rows : List StoredArtist) → HasIds rows → IsDistinct (lex_order text_order) artist_key rows
HasIds-IsDistinct =
    IsDistinct-finer text_order (lex_order text_order) (λ (a : StoredArtist). a.id) artist_key
      (λ r s same. cc)

keep-true : (rows : List StoredArtist) → keep (λ a. true) rows ≡ rows
keep-true [] = refl
keep-true (a ∷ rows) = ap (◌∷◌ a) (keep-true rows)

module _ (codec : Codec ArtistCursor) (rows : List StoredArtist) where
  -- What each list's requests are answered, where `request_of` gives the request of a list's key.
  unfoldable pub served : (Text → ListArtistsRequest) → Text → Text → Page Artist
  served request_of k page_token =
      response_page (list_artists codec rows (record (request_of k) { page_token = page_token }))

  response_page-list_page :
      (r : Result StoreError (Page StoredArtist))
      → response_page (
          or_rpc_error r >>= λ p.
          ok (record { items = map artist_proto p.items; next_page_token = p.next_page_token }))
        ≡ record {
          items = map artist_proto (page_of r).items;
          next_page_token = (page_of r).next_page_token;
        }
  response_page-list_page (ok p) = refl
  response_page-list_page (err e) = refl

  served-IsConverted :
      (request_of : Text → ListArtistsRequest) (k : Text)
      → IsConverted
          (artists_of codec)
          artist_proto
          rows
          (request_of k).page_size
          (served request_of k)
  unfolding served list_artists artists
  served-IsConverted request_of k token =
      response_page-list_page (list_page (artists_of codec) rows token (request_of k).page_size)

  -- If no two artists of the server have one ID, and every list of a world asks the server for the
  -- artists, then in every reachable world a mounted list that is done shows all the artists, each
  -- once, in strictly ascending order of sort name and ID.
  pub Reach-shows_artists :
      HasIds rows
      → (request_of : Text → ListArtistsRequest) {w : World Artist} → Reach (served request_of) w
      → (i : ℕ) → i < w.mounted
      → (w.lists i).done ≡ true
      → (shown : List StoredArtist) × ((w.lists i).items ≡ map artist_proto shown)
        × Perm shown rows
        × IsAscending (lex_order text_order) artist_key shown
  Reach-shows_artists ids request_of {w} reach i listed done =
      let (n, items, ended) = Reach-IsShown (served request_of) reach i listed in
      let l = artists_of codec in
      let k = (w.lists i).key in
      let distinct = HasIds-IsDistinct rows ids in
      let whole =
        walk-answers_done l artist_proto rows (request_of k).page_size (served request_of k)
          (artists_of-IsKeyset codec) distinct (served-IsConverted request_of k) n
          (sym ended ∙ done) in
      (
        catalog l rows,
        items ∙ whole,
        subst (Perm (catalog l rows)) (keep-true rows)
            (order_by-perm l.order l.key (keep (λ a. true) rows)),
        catalog-IsAscending l rows distinct,
      )
