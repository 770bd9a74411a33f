-- ===== src/Catalog/Serving.antt =====
-- What the album requests of a list get from the server: rpc/library.go under the lists of
-- ui/src/lib/pagination.ts.
use byom.Prelude.{
  ℕ, suc, ◌*◌, ◌≡◌, refl, sym, ap, ◌∙◌, Text, true, List, [], ◌∷◌, length, map, take, leb, Result,
  ok, err, ◌>>=◌,
}
use byom.Proto.Library.{Album, ListAlbumsRequest}
use byom.Proto.LibraryService.{ListAlbumsResponse}
use byom.Pagination.{Page}
use byom.Pagination.Walk.{walk}
use byom.Paging.{Codec, StoreError, list_page, page_size}
use byom.Paging.Orders.{text_order}
use byom.Paging.Pages.{catalog}
use byom.Paging.Sorting.{IsDistinct}
use byom.Paging.Walks.{page_of}
use byom.Paging.Answers.{IsConverted, IsDistinct-finer, walk-answers, walk-answers_done}
use byom.Catalog.{
  StoredAlbum, AlbumQuery, LibraryOrder, Code, album_query, or_rpc_error, album_proto,
}
use byom.Catalog.Albums.{
  AlbumCursor, albums_of, albums, list_albums, sort_values, albums_of-IsKeyset, album_row_order,
}

-- A response as a fetcher passes it on; a refusal gives nothing.
abbrev pub response_page : Result Code ListAlbumsResponse → Page Album
response_page (ok r) = record { items = r.items; next_page_token = r.next_page_token }
response_page (err e) = record { items = []; next_page_token = [] }

-- No two rows have one ID.
abbrev pub HasIds : List StoredAlbum → Type 0
HasIds rows = IsDistinct text_order (λ (al : StoredAlbum). al.id) rows

last_text : List Text → Text
last_text [] = []
last_text (t ∷ []) = t
last_text (t ∷ u ∷ ts) = last_text (u ∷ ts)

-- Every order ends with the ID.
last_text-sort_values :
    (order : LibraryOrder) (al : StoredAlbum) → last_text (sort_values order al) ≡ al.id
unfolding last_text sort_values
last_text-sort_values LibraryOrder.title al = refl
last_text-sort_values LibraryOrder.artist al = refl
last_text-sort_values LibraryOrder.release_date al = refl
last_text-sort_values LibraryOrder.original_date al = refl
last_text-sort_values LibraryOrder.recently_added al = refl

pub HasIds-IsDistinct :
    (q : AlbumQuery) (rows : List StoredAlbum)
    → HasIds rows
    → IsDistinct (album_row_order q.descending) (sort_values q.order) rows
HasIds-IsDistinct q rows ids =
    IsDistinct-finer text_order (album_row_order q.descending) (λ (al : StoredAlbum). al.id)
      (sort_values q.order)
      (λ r s same.
        sym (last_text-sort_values q.order r) ∙ ap last_text same ∙ last_text-sort_values q.order s)
      rows ids

module _ (codec : Codec AlbumCursor) (rows : List StoredAlbum) where
  -- What each list's requests are answered, where `request_of` gives the request of a list's key.
  unfoldable pub served : (Text → ListAlbumsRequest) → Text → Text → Page Album
  served request_of k page_token =
      response_page (list_albums codec rows (record (request_of k) { page_token = page_token }))

  response_page-list_page :
      (r : Result StoreError (Page StoredAlbum))
      → response_page (
          or_rpc_error r >>= λ p.
          ok (record { items = map album_proto p.items; next_page_token = p.next_page_token }))
        ≡ record {
          items = map album_proto (page_of r).items;
          next_page_token = (page_of r).next_page_token;
        }
  response_page-list_page (ok p) = refl
  response_page-list_page (err e) = refl

  module _ (request_of : Text → ListAlbumsRequest) (k : Text) (q : AlbumQuery)
      (valid : album_query (request_of k) ≡ ok q) where
    served-IsConverted :
        IsConverted
          (albums_of codec q)
          album_proto
          rows
          (request_of k).page_size
          (served request_of k)
    unfolding served list_albums albums album_query
    served-IsConverted token = rw valid (
        response_page-list_page (list_page (albums_of codec q) rows token (request_of k).page_size))

    module _ (ids : HasIds rows) where
      pub walk-served :
          (m : ℕ)
          → ((walk (served request_of k) (suc m)).items
              ≡ map album_proto (
                  take
                    (suc m * page_size (request_of k).page_size)
                    (catalog (albums_of codec q) rows)))
            × ((walk (served request_of k) (suc m)).done
                ≡ leb
                    (length (catalog (albums_of codec q) rows))
                    (suc m * page_size (request_of k).page_size))
      walk-served =
          walk-answers (albums_of codec q) album_proto rows (request_of k).page_size
            (served request_of k) (albums_of-IsKeyset codec q) (HasIds-IsDistinct q rows ids)
            served-IsConverted

      pub walk-served_done :
          (m : ℕ)
          → (walk (served request_of k) m).done ≡ true
          → (walk (served request_of k) m).items
            ≡ map album_proto (catalog (albums_of codec q) rows)
      walk-served_done =
          walk-answers_done (albums_of codec q) album_proto rows (request_of k).page_size
            (served request_of k) (albums_of-IsKeyset codec q) (HasIds-IsDistinct q rows ids)
            served-IsConverted
