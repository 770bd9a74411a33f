-- ===== src/Catalog/Refusals.antt =====
-- Which requests for albums the server refuses, and how long its pages are: rpc/library.go on
-- sqlite/libraryread.go.
use byom.Prelude.{
  ◌+◌, ◌≡◌, ◌≢◌, ◌≤◌, ◌==◌, refl, sym, ap₂, ◌∙◌, Text, text_eq_iff, Bool, true, List, [], ◌∷◌,
  arith, Bool-cases, inl, inr, ◌⊎◌, length, map, some, Option-cases, ok, err, ◌>>=◌, Result-cases,
}
use byom.Proto.Library.{ListAlbumsRequest}
use byom.Proto.LibraryService.{ListAlbumsResponse}
use byom.Pagination.{Page}
use byom.Paging.{Codec, invalid_token, page_size, list_page, resume, fetch, cut_page}
use byom.Paging.Pages.{page_size_bounds, token_of}
use byom.Paging.Bounds.{list_page-cases, list_page-IsWithin, length-map}
use byom.Catalog.{
  StoredAlbum, AlbumQuery, LibraryAlbumType, LibraryBootlegs, LibraryOrder, Code, rpc_error,
  invalid_argument, rank, album_query, or_rpc_error, album_proto,
}
use byom.Catalog.Albums.{
  AlbumCursor, albums_of, albums, list_albums, query_equal, query_equal_refl, bool_eq,
  bootlegs_rank, order_rank, types_eq,
}

-- Each kind of field is compared as it should be.
rank_inj : (t u : LibraryAlbumType) → rank t == rank u ≡ true → t ≡ u
rank_inj t u h = ground arith

bootlegs_rank_inj : (b c : LibraryBootlegs) → bootlegs_rank b == bootlegs_rank c ≡ true → b ≡ c
bootlegs_rank_inj b c h = ground arith

order_rank_inj : (o p : LibraryOrder) → order_rank o == order_rank p ≡ true → o ≡ p
order_rank_inj o p h = ground arith

bool_eq_inj : (b c : Bool) → bool_eq b c ≡ true → b ≡ c
bool_eq_inj b c h = ground arith

types_eq_inj : (ts us : List LibraryAlbumType) → types_eq ts us ≡ true → ts ≡ us
types_eq_inj [] [] h = refl
types_eq_inj [] (u ∷ us) h = ground arith
types_eq_inj (t ∷ ts) [] h = ground arith
types_eq_inj (t ∷ ts) (u ∷ us) h =
    ap₂ ◌∷◌ (rank_inj t u (ground arith)) (types_eq_inj ts us (ground arith))

query_equal_inj : (q p : AlbumQuery) → query_equal q p ≡ true → q ≡ p
unfolding query_equal
query_equal_inj q p h =
    let id = (text_eq_iff q.artist_id p.artist_id).0 (ground arith) in
    let all' = bool_eq_inj q.include_all_versions p.include_all_versions (ground arith) in
    let bootlegs = bootlegs_rank_inj q.bootlegs p.bootlegs (ground arith) in
    let order = order_rank_inj q.order p.order (ground arith) in
    let descending = bool_eq_inj q.descending p.descending (ground arith) in
    let types = types_eq_inj q.types p.types (ground arith) in cc

module _ (codec : Codec AlbumCursor) (rows : List StoredAlbum) where
  -- The answer to an accepted request is that of the store.
  list_albums-albums :
      (req : ListAlbumsRequest) (q : AlbumQuery)
      → album_query req ≡ ok q
      → list_albums codec rows req ≡ (
          or_rpc_error (list_page (albums_of codec q) rows req.page_token req.page_size) >>= λ page.
          ok
            (record { items = map album_proto page.items; next_page_token = page.next_page_token }))
  unfolding list_albums albums album_query
  list_albums-albums req q valid = rw valid refl

  list_albums-page :
      (req : ListAlbumsRequest) (q : AlbumQuery)
      → album_query req ≡ ok q
      → (p : Page StoredAlbum)
      → list_page (albums_of codec q) rows req.page_token req.page_size ≡ ok p
      → list_albums codec rows req
        ≡ ok (record { items = map album_proto p.items; next_page_token = p.next_page_token })
  list_albums-page req q valid p page = list_albums-albums req q valid ∙ rw page refl

  list_albums-invalid :
      (req : ListAlbumsRequest) (e : Code)
      → album_query req ≡ err e
      → list_albums codec rows req ≡ err e
  unfolding list_albums album_query
  list_albums-invalid req e invalid = rw invalid refl

  -- The cursor of a token is the request's query's own, or the token is refused.
  resume-cases :
      (q : AlbumQuery) (token : Text)
      → token ≢ []
      → ((resume (albums_of codec q) token ≡ err invalid_token)
          × ((cur : AlbumCursor) → codec.decode token ≡ some cur → cur.query ≢ q))
        ⊎ ((cur : AlbumCursor) × (codec.decode token ≡ some cur)
            × (cur.query ≡ q)
            × (resume (albums_of codec q) token ≡ ok (some cur)))
  unfolding resume
  resume-cases q [] given = absurd (given refl)
  resume-cases q (c ∷ cs) given = elim (Option-cases (codec.decode (c ∷ cs))) [
    | inl nothing ↦ inl (rw nothing refl, λ cur h. absurd (ground arith))
    | inr (cur, decoded) ↦ elim (Bool-cases (query_equal cur.query q)) [
      | inl same ↦ inr (cur, decoded, query_equal_inj cur.query q same, rw decoded (rw same refl))
      | inr other ↦ inl (rw decoded (rw other refl), λ cur' h k. grind (arith, query_equal_refl q))
    ]
  ]

  -- Of a request whose filters and order are accepted and that gives a page token, the server
  -- refuses the token as an invalid argument, exactly if it does not decode to a cursor of the same
  -- query, and else it answers.
  pub list_albums-resume :
      (req : ListAlbumsRequest) (q : AlbumQuery)
      → album_query req ≡ ok q
      → req.page_token ≢ []
      → ((list_albums codec rows req ≡ err invalid_argument)
          × ((cur : AlbumCursor) → codec.decode req.page_token ≡ some cur → cur.query ≢ q))
        ⊎ ((cur : AlbumCursor) × (codec.decode req.page_token ≡ some cur)
            × (cur.query ≡ q)
            × (res : ListAlbumsResponse) × (list_albums codec rows req ≡ ok res))
  unfolding list_page
  list_albums-resume req q valid given = elim (resume-cases q req.page_token given) [
    | inl (refused, why) ↦ inl (list_albums-albums req q valid ∙ rw refused refl, why)
    | inr (cur, decoded, same, resumed) ↦
        elim (list_page-cases (albums_of codec q) rows req.page_token req.page_size) [
          | inl (e, refused, other) ↦ absurd (ground arith)
          | inr (c, again, page) ↦ inr (cur, decoded, same, _, list_albums-page req q valid _ page)
        ]
  ]

  -- A page of albums has at most as many as the request's effective page size, which is between 1
  -- and 200, and exactly as many when it names a next page.
  pub list_albums-IsWithin :
      (req : ListAlbumsRequest) (res : ListAlbumsResponse)
      → list_albums codec rows req ≡ ok res
      → (length res.items ≤ page_size req.page_size)
        × (page_size req.page_size ≤ 200)
        × (res.next_page_token ≢ [] → length res.items ≡ page_size req.page_size)
  list_albums-IsWithin req res answered = elim (Result-cases (album_query req)) [
    | inl (e, invalid) ↦ absurd (ground (arith, list_albums-invalid req e invalid))
    | inr (q, valid) ↦
        elim (list_page-cases (albums_of codec q) rows req.page_token req.page_size) [
          | inl (e, _, refused) ↦
              let same = list_albums-albums req q valid ∙ rw refused refl in
              let no' : err (rpc_error e) ≡ ok res = sym same ∙ answered in absurd (ground arith)
          | inr (c, _, page) ↦
              let p =
                cut_page (page_size req.page_size) (token_of (albums_of codec q))
                  (fetch (albums_of codec q) c (page_size req.page_size + 1) rows) in
              let same : record {
                items = map album_proto p.items;
                next_page_token = p.next_page_token;
              }
                  ≡ res =
                ground (arith, list_albums-page req q valid p page) in
              let (short, full) =
                list_page-IsWithin (albums_of codec q) rows req.page_token req.page_size p page in
              let (_, most) = page_size_bounds req.page_size in
              let size = length-map album_proto p.items in
              rw⁻¹ same (omega (arith, size, short), most, λ more. size ∙ full more)
        ]
  ]
