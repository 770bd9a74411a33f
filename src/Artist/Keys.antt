-- ===== src/Artist/Keys.antt =====
-- The cache keys of the pages: ui/src/routes/artists/[id].tsx and ui/src/routes/albums/index.tsx.
use byom.Prelude.{◌≡◌, ◌≢◌, ◌↔◌, Text, codes, List, [], ◌∷◌, ◌++◌, arith, ap}
use byom.Artist.{Section, section_key}

append_cancel {ℓ} : {A : Type ℓ} (xs : List A) {ys zs : List A} → xs ++ ys ≡ xs ++ zs → ys ≡ zs
append_cancel [] h = h
append_cancel (x ∷ xs) h = append_cancel xs (ground arith)

-- The sections of one artist share a cache entry only if they have the same heading.
section_key-eq_iff :
    (artist : Text) (s t : Section)
    → (section_key artist s ≡ section_key artist t) ↔ (s.heading ≡ t.heading)
unfolding section_key
section_key-eq_iff artist s t = (
  λ h. append_cancel (b':' ∷ []) (append_cancel artist (append_cancel (codes "albums:artist=") h)),
  λ e. ap (λ u. codes "albums:artist=" ++ (artist ++ (b':' ∷ u))) e,
)

-- The key of the albums grid, from the search parameters in JSON.
unfoldable pub grid_key : Text → Text
grid_key json = codes "albums:" ++ json

-- A section never shares a cache entry with the albums grid: the parameters are a JSON object, so
-- their text begins with a brace.
section_key-ne-grid_key :
    (artist : Text) (s : Section) (json rest : Text)
    → json ≡ b'{' ∷ rest
    → section_key artist s ≢ grid_key json
unfolding section_key grid_key
section_key-ne-grid_key artist s json rest object h =
    ground (arith, append_cancel (codes "albums:") (h))
