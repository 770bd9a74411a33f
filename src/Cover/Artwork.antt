-- ===== src/Cover/Artwork.antt =====
-- When a cover shows its image, and when it pulses: ui/src/components/Cover.tsx.
use byom.Prelude.{◌≡◌, refl, Text, truthy, Bool, true, false, not, ◌&&◌, ◌||◌, List, [], ◌∷◌, arith}
use byom.Cover.{
  Cover, Event, loads, errors, changes_hash, new_cover, has_artwork, pending, step, run,
}

-- The hash after the events, and whether an image has failed, or loaded, among them.
abbrev pub last_hash : Text → List Event → Text
last_hash hash [] = hash
last_hash hash (changes_hash new ∷ es) = last_hash new es
last_hash hash (loads ∷ es) = last_hash hash es
last_hash hash (errors ∷ es) = last_hash hash es

abbrev pub any_errors : List Event → Bool
any_errors [] = false
any_errors (errors ∷ es) = true
any_errors (loads ∷ es) = any_errors es
any_errors (changes_hash new ∷ es) = any_errors es

abbrev pub any_loads : List Event → Bool
any_loads [] = false
any_loads (loads ∷ es) = true
any_loads (errors ∷ es) = any_loads es
any_loads (changes_hash new ∷ es) = any_loads es

run-fields :
    (es : List Event) (c : Cover)
    → ((run es c).cover_hash ≡ last_hash c.cover_hash es)
      × ((run es c).failed ≡ (c.failed || any_errors es))
      × ((run es c).loaded ≡ (c.loaded || any_loads es))
unfolding run step
run-fields [] c = ground arith
run-fields (loads ∷ es) c = ground (arith, run-fields es (step loads c))
run-fields (errors ∷ es) c = ground (arith, run-fields es (step errors c))
run-fields (changes_hash hash ∷ es) c = ground (arith, run-fields es (step (changes_hash hash) c))

-- After any events a cover has artwork exactly when its present hash is not empty and no image of
-- it has failed, of an earlier hash neither; and it pulses exactly when, besides, none has loaded.
run-has_artwork :
    (es : List Event) (hash : Text)
    → let c = run es (new_cover hash) in
      (has_artwork c ≡ (truthy (last_hash hash es) && not (any_errors es)))
      × (pending c ≡ (truthy (last_hash hash es) && not (any_errors es) && not (any_loads es)))
unfolding has_artwork pending
run-has_artwork es hash =
    let (h, f, l) = run-fields es (new_cover hash) in rw (h, f, l) (refl, refl)
