-- ===== src/Walk/Merging.antt =====
-- The merger of scan/walk.go over a whole walk leaves no disc pending, and emits what `albums` says.
use byom.Prelude.{
  suc, ◌≤◌, ◌<◌, ◌≡◌, refl, ap, Text, Bool, true, false, not, ◌&&◌, List, [], ◌∷◌, ◌++◌, keep,
  keep-append, length, All, ok, arith, Bool-cases, inl, inr, if◌then◌else◌,
}
use mathlib.Core.List.{append-nil, append_assoc}
use byom.Storage.{RelPath, path_eq}
use byom.Storage.Tables.{path_eq→eq, path_eq_refl, text_eq_sym}
use byom.Sync.{WalkResult}
use byom.Walk.{
  Folder, Entries, unreadable, listing, done, regular, folder, special, is_hidden, result_of,
  walk_post_order, walk_folders, is_disc, is_disc_name, drop_word, parent, put_pending, is_disc_of,
  merge, collect, scan_folders,
}
use byom.Walk.Discs.{
  HasNo, Unless, IsMergeable, AreMergeable, disc_results, discs_in, with_discs, albums, albums_in,
}

path_eq_longer : (p q : RelPath) → length p < length q → path_eq p q ≡ false
path_eq_longer p q h = elim (Bool-cases (path_eq p q)) [
  | inl same ↦ let at = ap length (path_eq→eq p q same) in absurd (omega arith)
  | inr other ↦ other
]

-- A pending disc that the rest of a directory leaves alone.
abbrev IsApart : RelPath → Entries → WalkResult → Type 0
IsApart dir done p = Unit
IsApart dir (regular n info es) p = IsApart dir es p
IsApart dir (special n es) p = IsApart dir es p
IsApart dir (folder n sub es) p = (path_eq p.dir (n ∷ dir) ≡ false) × IsApart dir es p

-- A disc that waits for a directory above the one that is walked.
abbrev IsAbove : RelPath → WalkResult → Type 0
IsAbove dir p = (length (parent p.dir) < length dir) × (path_eq p.dir dir ≡ false)

-- A disc that waits for a directory or one above it.
abbrev IsUnder : RelPath → WalkResult → Type 0
IsUnder dir p = length (parent p.dir) < suc (length dir)

under : (dir : RelPath) (p : WalkResult) → IsAbove dir p → IsUnder dir p
under dir p h = let short = h.0 in omega arith

keep-none :
    (q : WalkResult → Bool) (ps : List WalkResult)
    → All (λ p. q p ≡ false) ps
    → (keep q ps ≡ []) × (keep (λ p. not (q p)) ps ≡ ps)
keep-none q [] h = (refl, refl)
keep-none q (p ∷ ps) h = let (none', all') = keep-none q ps h.1 in rw h.0 (none', ap (◌∷◌ p) all')

keep-every :
    (q : WalkResult → Bool) (ps : List WalkResult)
    → All (λ p. q p ≡ true) ps
    → (keep q ps ≡ ps) × (keep (λ p. not (q p)) ps ≡ [])
keep-every q [] h = (refl, refl)
keep-every q (p ∷ ps) h = let (all', none') = keep-every q ps h.1 in rw h.0 (ap (◌∷◌ p) all', none')

All-append {κ} :
    (P : WalkResult → Type κ) (ps qs : List WalkResult) → All P ps → All P qs → All P (ps ++ qs)
All-append P [] qs h k = k
All-append P (p ∷ ps) qs h k = (h.0, All-append P ps qs h.1 k)

All-map {κ υ} :
    (P : WalkResult → Type κ) (Q : WalkResult → Type υ) (ps : List WalkResult)
    → ((p : WalkResult) → P p → Q p)
    → All P ps
    → All Q ps
All-map P Q [] imp h = tt
All-map P Q (p ∷ ps) imp h = (imp p h.0, All-map P Q ps imp h.1)

above-length : (dir p : RelPath) → length (parent p) < length dir → length p ≤ length dir
above-length dir [] h = omega arith
above-length dir (a ∷ p) h = omega arith

above-IsApart : (dir : RelPath) (es : Entries) (p : WalkResult) → IsAbove dir p → IsApart dir es p
above-IsApart dir done p h = tt
above-IsApart dir (regular n info es) p h = above-IsApart dir es p h
above-IsApart dir (special n es) p h = above-IsApart dir es p h
above-IsApart dir (folder n sub es) p h =
    let short = above-length dir p.dir h.0 in
    (path_eq_longer p.dir (n ∷ dir) (omega arith), above-IsApart dir es p h)

-- A new disc is apart from the folders with other names.
new-IsApart :
    (dir : RelPath) (name : Text) (es : Entries) (p : WalkResult)
    → p.dir ≡ name ∷ dir
    → HasNo name es
    → IsApart dir es p
unfolding path_eq
new-IsApart dir name done p at h = tt
new-IsApart dir name (regular n info es) p at h = new-IsApart dir name es p at h
new-IsApart dir name (special n es) p at h = new-IsApart dir name es p at h
new-IsApart dir name (folder n sub es) p at h =
    (rw (at, text_eq_sym name n, h.0) refl, new-IsApart dir name es p at h.1)

unless : {P : Type 0} {b : Bool} → b ≡ false → Unless b P → P
unless {b = true} e k = absurd (ground arith)
unless {b = false} e k = k

module _ (to_lower : Text → Text) where
  discs_in-parent :
      (dir : RelPath) (es : Entries) → All (λ p. is_disc_of dir p ≡ true) (discs_in to_lower dir es)
  unfolding discs_in disc_results result_of
  discs_in-parent dir done = tt
  discs_in-parent dir (regular n info es) = discs_in-parent dir es
  discs_in-parent dir (special n es) = discs_in-parent dir es
  discs_in-parent dir (folder n sub es) = elim (Bool-cases (is_hidden n)) [
    | inl hidden ↦ rw hidden (discs_in-parent dir es)
    | inr shown ↦ rw shown (
        All-append (λ p. is_disc_of dir p ≡ true) (disc_results to_lower (n ∷ dir) sub) _ (own sub)
          (discs_in-parent dir es))
  ]
    where
      own : (f : Folder) → All (λ p. is_disc_of dir p ≡ true) (disc_results to_lower (n ∷ dir) f)
      own unreadable = tt
      own (listing inner) = elim (Bool-cases (is_disc (n ∷ dir))) [
        | inl disc ↦ rw disc (path_eq_refl dir, tt)
        | inr album ↦ rw album tt
      ]

  -- A disc has no discs of its own.
  discs_in-none :
      (dir : RelPath) (es : Entries)
      → is_disc dir ≡ true
      → AreMergeable dir es
      → discs_in to_lower dir es ≡ []
  unfolding discs_in disc_results IsMergeable
  discs_in-none dir done d h = refl
  discs_in-none dir (regular n info es) d h = discs_in-none dir es d h
  discs_in-none dir (special n es) d h = discs_in-none dir es d h
  discs_in-none dir (folder n sub es) d h = elim (Bool-cases (is_hidden n)) [
    | inl hidden ↦ rw (hidden, discs_in-none dir es d h.2) refl
    | inr shown ↦
        let both : (is_disc dir && is_disc (n ∷ dir)) ≡ false = (unless shown h.0).1 in
        rw (shown, plain sub (rw d at both), discs_in-none dir es d h.2) refl
  ]
    where
      plain : (f : Folder) → is_disc (n ∷ dir) ≡ false → disc_results to_lower (n ∷ dir) f ≡ []
      plain unreadable album = refl
      plain (listing inner) album = rw album refl

  -- The end of a directory, whose discs are the last of the pending ones.
  merge-lem :
      (dir : RelPath) (es : Entries) (pending taken : List WalkResult)
      → AreMergeable dir es
      → All (IsAbove dir) pending
      → merge collect (result_of to_lower dir es) (pending ++ discs_in to_lower dir es, taken)
        ≡ ok (
          pending ++ disc_results to_lower dir (listing es),
          taken ++ (if is_disc dir then [] else with_discs to_lower dir es ∷ []),
        )
  unfolding merge disc_results put_pending is_disc_name result_of with_discs
  merge-lem dir es pending taken h above = elim (Bool-cases (is_disc dir)) [
    | inl disc ↦
        let others =
          keep-none (λ p. path_eq p.dir dir) pending
            (All-map (IsAbove dir) (λ p. path_eq p.dir dir ≡ false) pending (λ p k. k.1) above) in
        rw (disc, discs_in-none dir es disc h, append-nil) (rw (append-nil taken, others.1) refl)
    | inr album ↦
        let discs = discs_in to_lower dir es in
        let others = keep-none (is_disc_of dir) pending (
          All-map (IsAbove dir) (λ p. is_disc_of dir p ≡ false) pending
            (λ p k. path_eq_longer (parent p.dir) dir k.0) above) in
        let own = keep-every (is_disc_of dir) discs (discs_in-parent dir es) in
        rw
          (
            album,
            keep-append (is_disc_of dir) pending discs,
            keep-append (λ p. not (is_disc_of dir p)) pending discs,
            others.0,
            others.1,
            own.0,
            own.1,
          )
          refl
  ]

  disc_results-All {κ} :
      (P : WalkResult → Type κ) (dir : RelPath) (f : Folder)
      → ((es : Entries) → P (result_of to_lower dir es))
      → All P (disc_results to_lower dir f)
  unfolding disc_results
  disc_results-All P dir unreadable h = tt
  disc_results-All P dir (listing es) h = elim (Bool-cases (is_disc dir)) [
    | inl disc ↦ rw disc (h es, tt)
    | inr album ↦ rw album tt
  ]

  inside-IsAbove :
      (dir : RelPath) (n : Text) (sub : Folder) (es : Entries) (ps : List WalkResult)
      → All (IsApart dir (folder n sub es)) ps
      → All (IsUnder dir) ps
      → All (IsAbove (n ∷ dir)) ps
  inside-IsAbove dir n sub es [] h k = tt
  inside-IsAbove dir n sub es (p ∷ ps) h k = ((k.0, h.0.0), inside-IsAbove dir n sub es ps h.1 k.1)

  mutual
    unfolding walk_post_order IsMergeable discs_in albums disc_results result_of

    walk_post_order-lem :
        (dir : RelPath) (f : Folder) (pending taken : List WalkResult)
        → IsMergeable dir f
        → All (IsAbove dir) pending
        → walk_post_order to_lower (merge collect) dir f (pending, taken)
          ≡ ok (pending ++ disc_results to_lower dir f, taken ++ albums to_lower dir f)
    walk_post_order-lem dir unreadable pending taken h above = absurd h
    walk_post_order-lem dir (listing es) pending taken h above =
        rw
          (
            walk_folders-lem dir es pending taken h
                (All-map (IsAbove dir) (IsApart dir es) pending (above-IsApart dir es) above)
                (All-map (IsAbove dir) (IsUnder dir) pending (λ p k. under dir p k) above),
            merge-lem dir es pending (taken ++ albums_in to_lower dir es) h above,
            append_assoc,
          )
          refl

    walk_folders-lem :
        (dir : RelPath) (es : Entries) (pending taken : List WalkResult)
        → AreMergeable dir es
        → All (IsApart dir es) pending
        → All (IsUnder dir) pending
        → walk_folders to_lower (merge collect) dir es (pending, taken)
          ≡ ok (pending ++ discs_in to_lower dir es, taken ++ albums_in to_lower dir es)
    walk_folders-lem dir done pending taken h apart below =
        rw (append-nil pending, append-nil taken) refl
    walk_folders-lem dir (regular n info es) pending taken h apart below =
        walk_folders-lem dir es pending taken h apart below
    walk_folders-lem dir (special n es) pending taken h apart below =
        walk_folders-lem dir es pending taken h apart below
    walk_folders-lem dir (folder n sub es) pending taken h apart below =
        let rest =
          All-map (IsApart dir (folder n sub es)) (IsApart dir es) pending (λ p k. k.1) apart in
        elim (Bool-cases (is_hidden n)) [
          | inl hidden ↦ rw hidden (walk_folders-lem dir es pending taken h.2 rest below)
          | inr shown ↦
              let inside =
                walk_post_order-lem (n ∷ dir) sub pending taken (unless shown h.0).0
                  (inside-IsAbove dir n sub es pending apart below) in
              rw
                (
                  shown,
                  inside,
                  walk_folders-lem dir es (pending ++ disc_results to_lower (n ∷ dir) sub)
                      (taken ++ albums to_lower (n ∷ dir) sub) h.2
                      (All-append (IsApart dir es) pending _ rest (
                        disc_results-All (IsApart dir es) (n ∷ dir) sub (λ inner.
                          new-IsApart dir n es (result_of to_lower (n ∷ dir) inner) refl h.1)))
                      (All-append (IsUnder dir) pending _ below
                        (disc_results-All (IsUnder dir) (n ∷ dir) sub (λ inner. omega arith))),
                  append_assoc,
                  append_assoc,
                )
                refl
        ]

  root-no_disc : (f : Folder) → disc_results to_lower [] f ≡ []
  unfolding disc_results is_disc is_disc_name drop_word
  root-no_disc unreadable = refl
  root-no_disc (listing es) = refl

  -- The walk of a location whose tree can be merged ends with no disc pending, and the directories to
  -- sync are all that are no discs, each with the files of its discs.
  pub scan_folders-albums :
      (root : Folder)
      → IsMergeable [] root
      → scan_folders to_lower root ≡ ok ([], albums to_lower [] root)
  unfolding scan_folders
  scan_folders-albums root h = rw (walk_post_order-lem [] root [] [] h tt, root-no_disc root) refl
