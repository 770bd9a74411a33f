-- ===== src/Scanner/Reach.antt =====
-- The steps of the scanner of scan/scanner.go, in any order, and what they reach.
use byom.Prelude.{ℕ, ◌<◌, ◌≡◌, refl, ok, Option-cases, inl, inr, arith, subst}
use byom.Scanner.{
  Scanner, claimed, begun, syncing, closed, Outcome, Counts, new_scanner, add_run, claim,
  begin_scan, register, finish_scan, finish_fails, release, restart, count, mark,
}
use byom.Scanner.Validity.{IsValid}
use byom.Scanner.Records.{begin_scan-IsValid, finish_scan-IsValid, restart-IsValid}
use byom.Scanner.Steps.{
  new_scanner-IsValid, add_run-IsValid, register-IsValid, count-IsValid, mark-IsValid,
  finish_fails-IsValid, release-IsValid,
}

-- `marks` is a request to cancel that has found the run, whatever happened since; `stops` is a
-- `BeginScan` that fails.
pub data Step (w : Scanner) : Scanner → Type 0 where
  claims : (loc : ℕ) {w' : Scanner} → claim loc w ≡ ok w' → Step w w'
  begins : (now r : ℕ) → r < w.made → (w.runs r).phase ≡ claimed → Step w (begin_scan now r w)
  stops : (r : ℕ) → r < w.made → (w.runs r).phase ≡ claimed → Step w (release r w)
  registers : (r id : ℕ) → r < w.made → (w.runs r).phase ≡ begun id → Step w (register r id w)
  counts : (r : ℕ) (p : Counts) → Step w (count r p w)
  marks : (r : ℕ) → Step w (mark r w)
  finishes :
      (now : ℕ) (o : Outcome) (r id : ℕ)
      → r < w.made
      → (w.runs r).phase ≡ syncing id
      → Step w (finish_scan now o r id w)
  fails : (r id : ℕ) → r < w.made → (w.runs r).phase ≡ syncing id → Step w (finish_fails r id w)
  releases : (r id : ℕ) → r < w.made → (w.runs r).phase ≡ closed id → Step w (release r w)
  restarts : (now : ℕ) → Step w (restart now w)

pub data Later (w : Scanner) : Scanner → Type 0 where
  now' : Later w w
  next : {w' w'' : Scanner} → Later w w' → Step w' w'' → Later w w''

abbrev pub Reach : Scanner → Type 0
Reach w = Later new_scanner w

claim-IsValid : (loc : ℕ) {w w' : Scanner} → IsValid w → claim loc w ≡ ok w' → IsValid w'
unfolding claim
claim-IsValid loc {w} {w'} v h = elim (Option-cases (w.by_loc loc)) [
  | inl free ↦
      let same : add_run loc w ≡ w' = ground arith in
      subst IsValid same (add_run-IsValid loc free v)
  | inr (r, held) ↦ absurd (ground arith)
]

Step-IsValid : {w w' : Scanner} → Step w w' → IsValid w → IsValid w'
Step-IsValid (claims loc h) v = claim-IsValid loc v h
Step-IsValid (begins now r made at) v = begin_scan-IsValid now r made at v
Step-IsValid (stops r made at) v = release-IsValid r made (rw at refl) v
Step-IsValid (registers r id made at) v = register-IsValid r id made at v
Step-IsValid (counts r p) v = count-IsValid r p v
Step-IsValid (marks r) v = mark-IsValid r v
Step-IsValid (finishes now o r id made at) v = finish_scan-IsValid now o r id made at v
Step-IsValid (fails r id made at) v = finish_fails-IsValid r id made at v
Step-IsValid (releases r id made at) v = release-IsValid r made (rw at refl) v
Step-IsValid (restarts now) v = restart-IsValid now v

pub Later-IsValid : {w w' : Scanner} → Later w w' → IsValid w → IsValid w'
Later-IsValid now' v = v
Later-IsValid (next later step) v = Step-IsValid step (Later-IsValid later v)

pub Reach-IsValid : {w : Scanner} → Reach w → IsValid w
Reach-IsValid reach = Later-IsValid reach new_scanner-IsValid
