-- ===== src/Scanner/Steps.antt =====
-- The pieces of scan/scanner.go that change the runs and the maps keep the scanner valid.
use byom.Prelude.{ℕ, ◌<◌, ◌≡◌, refl, false, none, arith, Bool-cases, inl, inr, ◌==◌}
use byom.Scanner.{
  Scanner, begun, syncing, Counts, add_run, register, release, finish_fails, count, mark,
  new_scanner,
}
use byom.Scanner.Validity.{IsValid, is_over, registered_as-scan_of, one_scan, one_run}

pub new_scanner-IsValid : IsValid new_scanner
new_scanner-IsValid = record {
  held = λ r k h. elim k [ ];
  holds = λ loc r h. absurd (ground arith);
  registered = λ r id k h. elim k [ ];
  found = λ id r h. absurd (ground arith);
  recorded = λ r id k h. elim k [ ];
  fresh = λ id h. refl;
  alone = λ id id' s s' h. absurd (ground arith);
}

pub add_run-IsValid :
    (loc : ℕ) {w : Scanner} → w.by_loc loc ≡ none → IsValid w → IsValid (add_run loc w)
unfolding add_run
add_run-IsValid loc {w} free v = record {
  held = λ r k h. grind (arith, v.held r);
  holds = λ loc' r h. grind (arith, v.holds loc' r);
  registered = λ r id k h. grind (arith, v.registered r id);
  found = λ id r h. grind (arith, v.found id r h);
  recorded = λ r id k h. elim (Bool-cases (r == w.made)) [
    | inl new ↦ absurd (ground arith)
    | inr old ↦ grind (arith, v.recorded r id)
  ];
  fresh = v.fresh;
  alone = v.alone;
}

pub register-IsValid :
    (r id : ℕ) {w : Scanner}
    → r < w.made
    → (w.runs r).phase ≡ begun id
    → IsValid w
    → IsValid (register r id w)
unfolding register
register-IsValid r id {w} made at v = record {
  held = λ r' k h. grind (arith, v.held r' k);
  holds = λ loc r' h. grind (arith, v.holds loc r' h);
  registered = λ r' id' k h. grind (
    arith,
    v.registered r' id' k,
    registered_as-scan_of (w.runs r').phase id',
    one_scan v r r' made k id,
  );
  found = λ id' r' h. grind (arith, v.found id' r');
  recorded = λ r' id' k h. grind (arith, v.recorded r' id' k);
  fresh = v.fresh;
  alone = v.alone;
}

pub count-IsValid : (r : ℕ) (p : Counts) {w : Scanner} → IsValid w → IsValid (count r p w)
unfolding count
count-IsValid r p {w} v = record {
  held = λ r' k h. grind (arith, v.held r' k);
  holds = λ loc r' h. grind (arith, v.holds loc r' h);
  registered = λ r' id k h. grind (arith, v.registered r' id k);
  found = λ id r' h. grind (arith, v.found id r' h);
  recorded = λ r' id k h. grind (arith, v.recorded r' id k);
  fresh = v.fresh;
  alone = v.alone;
}

pub mark-IsValid : (r : ℕ) {w : Scanner} → IsValid w → IsValid (mark r w)
unfolding mark
mark-IsValid r {w} v = record {
  held = λ r' k h. grind (arith, v.held r' k);
  holds = λ loc r' h. grind (arith, v.holds loc r' h);
  registered = λ r' id k h. grind (arith, v.registered r' id k);
  found = λ id r' h. grind (arith, v.found id r' h);
  recorded = λ r' id k h. grind (arith, v.recorded r' id k);
  fresh = v.fresh;
  alone = v.alone;
}

pub release-IsValid :
    (r : ℕ) {w : Scanner}
    → r < w.made
    → is_over (w.runs r).phase ≡ false
    → IsValid w
    → IsValid (release r w)
unfolding release
release-IsValid r {w} made live v = record {
  held = λ r' k h. grind (arith, v.held r' k, one_run v r r' made k);
  holds = λ loc r' h. grind (arith, v.holds loc r', v.held r made live);
  registered = λ r' id' k h. grind (
    arith,
    v.registered r' id' k,
    one_scan v r r' made k id',
    registered_as-scan_of (w.runs r').phase id',
  );
  found = λ id' r' h. grind (arith, v.found id' r');
  recorded = λ r' id' k h. grind (arith, v.recorded r' id' k);
  fresh = v.fresh;
  alone = v.alone;
}

pub finish_fails-IsValid :
    (r id : ℕ) {w : Scanner}
    → r < w.made
    → (w.runs r).phase ≡ syncing id
    → IsValid w
    → IsValid (finish_fails r id w)
unfolding finish_fails
finish_fails-IsValid r id {w} made at v = record {
  held = λ r' k h. grind (arith, v.held r' k);
  holds = λ loc r' h. grind (arith, v.holds loc r' h);
  registered = λ r' id' k h. grind (arith, v.registered r' id' k);
  found = λ id' r' h. grind (arith, v.found id' r' h);
  recorded = λ r' id' k h. grind (arith, v.recorded r' id' k);
  fresh = v.fresh;
  alone = v.alone;
}
