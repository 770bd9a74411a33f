-- ===== src/Sources/Requests.antt =====
-- What a source's card asks of the server, and what it shows of the answers:
-- ui/src/features/management/LocationCard.tsx with ui/src/lib/rpc/scan-monitor.ts.
use byom.Prelude.{
  ℕ, suc, ◌+◌, ◌≡◌, Text, text_eq, text_eq→eq, Bool, Bool-cases, Option-cases, true, false, inl,
  inr, List, [], ◌∷◌, none, some, find, get_elem?, arith,
}
use byom.Proto.Management.{Scan}
use byom.Monitor.{poke_scan_monitor, start_poll, clear_timer, poll_answered, take_answer, set_timer}
use byom.Sources.{Card, cancels, card_running, running_for, ask, start, stop, answered, polled}

-- What `find` gives passes the test and stands in the list.
find_found {ℓ} :
    {A : Type ℓ} (p : A → Bool) (xs : List A) (x : A)
    → find p xs ≡ some x
    → (n : ℕ) × (p x ≡ true) × (get_elem? xs n ≡ some x)
find_found p [] x h = ground arith
find_found p (y ∷ xs) x h = elim (Bool-cases (p y)) [
  | inl yes' ↦ (0, ground arith, ground arith)
  | inr no' ↦ let (n, holds, at) = find_found p xs x (ground arith) in (suc n, holds, at)
]

-- If a click on Cancel makes a request to cancel an ID, it is the ID of a scan in the monitor's list
-- that belongs to the card's source.
stop-own_scan :
    (c : Card) (id : Text)
    → c.waiting c.asked ≡ none
    → (stop c).waiting c.asked ≡ some (cancels id)
    → (n : ℕ) × (scan : Scan) × (get_elem? c.monitor.running n ≡ some scan)
      × (scan.location_id ≡ c.location.id)
      × (scan.id ≡ id)
unfolding stop ask
stop-own_scan c id unused asked = elim (Option-cases (card_running c)) [
  | inl idle ↦ ground arith
  | inr (scan, running) ↦
      let (n, own, at) = find_found (λ s. text_eq s.location_id c.location.id) _ scan running in
      (n, scan, at, text_eq→eq _ _ own, ground arith)
]

-- After a click on Force Rescan, the answer to its request, and the answer to the poll that this
-- starts, the card of a started monitor shows the running scan of its source in that answer, if
-- any, and no error, and its request is over.
start-polled :
    (c : Card) (items : List Scan)
    → c.monitor.stopped ≡ false
    → let asked = answered c.asked (start c) in
      let c' = polled c.monitor.issued items asked in
      (asked.monitor.issued ≡ c.monitor.issued + 1)
      × (card_running c' ≡ running_for c.location.id items)
      × (c'.error ≡ [])
      × (c'.waiting c.asked ≡ none)
unfolding start ask answered polled poke_scan_monitor start_poll clear_timer poll_answered
    take_answer set_timer
start-polled c items on = ground arith
