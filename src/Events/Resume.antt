-- ===== src/Events/Resume.antt =====
-- `list_events`, the read that the event stream resumes from.
use native.Mathlib.Nat.{zero-add}
use pullsmith.Common.{
  Bool-cases, ltb→lt, inl, inr, ◌≡◌, refl, ap, ◌∙◌, ℕ, zero, suc, ◌+◌, ◌-◌, ◌≤◌, ◌<◌, min, true,
  false, Bool, ◌&&◌, List, [], ◌∷◌, ◌++◌, arith, ltb, leb, ◌==◌, where_rows, take, max,
}
use pullsmith.Db.{Db, AgentEvent}
use pullsmith.Db.Session.{ok}
use pullsmith.Events.{find_run, insert_event, order_events, list_events}
use pullsmith.Events.Timeline.{IsTimeline, up_to, events_of, sequences, last_sequence}

-- k + 1, …, k + n
abbrev pub range : ℕ → ℕ → List ℕ
range k zero = []
range k (suc n) = suc k ∷ range (suc k) n

range_snoc : (k n : ℕ) → range k n ++ suc (k + n) ∷ [] ≡ range k (suc n)
range_snoc k zero = ground arith
range_snoc k (suc n) =
    let e : k + suc n ≡ suc k + n = omega arith in rw e (ap (λ t. suc k ∷ t) (range_snoc (suc k) n))

up_to-eq-range : (n : ℕ) → up_to n ≡ range 0 n
up_to-eq-range zero = refl
up_to-eq-range (suc n) = rw (up_to-eq-range n) (rw zero-add at (range_snoc 0 n))

where_rows-&& {ℓ} :
    {A : Type ℓ} (p q : A → Bool) (xs : List A)
    → where_rows (λ x. p x && q x) xs ≡ where_rows q (where_rows p xs)
where_rows-&& p q [] = refl
where_rows-&& p q (x ∷ xs) = ground (arith, where_rows-&& p q xs)

tail_eq : {a b : ℕ} {xs ys : List ℕ} → ◌≡◌ {A = List ℕ} (a ∷ xs) (b ∷ ys) → xs ≡ ys
tail_eq h = cc

head_eq : {a b : ℕ} {xs ys : List ℕ} → ◌≡◌ {A = List ℕ} (a ∷ xs) (b ∷ ys) → a ≡ b
head_eq h = cc

abbrev behind : ℕ → List AgentEvent → List AgentEvent
behind k es = where_rows (λ e. ltb k e.sequence) es

-- The events behind `k`, of events numbered from `a`.
sequences-behind :
    (k a n : ℕ) (es : List AgentEvent)
    → sequences es ≡ range a n
    → sequences (behind k es) ≡ range (max a k) (a + n - max a k)
sequences-behind k a zero [] h = let e : a + 0 - max a k ≡ 0 = omega arith in rw e
sequences-behind k a (suc n) [] h = cc
sequences-behind k a zero (x ∷ xs) h = cc
sequences-behind k a (suc n) (x ∷ xs) h =
    let ih = sequences-behind k (suc a) n xs (tail_eq h) in
    let at : x.sequence ≡ suc a = head_eq h in
    elim (Bool-cases (ltb k (suc a))) [
      | inl new ↦
          let lt : k < suc a = ltb→lt k (suc a) new in
          let m : max (suc a) k ≡ suc a = omega arith in
          let m' : max a k ≡ a = omega arith in
          let c : suc a + n - suc a ≡ n = omega arith in
          let c' : a + suc n - a ≡ suc n = omega arith in
          let t : ltb k x.sequence ≡ true = rw at new in rw (t, m', c') (cc (rw (m, c) at ih))
      | inr old ↦
          let le : suc a ≤ k = ground arith in
          let m : max (suc a) k ≡ max a k = omega arith in
          let c : suc a + n ≡ a + suc n = omega arith in
          let t : ltb k x.sequence ≡ false = rw at old in rw t (rw (m, c) at ih)
    ]

-- Events that come numbered upwards are in order.
order_events-eq : (a n : ℕ) (es : List AgentEvent) → sequences es ≡ range a n → order_events es ≡ es
unfolding order_events insert_event
order_events-eq a n [] h = refl
order_events-eq a n (x ∷ []) h = refl
order_events-eq a zero (x ∷ y ∷ es) h = cc
order_events-eq a (suc zero) (x ∷ y ∷ es) h = cc
order_events-eq a (suc (suc n)) (x ∷ y ∷ es) h =
    let first : x.sequence ≡ suc a = head_eq h in
    let second : y.sequence ≡ suc (suc a) = head_eq (tail_eq h) in
    let t : leb x.sequence y.sequence ≡ true = ground arith in
    rw (order_events-eq (suc a) (suc n) (y ∷ es) (tail_eq h)) (rw t)

sequences-take :
    (limit k n : ℕ) (es : List AgentEvent)
    → sequences es ≡ range k n
    → sequences (take limit es) ≡ range k (min limit n)
sequences-take zero k n es h = let e : min 0 n ≡ 0 = omega arith in rw e
sequences-take (suc l) k zero [] h = let e : min (suc l) 0 ≡ 0 = omega arith in rw e
sequences-take (suc l) k (suc n) [] h = cc
sequences-take (suc l) k zero (x ∷ es) h = cc
sequences-take (suc l) k (suc n) (x ∷ es) h =
    let e : min (suc l) (suc n) ≡ suc (min l n) = omega arith in
    rw e (cc (sequences-take l (suc k) n es (tail_eq h)))

-- In a database whose timelines are numbered without a gap and agree with the runs' states, reading
-- a run's events behind sequence `k` returns those numbered `k + 1`, `k + 2`, … in order,
-- up to the limit or to the last event of the run: a reader that goes on from the last sequence
-- that it has seen misses none and sees none twice.
pub sequences-list_events :
    (run_id k limit : ℕ) (db : Db)
    → IsTimeline db
    → let last = last_sequence (find_run run_id db.runs) in
      (es : List AgentEvent) × (list_events run_id k limit db ≡ (ok es, db))
      × (sequences es ≡ range k (min limit (last - k)))
unfolding list_events
sequences-list_events run_id k limit db h =
    let last = last_sequence (find_run run_id db.runs) in
    let mine : sequences (events_of run_id db.events) ≡ range 0 last =
      h.numbered run_id ∙ up_to-eq-range last in
    let m : max 0 k ≡ k = omega arith in
    let c : 0 + last - k ≡ last - k = omega arith in
    let new : sequences (behind k (events_of run_id db.events)) ≡ range k (last - k) =
      rw (m, c) at (sequences-behind k 0 last (events_of run_id db.events) mine) in
    let split = where_rows-&& (λ e. e.run_id == run_id) (λ e. ltb k e.sequence) db.events in
    (
      take limit
          (order_events (where_rows (λ e. (e.run_id == run_id) && ltb k e.sequence) db.events)),
      refl,
      rw split (
          rw (order_events-eq k (last - k) (behind k (events_of run_id db.events)) new)
            (sequences-take limit k (last - k) _ new)),
    )
