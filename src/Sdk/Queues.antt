-- ===== src/Sdk/Queues.antt =====
-- What the generator of `SessionHandle.send` yields, in every interleaving with the coroutine.
use tename.Prelude.{
  ℕ, ◌+◌, ◌*◌, ◌≡◌, ◌<◌, refl, ap, Option, none, some, List, [], ◌∷◌, ◌++◌, length, length-append,
  append_assoc, append-nil, arith,
}
use tename.Sdk.Queue.{
  Item, event, exception, sentinel, Consumer, waiting, yielding, returned, raised, all_puts, Sync,
  take_item, Step, puts, gets, resumes, Reach, started, later,
}

abbrev pub weight : {E : Type 0} → Consumer E → ℕ
weight yielding = 1
weight other = 0

module _ {A E : Type 0} where
  abbrev event_items : List A → List (Item A E)
  event_items [] = []
  event_items (a ∷ rest) = event a ∷ event_items rest

  -- What the generator took out last, when it has ended.
  abbrev last_item : Consumer E → List (Item A E)
  last_item waiting = []
  last_item yielding = []
  last_item returned = sentinel ∷ []
  last_item (raised e) = exception e ∷ []

  abbrev taken : List A → Consumer E → List (Item A E)
  taken out consumer = event_items out ++ last_item consumer

  -- Nothing is lost, doubled or put in another order.
  abbrev Conserved : List A → Option E → Sync A E → Type 0
  Conserved events end s = (taken s.out s.consumer ++ (s.queue ++ s.left)) ≡ all_puts events end

  event_items-append : (xs ys : List A) → event_items (xs ++ ys) ≡ event_items xs ++ event_items ys
  event_items-append [] ys = refl
  event_items-append (x ∷ xs) ys = ap (◌∷◌ (event x)) (event_items-append xs ys)

  took :
      (s : Sync A E) (i : Item A E) (rest : List (Item A E))
      → s.consumer ≡ waiting
      → taken
          (take_item i (record s { queue = rest })).out
          (take_item i (record s { queue = rest })).consumer
        ≡ taken s.out s.consumer ++ i ∷ []
  unfolding take_item
  took s (event a) rest w = simp (w, event_items-append s.out (a ∷ []), append-nil)
  took s (exception e) rest w = simp (w, append-nil)
  took s sentinel rest w = simp (w, append-nil)

  took_keeps :
      (s : Sync A E) (i : Item A E) (rest : List (Item A E))
      → ((take_item i (record s { queue = rest })).queue ≡ rest)
        × ((take_item i (record s { queue = rest })).left ≡ s.left)
  unfolding take_item
  took_keeps s (event a) rest = (refl, refl)
  took_keeps s (exception e) rest = (refl, refl)
  took_keeps s sentinel rest = (refl, refl)

  Step-Conserved :
      (events : List A) (end : Option E) {s t : Sync A E}
      → Step s t
      → Conserved events end s
      → Conserved events end t
  Step-Conserved events end (puts s i rest e) held =
      rw (append_assoc s.queue (i ∷ []) rest) (rw e at held)
  Step-Conserved events end (gets s i rest w e) held =
      rw
        (
          took s i rest w,
          (took_keeps s i rest).0,
          (took_keeps s i rest).1,
          append_assoc (taken s.out s.consumer) (i ∷ []) (rest ++ s.left),
        )
        (rw e at held)
  Step-Conserved events end (resumes s w) held = rw w at held

  -- A generator that has returned, or raised, has yielded everything.
  event_items_returned :
      (out events : List A) (end : Option E) (rest : List (Item A E))
      → (event_items out ++ sentinel ∷ rest) ≡ all_puts events end
      → (out ≡ events) × (end ≡ none)
  unfolding all_puts
  event_items_returned [] [] none rest h = (refl, refl)
  event_items_returned [] [] (some e) rest h = cc h
  event_items_returned [] (a ∷ es) end rest h = cc h
  event_items_returned (x ∷ xs) [] none rest h = cc h
  event_items_returned (x ∷ xs) [] (some e) rest h = cc h
  event_items_returned (x ∷ xs) (a ∷ es) end rest h =
      let tails : (event_items xs ++ sentinel ∷ rest) ≡ all_puts es end = cc h in
      let same : x ≡ a = cc h in
      let later = event_items_returned xs es end rest tails in (cc (same, later.0), later.1)

  event_items_raised :
      (out events : List A) (end : Option E) (e : E) (rest : List (Item A E))
      → (event_items out ++ exception e ∷ rest) ≡ all_puts events end
      → (out ≡ events) × (end ≡ some e)
  unfolding all_puts
  event_items_raised [] [] none e rest h = cc h
  event_items_raised [] [] (some x) e rest h = (refl, cc h)
  event_items_raised [] (a ∷ es) end e rest h = cc h
  event_items_raised (x ∷ xs) [] none e rest h = cc h
  event_items_raised (x ∷ xs) [] (some y) e rest h = cc h
  event_items_raised (x ∷ xs) (a ∷ es) end e rest h =
      let tails : (event_items xs ++ exception e ∷ rest) ≡ all_puts es end = cc h in
      let same : x ≡ a = cc h in
      let later = event_items_raised xs es end e rest tails in (cc (same, later.0), later.1)

  event_items_open :
      (out events : List A) (end : Option E) → event_items out ≡ all_puts events end → ⊥
  unfolding all_puts
  event_items_open [] [] none h = cc h
  event_items_open [] [] (some x) h = cc h
  event_items_open [] (a ∷ es) end h = cc h
  event_items_open (x ∷ xs) [] none h = cc h
  event_items_open (x ∷ xs) [] (some y) h = cc h
  event_items_open (x ∷ xs) (a ∷ es) end h = event_items_open xs es end (cc h)

  Reach-Conserved :
      (events : List A) (end : Option E) {s : Sync A E}
      → Reach events end s
      → Conserved events end s
  Reach-Conserved events end started = refl
  Reach-Conserved events end (later r st) =
      Step-Conserved events end st (Reach-Conserved events end r)

  -- What is left to do.
  abbrev pub measure : Sync A E → ℕ
  measure s = 3 * length s.left + 2 * length s.queue + weight s.consumer

  taken_lighter :
      (s : Sync A E) (i : Item A E) (rest : List (Item A E))
      → s.queue ≡ i ∷ rest
      → measure (take_item i (record s { queue = rest })) < measure s
  unfolding take_item
  taken_lighter s (event a) rest e = omega (arith, ap length e)
  taken_lighter s (exception x) rest e = omega (arith, ap length e)
  taken_lighter s sentinel rest e = omega (arith, ap length e)

  Step-lighter : {s t : Sync A E} → Step s t → measure t < measure s
  Step-lighter (puts s i rest e) = omega (arith, ap length e, length-append {0} s.queue (i ∷ []))
  Step-lighter (gets s i rest w e) = taken_lighter s i rest e
  Step-lighter (resumes s w) = rw w (omega arith)

  -- How the generator stands: it has ended as the asynchronous `send` did, or something can happen.
  pub data Stands (events : List A) (end : Option E) (s : Sync A E) : Type 0 where
    ended : s.consumer ≡ returned → s.out ≡ events → end ≡ none → Stands events end s
    failed : (e : E) → s.consumer ≡ raised e → s.out ≡ events → end ≡ some e → Stands events end s
    goes_on : (t : Sync A E) → Step s t → Stands events end s

  waits :
      (events : List A) (end : Option E) (s : Sync A E) (queue left : List (Item A E))
      → s.consumer ≡ waiting
      → s.queue ≡ queue
      → s.left ≡ left
      → Conserved events end s
      → Stands events end s
  waits events end s (i ∷ rest) left w q l held = goes_on _ (gets s i rest w q)
  waits events end s [] (i ∷ rest) w q l held = goes_on _ (puts s i rest l)
  waits events end s [] [] w q l held =
      let all =
        rw (append-nil (event_items s.out), append-nil (event_items s.out)) at
          (rw (w, q, l) at held) in
      absurd (event_items_open s.out events end all)

  stands :
      (events : List A) (end : Option E) (s : Sync A E) (c : Consumer E)
      → s.consumer ≡ c
      → Conserved events end s
      → Stands events end s
  stands events end s waiting w held = waits events end s s.queue s.left w refl refl held
  stands events end s yielding w held = goes_on _ (resumes s w)
  stands events end s returned w held =
      let split = event_items_returned s.out events end (s.queue ++ s.left) (
        rw (append_assoc (event_items s.out) (sentinel ∷ []) (s.queue ++ s.left)) at
          (rw w at held)) in
      ended w split.0 split.1
  stands events end s (raised e) w held =
      let split = event_items_raised s.out events end e (s.queue ++ s.left) (
        rw (append_assoc (event_items s.out) (exception e ∷ []) (s.queue ++ s.left)) at
          (rw w at held)) in
      failed e w split.0 split.1

  -- In every interleaving of the coroutine and the generator: a generator that has returned has yielded
  -- the events of the asynchronous `send`, in their order, which then ended; one that has raised has
  -- yielded them all and raised the exception of the asynchronous `send`; any other can go on; and each
  -- step leaves less to do, so every run ends.
  pub send_agrees :
      (events : List A) (end : Option E) (s : Sync A E)
      → Reach events end s
      → Stands events end s × ((t : Sync A E) → Step s t → measure t < measure s)
  send_agrees events end s reached = (
    stands events end s s.consumer refl (Reach-Conserved events end reached),
    λ t st. Step-lighter st,
  )
