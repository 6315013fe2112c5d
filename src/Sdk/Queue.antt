-- ===== src/Sdk/Queue.antt =====
-- `SessionHandle.send` of src/tename/sdk/sessions.py: the coroutine on the background loop puts what the
-- asynchronous `send` yields into a queue, and the generator takes it out. The two interleave freely.
use tename.Prelude.{◌≡◌, Option, none, some, List, [], ◌∷◌, ◌++◌}

-- What is put into the queue: an event, an exception, or the sentinel.
pub data Item (A E : Type 0) : Type 0 where
  event : A → Item A E
  exception : E → Item A E
  sentinel : Item A E

-- The generator waits in `q.get()`, is suspended at its `yield`, has returned, or has raised.
pub data Consumer (E : Type 0) : Type 0 where
  waiting yielding returned : Consumer E
  raised : E → Consumer E

module _ {A E : Type 0} where
  abbrev pub last_puts : Option E → List (Item A E)
  last_puts none = sentinel ∷ []
  last_puts (some e) = exception e ∷ sentinel ∷ []

  -- All that `_drive` puts, where the asynchronous `send` yields these events and then ends, or raises.
  unfoldable pub all_puts : List A → Option E → List (Item A E)
  all_puts [] end = last_puts end
  all_puts (a ∷ events) end = event a ∷ all_puts events end

-- What `_drive` has still to put, the queue, what was yielded, and the generator.
pub record Sync (A E : Type 0) : Type 0 where
  pub left : List (Item A E)
  pub queue : List (Item A E)
  pub out : List A
  pub consumer : Consumer E

module _ {A E : Type 0} where
  -- The body of the loop, after `q.get()`.
  unfoldable pub take_item : Item A E → Sync A E → Sync A E
  take_item sentinel s = record s { consumer = returned }
  take_item (exception e) s = record s { consumer = raised e }
  take_item (event a) s = record s { out = s.out ++ a ∷ []; consumer = yielding }

  pub data Step : Sync A E → Sync A E → Type 0 where
    puts :
        (s : Sync A E) (i : Item A E) (rest : List (Item A E))
        → s.left ≡ i ∷ rest
        → Step s (record s { left = rest; queue = s.queue ++ i ∷ [] })
    gets :
        (s : Sync A E) (i : Item A E) (rest : List (Item A E))
        → s.consumer ≡ waiting
        → s.queue ≡ i ∷ rest
        → Step s (take_item i (record s { queue = rest }))
    resumes : (s : Sync A E) → s.consumer ≡ yielding → Step s (record s { consumer = waiting })

  abbrev pub start : List A → Option E → Sync A E
  start events end = record { left = all_puts events end; queue = []; out = []; consumer = waiting }

  pub data Reach (events : List A) (end : Option E) : Sync A E → Type 0 where
    started : Reach events end (start events end)
    later : {s t : Sync A E} → Reach events end s → Step s t → Reach events end t
