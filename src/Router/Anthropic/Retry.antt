-- ===== src/Router/Anthropic/Retry.antt =====
-- `_open_stream_with_retry` of src/tename/router/providers/anthropic.py. What each attempt comes to
-- is an argument; a sleep of `base * multiplier ** attempt` seconds is its exponent.
use tename.Prelude.{
  ℕ, zero, suc, ◌+◌, ◌-◌, ◌≤◌, ◌<◌, ◌≡◌, refl, ap, sym, subst, Bool, true, false, Option, none,
  some, List, [], ◌∷◌, String, ltb, if◌then◌else◌, arith, Bool-cases, ==_iff, ◌==◌, inl, inr, ◌⊎◌,
}
use tename.Router.Types.{ModelChunk, error}
use tename.Router.Anthropic.{JsonReader, StreamEvent, Ending, stream_chunks}

-- ErrorHandling of types.py; the factors of the backoff are floats, which stand for their texts.
pub record ErrorHandling : Type 0 where
  pub retry_on_transient : Bool
  pub max_retries : ℕ
  pub backoff_base_seconds : String
  pub backoff_multiplier : String

-- How entering a stream ends: the stream, an APIStatusError, an APIConnectionError or
-- APITimeoutError, or another exception, which passes through.
pub data Attempt : Type 0 where
  entered : List StreamEvent → Ending → Attempt
  refused : (status_code : ℕ) (message : String) → Attempt
  unreachable : (message : String) → Attempt
  broken : Attempt

-- last_retryable_exc
pub data Transient : Type 0 where
  transient : (status_code : Option ℕ) (message : String) → Transient

pub data Opened : Type 0 where
  opened : List StreamEvent → Ending → Opened
  failed : (message : String) (retryable : Bool) (status_code : Option ℕ) → Opened
  passed_through : Opened

-- What the loop did: the attempts it made, the exponents of its sleeps, and what it returns.
pub record Opening : Type 0 where
  pub attempts : ℕ
  pub sleeps : List ℕ
  pub outcome : Opened

-- An attempt that ends the loop, or the exception to remember.
pub data Verdict : Type 0 where
  ends : Opened → Verdict
  retries : Transient → Verdict

unfoldable pub judge : Attempt → Verdict
judge (entered events ending) = ends (opened events ending)
judge (refused code message) =
    if ltb code 500
    then ends (failed message false (some code))
    else retries (transient (some code) message)
judge (unreachable message) = retries (transient none message)
judge broken = ends passed_through

abbrev pub give_up : (failure_text : String → String) → Transient → Opened
give_up failure_text (transient code message) = failed (failure_text message) true code

-- max_attempts, which is at least 1
unfoldable pub max_attempts : ErrorHandling → ℕ
max_attempts eh = if eh.retry_on_transient then eh.max_retries + 1 else 1

-- An attempt that ends the loop, and what it comes to.
pub data Final : Attempt → Opened → Type 0 where
  streams :
      {events : List StreamEvent} {ending : Ending}
      → Final (entered events ending) (opened events ending)
  rejected :
      {code : ℕ} {message : String}
      → code < 500
      → Final (refused code message) (failed message false (some code))
  passes : Final broken passed_through

-- An attempt after which another may be made.
pub data Retryable : Attempt → Transient → Type 0 where
  overloaded :
      {code : ℕ} {message : String}
      → 500 ≤ code
      → Retryable (refused code message) (transient (some code) message)
  unreached : {message : String} → Retryable (unreachable message) (transient none message)

judge-Final : (a : Attempt) (o : Opened) → judge a ≡ ends o → Final a o
unfolding judge
judge-Final (entered events ending) o h =
    let same : opened events ending ≡ o = cc h in subst (Final (entered events ending)) same streams
judge-Final (refused code message) o h = elim (Bool-cases (ltb code 500)) [
  | inl low ↦
      let same : failed message false (some code) ≡ o = cc (rw low at h) in
      subst (Final (refused code message)) same (rejected (ground (arith, low)))
  | inr high ↦ absurd (cc (rw high at h))
]
judge-Final (unreachable message) o h = absurd (cc h)
judge-Final broken o h = let same : passed_through ≡ o = cc h in subst (Final broken) same passes

judge-Retryable : (a : Attempt) (t : Transient) → judge a ≡ retries t → Retryable a t
unfolding judge
judge-Retryable (entered events ending) t h = absurd (cc h)
judge-Retryable (refused code message) t h = elim (Bool-cases (ltb code 500)) [
  | inl low ↦ absurd (cc (rw low at h))
  | inr high ↦
      let same : transient (some code) message ≡ t = cc (rw high at h) in
      subst (Retryable (refused code message)) same (overloaded (ground (arith, high)))
]
judge-Retryable (unreachable message) t h =
    let same : transient none message ≡ t = cc h in
    subst (Retryable (unreachable message)) same unreached
judge-Retryable broken t h = absurd (cc h)

-- `failure_text` puts "anthropic stream startup failed after retries: " in front.
module _ (failure_text : String → String) (attempt_at : ℕ → Attempt) where
  -- From an attempt on, with this many left after it.
  unfoldable pub retry_from : (attempt left : ℕ) → Opening
  retry_from attempt zero = elim (judge (attempt_at attempt)) [
    | ends o ↦ record { attempts = attempt + 1; sleeps = []; outcome = o }
    | retries t ↦ record { attempts = attempt + 1; sleeps = []; outcome = give_up failure_text t }
  ]
  retry_from attempt (suc left) = elim (judge (attempt_at attempt)) [
    | ends o ↦ record { attempts = attempt + 1; sleeps = []; outcome = o }
    | retries t ↦
        let rest = retry_from (attempt + 1) left in record rest { sleeps = attempt ∷ rest.sleeps }
  ]

  unfoldable pub open_stream_with_retry : ErrorHandling → Opening
  open_stream_with_retry eh = retry_from 0 (max_attempts eh - 1)

  -- The chunks of what was opened.
  abbrev pub chunks_of : JsonReader → Opened → List ModelChunk
  chunks_of reader (opened events ending) = stream_chunks reader events ending
  chunks_of reader (failed message retryable code) = error message retryable code ∷ []
  chunks_of reader passed_through = []

  -- _stream
  unfoldable pub stream : JsonReader → ErrorHandling → List ModelChunk
  stream reader eh = chunks_of reader (open_stream_with_retry eh).outcome

  abbrev pub IsTransient : ℕ → Type 0
  IsTransient n = (t : Transient) × Retryable (attempt_at n) t

  -- The numbers from a start on.
  abbrev pub count : ℕ → ℕ → List ℕ
  count start zero = []
  count start (suc n) = start ∷ count (start + 1) n

  -- How the loop from an attempt on went, with `made` attempts before its last one: each of them was
  -- transient and was slept on; the last one ended it, or was transient and there were no more.
  pub record Went (attempt left : ℕ) (o : Opening) : Type 0 where
    pub made : ℕ
    pub last : ℕ
    pub within : made ≤ left
    pub last_is : last ≡ attempt + made
    pub counts : o.attempts ≡ last + 1
    pub slept : o.sleeps ≡ count attempt made
    pub before : (n : ℕ) → attempt ≤ n → n < last → IsTransient n
    pub ended :
        Final (attempt_at last) o.outcome
        ⊎ ((made ≡ left)
            × (code : Option ℕ) × (message : String) × Retryable
                (attempt_at last)
                (transient code message)
            × (o.outcome ≡ failed (failure_text message) true code))

  Verdict-cases :
      (v : Verdict) → ((o : Opened) × (v ≡ ends o)) ⊎ ((t : Transient) × (v ≡ retries t))
  Verdict-cases (ends o) = inl (o, refl)
  Verdict-cases (retries t) = inr (t, refl)

  -- An attempt that ends the loop.
  stops :
      (attempt left : ℕ) (o : Opened)
      → judge (attempt_at attempt) ≡ ends o
      → Went attempt left (record { attempts = attempt + 1; sleeps = []; outcome = o })
  stops attempt left o h = record {
    made = 0;
    last = attempt;
    within = omega arith;
    last_is = omega arith;
    counts = refl;
    slept = refl;
    before = λ n low high. absurd (omega (arith, low, high));
    ended = inl (judge-Final (attempt_at attempt) o h);
  }

  earlier :
      (attempt last : ℕ) (t : Transient)
      → Retryable (attempt_at attempt) t
      → ((n : ℕ) → attempt + 1 ≤ n → n < last → IsTransient n)
      → (n : ℕ) → attempt ≤ n
      → n < last
      → IsTransient n
  earlier attempt last t h later n low high = elim (Bool-cases (n == attempt)) [
    | inl same ↦ (t, subst (λ k. Retryable (attempt_at k) t) (sym ((==_iff n attempt).0 same)) h)
    | inr other ↦ later n (ground (arith, low, other)) high
  ]

  retry_from-Went : (attempt left : ℕ) → Went attempt left (retry_from attempt left)
  unfolding retry_from
  retry_from-Went attempt zero = elim (Verdict-cases (judge (attempt_at attempt))) [
    | inl (o, h) ↦ rw (h, retry_from) (stops attempt 0 o h)
    | inr (transient code message, h) ↦
        rw (h, retry_from)
          (record {
            made = 0;
            last = attempt;
            within = omega arith;
            last_is = omega arith;
            counts = refl;
            slept = refl;
            before = λ n low high. absurd (omega (arith, low, high));
            ended = inr (
              refl,
              code,
              message,
              judge-Retryable (attempt_at attempt) (transient code message) h,
              refl,
            );
          })
  ]
  retry_from-Went attempt (suc left) = elim (Verdict-cases (judge (attempt_at attempt))) [
    | inl (o, h) ↦ rw (h, retry_from) (stops attempt (suc left) o h)
    | inr (t, h) ↦
        let rest = retry_from-Went (attempt + 1) left in
        rw (h, retry_from)
          (record {
            made = suc rest.made;
            last = rest.last;
            within = omega (arith, rest.within);
            last_is = omega (arith, rest.last_is);
            counts = rest.counts;
            slept = ap (λ r. attempt ∷ r) rest.slept;
            before =
                earlier attempt rest.last t (judge-Retryable (attempt_at attempt) t h) rest.before;
            ended = elim rest.ended [
              | inl e ↦ inl e
              | inr (all, code, message, last_one, same) ↦
                  inr (ap suc all, code, message, last_one, same)
            ];
          })
  ]

  -- How many attempts may follow the first.
  abbrev pub retries_of : ErrorHandling → ℕ
  retries_of eh = if eh.retry_on_transient then eh.max_retries else 0

  max_attempts-retries_of : (eh : ErrorHandling) → max_attempts eh - 1 ≡ retries_of eh
  unfolding max_attempts
  max_attempts-retries_of eh = ground arith

  -- The loop ends after at most max_retries + 1 attempts (one, without retries), and makes at least
  -- one. Each attempt but the last was transient and was slept on once, with the exponents
  -- 0, 1, 2, ...; the last one ended the loop by itself, with a stream, with an error of a
  -- status below 500 or with an exception that passes through, or was transient and the last one
  -- allowed, which is the retryable error. Transient are a status of at least 500 and a failed
  -- connection.
  pub open_stream_with_retry_lem :
      (eh : ErrorHandling)
      → Went 0 (retries_of eh) (open_stream_with_retry eh)
        × ((open_stream_with_retry eh).attempts ≤ eh.max_retries + 1)
        × (1 ≤ (open_stream_with_retry eh).attempts)
  unfolding open_stream_with_retry
  open_stream_with_retry_lem eh =
      let same = max_attempts-retries_of eh in
      let w : Went 0 (retries_of eh) (retry_from 0 (max_attempts eh - 1)) =
        subst (λ n. Went 0 (retries_of eh) (retry_from 0 n)) (sym same)
          (retry_from-Went 0 (retries_of eh)) in
      (w, ground (arith, w.counts, w.last_is, w.within), omega (arith, w.counts))
