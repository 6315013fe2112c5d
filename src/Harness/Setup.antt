-- ===== src/Harness/Setup.antt =====
-- The first lines of `run_session` of src/tename/harness/service.py: the session, its agent, the
-- profile and the adapter.
use tename.Prelude.{ℕ, ◌≡◌, Result, ok, ◌>>=◌, err, String, ap, bind_ok}
use tename.Sessions.Models.{Agent}
use tename.Sessions.Store.{Db}
use tename.Sessions.Service.{wake, get_agent}
use tename.Harness.Profiles.{Profile}
use tename.Harness.Adapters.Base.{get_adapter}
use tename.Harness.World.{Adapter, Raised, Runtime, raised_in}

pub data Setup : Type 0 where
  set_up : Agent → Profile → Adapter → Setup

unfoldable pub setup : Runtime → ℕ → Db → Result Raised Setup
setup rt session_id db = raised_in Raised.session (wake session_id db) >>= λ s.
    raised_in Raised.session (get_agent s.agent_id db) >>= λ agent.
    raised_in Raised.profile (rt.load_profile agent.model) >>= λ p.
    raised_in Raised.adapter (get_adapter agent.framework rt.adapters) >>= λ cls.
    ok (set_up agent p (rt.adapter_of cls))

pub loaded :
    {A E : Type 0} (f : E → Raised) (r : Result E A) (a : A) → raised_in f r ≡ ok a → r ≡ ok a
loaded f (ok b) a h = ap ok (cc h)
loaded f (err e) a h = absurd (cc h)

-- The profile of a setup was loaded.
pub setup-profile :
    (rt : Runtime) (session_id : ℕ) (db : Db) (agent : Agent) (p : Profile) (a : Adapter)
    → setup rt session_id db ≡ ok (set_up agent p a)
    → (model : String) × (rt.load_profile model ≡ ok p)
unfolding setup
setup-profile rt session_id db agent p a h =
    let woken = bind_ok (raised_in Raised.session (wake session_id db)) _ _ h in
    let got = bind_ok (raised_in Raised.session (get_agent (woken.0).agent_id db)) _ _ woken.2 in
    let read = bind_ok (raised_in Raised.profile (rt.load_profile (got.0).model)) _ _ got.2 in
    let found =
      bind_ok (raised_in Raised.adapter (get_adapter (got.0).framework rt.adapters)) _ _ read.2 in
    ((got.0).model, loaded Raised.profile _ p (cc (read.1, found.2)))
