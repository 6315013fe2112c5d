-- ===== src/Prelude/Actions.antt =====
-- Stateful code that may raise: the state is there also after an exception, as it is in Python.
use mathlib.Core.Path.{◌≡◌, refl}
use tename.Prelude.Results.{Result, ok, err}

abbrev pub Action {ℓ} : Type 0 → Type 0 → Type ℓ → Type ℓ
Action S E A = S → S × Result E A

abbrev pub continue {ℓ κ} :
    {S E : Type 0} {A : Type ℓ} {B : Type κ} → S × Result E A → (A → Action S E B) → S × Result E B
continue (s, ok a) f = f a s
continue (s, err e) f = (s, err e)

infixl 5 ◌>>=◌ ◌>>◌
abbrev pub ◌>>=◌ {ℓ κ} :
    {S E : Type 0} {A : Type ℓ} {B : Type κ} → Action S E A → (A → Action S E B) → Action S E B
◌>>=◌ m f s = continue (m s) f

abbrev pub ◌>>◌ {ℓ} :
    {S E : Type 0} {B : Type ℓ} → Action S E (Unit {0}) → Action S E B → Action S E B
m >> k = m >>= λ _. k

abbrev pub give {ℓ} : {S E : Type 0} {A : Type ℓ} → A → Action S E A
give a s = (s, ok a)

abbrev pub raise {ℓ} : {S E : Type 0} {A : Type ℓ} → E → Action S E A
raise e s = (s, err e)

-- A result that needs no state.
abbrev pub lift {ℓ} : {S E : Type 0} {A : Type ℓ} → Result E A → Action S E A
lift r s = (s, r)

-- try: m except e: handler(e)
abbrev pub recover {ℓ} :
    {S E : Type 0} {A : Type ℓ} → (E → Action S E A) → S × Result E A → S × Result E A
recover handler (s, ok a) = (s, ok a)
recover handler (s, err e) = handler e s

unfoldable pub catch {ℓ} :
    {S E : Type 0} {A : Type ℓ} → Action S E A → (E → Action S E A) → Action S E A
catch m handler s = recover handler (m s)

-- try: m finally: after
abbrev pub conclude {ℓ} :
    {S E : Type 0} {A : Type ℓ} → Action S E (Unit {0}) → S × Result E A → S × Result E A
conclude after (s, r) = continue (after s) (λ _. lift r)

unfoldable pub finally {ℓ} :
    {S E : Type 0} {A : Type ℓ} → Action S E A → Action S E (Unit {0}) → Action S E A
finally m after s = conclude after (m s)

-- How a chain ends: as its first part, if that raises, and as the rest, if not.
pub continue_rule {ℓ κ ι} :
    {S E : Type 0} {A : Type ℓ} {B : Type κ} (P : S × Result E B → Type ι) (out : S × Result E A)
    (f : A → Action S E B)
    → ((e : E) → P (out.0, err e))
    → ((a : A) → out.1 ≡ ok a → P (f a out.0))
    → P (continue out f)
continue_rule P (s, ok a) f raised returned = returned a refl
continue_rule P (s, err e) f raised returned = raised e
