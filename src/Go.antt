-- ===== src/Go.antt =====
-- Go's `error` values, the pair `(T, error)`, and the calls of an environment that may fail.
use refresh.Prelude.{◌≡◌, refl, ap, Bool, ◌⊎◌, inl, inr, Option, none, some}
use refresh.Text.{Text, txt}

-- `context.Canceled`, `context.DeadlineExceeded`, a typed AWS error with its code, its fault (is it
-- the server's?), its message and its text, an error that is only a text, one that `%w` wraps
-- round another (its whole text comes first), and the upgrade's sentinel `ErrAborted`.
pub data GoError : Type 0 where
  canceled deadline_exceeded aborted : GoError
  api_error : (code : Text) (server_fault : Bool) (message text : Text) → GoError
  plain : Text → GoError
  wrapped : (text : Text) → GoError → GoError

-- `err.Error()`
unfoldable pub error_text : GoError → Text
error_text canceled = txt "context canceled"
error_text deadline_exceeded = txt "context deadline exceeded"
error_text aborted = txt "upgrade aborted by user"
error_text (api_error code fault message text) = text
error_text (plain text) = text
error_text (wrapped text e) = text

-- `(T, error)`: the value where the error is nil, and the error where it is not.
pub data Result {ℓ} (A : Type ℓ) : Type ℓ where
  ok : A → Result A
  err : GoError → Result A

pub Result-cases {ℓ} :
    {A : Type ℓ} (r : Result A) → ((a : A) × (r ≡ ok a)) ⊎ ((e : GoError) × (r ≡ err e))
Result-cases (ok a) = inl (a, refl)
Result-cases (err e) = inr (e, refl)

-- How a call of a function ends that may loop: with its value, with an error, or not within the
-- rounds that the model gives to its loops.
pub data Outcome (A : Type 0) : Type 0 where
  returned : A → Outcome A
  failed : GoError → Outcome A
  unfinished : Outcome A

pub Outcome-cases :
    {A : Type 0} (r : Outcome A)
    → ((a : A) × (r ≡ returned a)) ⊎ (((e : GoError) × (r ≡ failed e)) ⊎ (r ≡ unfinished))
Outcome-cases (returned a) = inl (a, refl)
Outcome-cases (failed e) = inr (inl (e, refl))
Outcome-cases unfinished = inr (inr refl)

-- A call that reads and changes the world: the cluster, the clock, the terminal.
abbrev pub M : Type 0 → Type 0 → Type 0
M W A = W → Outcome A × W

abbrev pub of_result : {A : Type 0} → Result A → Outcome A
of_result (ok a) = returned a
of_result (err e) = failed e

module _ {W : Type 0} {A : Type 0} where
  abbrev pub pure : A → M W A
  pure a w = (returned a, w)

  abbrev pub throw : GoError → M W A
  throw e w = (failed e, w)

module _ {W : Type 0} {A B : Type 0} where
  -- The rest of a function behind a call whose error it returns.
  abbrev pub and_then : Outcome A × W → (A → M W B) → Outcome B × W
  and_then (returned a, w) f = f a w
  and_then (failed e, w) f = (failed e, w)
  and_then (unfinished, w) f = (unfinished, w)

  infixl 5 ◌>>=◌ ◌>>◌
  abbrev pub ◌>>=◌ : M W A → (A → M W B) → M W B
  m >>= f = λ w. and_then (m w) f

  abbrev pub ◌>>◌ : M W A → M W B → M W B
  m >> n = m >>= λ _. n

-- Inversion of a bind that returns.
pub and_then-eq-returned :
    {W A B : Type 0} (r : Outcome A × W) (f : A → M W B) {b : B} {w : W}
    → and_then r f ≡ (returned b, w)
    → (a : A) × (v : W) × (r ≡ (returned a, v)) × (f a v ≡ (returned b, w))
and_then-eq-returned (returned a, v) f h = (a, v, refl, h)
and_then-eq-returned (failed e, v) f h = cc
and_then-eq-returned (unfinished, v) f h = cc

pub returned-eq : {W A : Type 0} {a b : A} {v w : W} → pure a v ≡ (returned b, w) → a ≡ b
returned-eq h = cc

-- `if err != nil { return format(err) }` behind a call.
abbrev pub map_failure : {W A : Type 0} → (GoError → GoError) → Outcome A × W → Outcome A × W
map_failure f (returned a, w) = (returned a, w)
map_failure f (failed e, w) = (failed (f e), w)
map_failure f (unfinished, w) = (unfinished, w)

-- Inversion of a bind that fails: in its first part, or behind it.
pub and_then-eq-failed :
    {W A B : Type 0} (r : Outcome A × W) (f : A → M W B) {e : GoError} {w : W}
    → and_then r f ≡ (failed e, w)
    → (r ≡ (failed e, w)) ⊎ ((a : A) × (v : W) × (r ≡ (returned a, v)) × (f a v ≡ (failed e, w)))
and_then-eq-failed (returned a, v) f h = inr (a, v, refl, h)
and_then-eq-failed (failed e, v) f h = inl (cc)
and_then-eq-failed (unfinished, v) f h = cc

pub map_failure-eq-returned :
    {W A : Type 0} (g : GoError → GoError) (r : Outcome A × W) {a : A} {w : W}
    → map_failure g r ≡ (returned a, w)
    → r ≡ (returned a, w)
map_failure-eq-returned g (returned a, w) h = h
map_failure-eq-returned g (failed e, w) h = cc
map_failure-eq-returned g (unfinished, w) h = cc

pub map_failure-eq-failed :
    {W A : Type 0} (g : GoError → GoError) (r : Outcome A × W) {e : GoError} {w : W}
    → map_failure g r ≡ (failed e, w)
    → (e' : GoError) × (e ≡ g e')
map_failure-eq-failed g (returned a, w) h = cc
map_failure-eq-failed g (failed e', w) h = (e', cc)
map_failure-eq-failed g (unfinished, w) h = cc

-- Nothing, or the error that a gate has found.
abbrev pub gate : {W : Type 0} → Option GoError → M W Unit
gate none w = (returned tt, w)
gate (some e) w = (failed e, w)

pub gate-eq-returned :
    {W : Type 0} (r : Option GoError) (v : W) {w : W}
    → gate r v ≡ (returned tt, w)
    → (r ≡ none) × (v ≡ w)
gate-eq-returned none v h = (refl, ap (λ x. x.1) h)
gate-eq-returned (some e) v h = cc

pub gate-eq-failed :
    {W : Type 0} (r : Option GoError) (v : W) {e : GoError} {w : W}
    → gate r v ≡ (failed e, w)
    → r ≡ some e
gate-eq-failed none v h = cc
gate-eq-failed (some e') v h = cc
