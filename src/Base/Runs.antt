-- ===== src/Base/Runs.antt =====
-- Code that awaits futures, on fuel: a value, an error, or nothing where the fuel has run out.
use mathlib.Core.Option.{Option, none, some}
use pure_grpc_rs.Base.Results.{Result, ok, err}

abbrev pub Run : Type 0 → Type 0 → Type 0
Run E A = Option (Result E A)

infixl 5 ◌>>=◌
abbrev pub ◌>>=◌ : {E A B : Type 0} → Run E A → (A → Run E B) → Run E B
none >>= f = none
some (err e) >>= f = some (err e)
some (ok a) >>= f = f a

abbrev pub settled_pair : {E S A : Type 0} → S × Result E A → Result E (S × A)
settled_pair (s, ok a) = ok (s, a)
settled_pair (s, err e) = err e

-- An awaited method of `&mut self`, with what it leaves of the object for the code after it.
abbrev pub settled : {E S A : Type 0} → Option (S × Result E A) → Run E (S × A)
settled none = none
settled (some r) = some (settled_pair r)

-- `Option::ok_or_else`
abbrev pub ok_or_else : {E A : Type 0} → E → Option A → Result E A
ok_or_else e none = err e
ok_or_else e (some a) = ok a

abbrev pub map_failure : {E F A : Type 0} → (E → F) → Run E A → Run F A
map_failure f none = none
map_failure f (some (ok a)) = some (ok a)
map_failure f (some (err e)) = some (err (f e))
