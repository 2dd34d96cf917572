-- ===== src/Request/Timeout.antt =====
-- The timeout header (request.rs, `duration_to_grpc_timeout`), and requests on their way over HTTP.
use pure_grpc_rs.Base.{
  ℕ, ◌+◌, ◌*◌, ◌/◌, ◌≤◌, ◌<◌, [], ◌∷◌, ◌++◌, Option, none, some, ◌≡◌, refl, ap, ◌∙◌, ◌⊎◌, inl, inr,
  arith, or_else,
}
use pure_grpc_rs.Base.Text.{decimal}
use pure_grpc_rs.Base.Words.{Bytes}
use pure_grpc_rs.Request.{
  Duration, as_nanos, as_micros, as_millis, clamp, try_format, duration_to_grpc_timeout,
}

-- The units of the protocol, from the finest on.
pub data TimeUnit : Type 0 where
  nanoseconds microseconds milliseconds seconds minutes hours : TimeUnit

abbrev pub unit_byte : TimeUnit → ℕ
unit_byte nanoseconds = b'n'
unit_byte microseconds = b'u'
unit_byte milliseconds = b'm'
unit_byte seconds = b'S'
unit_byte minutes = b'M'
unit_byte hours = b'H'

abbrev pub unit_nanos : TimeUnit → ℕ
unit_nanos nanoseconds = 1
unit_nanos microseconds = 1000
unit_nanos milliseconds = 1000000
unit_nanos seconds = 1000000000
unit_nanos minutes = 60000000000
unit_nanos hours = 3600000000000

-- The next finer unit has no room for the duration.
abbrev pub IsFinest : TimeUnit → ℕ → Type 0
IsFinest nanoseconds n = Unit
IsFinest microseconds n = 99999999 < n
IsFinest milliseconds n = 99999999 < n / 1000
IsFinest seconds n = 99999999 < n / 1000000
IsFinest minutes n = 99999999 < n / 1000000000
IsFinest hours n = 99999999 < n / 60000000000

-- The header says a duration of `n` nanoseconds, rounded down, in the finest unit with room for it.
pub record IsTimeout (n : ℕ) (header : Bytes) : Type 0 where
  pub value : ℕ
  pub unit : TimeUnit
  pub says : header ≡ decimal value ++ (unit_byte unit ∷ [])
  pub fits : value ≤ 99999999
  pub rounded : (value * unit_nanos unit ≤ n) × (n < (value + 1) * unit_nanos unit)
  pub finest : IsFinest unit n

abbrev ladder : ℕ → Option Bytes
ladder n = or_else (try_format n b'n') (
    or_else (try_format (n / 1000) b'u') (
      or_else (try_format (n / 1000000) b'm') (
        or_else (try_format (n / 1000000000) b'S')
          (or_else (try_format (n / 60000000000) b'M') (try_format (n / 3600000000000) b'H')))))

no_room : (value unit : ℕ) → 99999999 < value → try_format value unit ≡ none
unfolding try_format
no_room value unit h = ground (arith, h)

room :
    (value unit : ℕ)
    → value ≤ 99999999
    → try_format value unit ≡ some (decimal value ++ (unit ∷ []))
unfolding try_format
room value unit h = ground (arith, h)

at_most : (value : ℕ) → (value ≤ 99999999) ⊎ (99999999 < value)
at_most value = ground arith

abbrev Timeout : ℕ → Option Bytes → Type 0
Timeout n r = (header : Bytes) × (r ≡ some header) × IsTimeout n header

fits_in :
    (n value : ℕ) (u : TimeUnit)
    → value ≤ 99999999
    → value * unit_nanos u ≤ n
    → n < (value + 1) * unit_nanos u
    → IsFinest u n
    → IsTimeout n (decimal value ++ (unit_byte u ∷ []))
fits_in n value u h l g f = record {
  value = value;
  unit = u;
  says = refl;
  fits = h;
  rounded = (l, g);
  finest = f;
}

-- One step of the ladder of units.
step :
    (n value : ℕ) (u : TimeUnit) (rest : Option Bytes)
    → value * unit_nanos u ≤ n
    → n < (value + 1) * unit_nanos u
    → IsFinest u n
    → (99999999 < value → Timeout n rest)
    → Timeout n (or_else (try_format value (unit_byte u)) rest)
step n value u rest l g f k = elim (at_most value) [
  | inl h ↦ (_, ap (λ r. or_else r rest) (room value (unit_byte u) h), fits_in n value u h l g f)
  | inr h ↦
      let (header, e, t) = k h in
      (header, ap (λ r. or_else r rest) (no_room value (unit_byte u) h) ∙ e, t)
]

ladder-Timeout : (n : ℕ) → n ≤ 359999996400000000000 → Timeout n (ladder n)
ladder-Timeout n b = step n n nanoseconds _ (omega arith) (omega arith) tt λ h.
    step n (n / 1000) microseconds _ (omega arith) (omega arith) h λ h.
      step n (n / 1000000) milliseconds _ (omega arith) (omega arith) h λ h.
        step n (n / 1000000000) seconds _ (omega arith) (omega arith) h λ h.
          step n (n / 60000000000) minutes _ (omega arith) (omega arith) h λ h. (
            _,
            room (n / 3600000000000) b'H' (omega (arith, b)),
            fits_in n (n / 3600000000000) hours (omega (arith, b)) (omega arith) (omega arith) h,
          )

clamp-bounds :
    (d : Duration)
    → d.nanos < 1000000000
    → ((clamp d).nanos < 1000000000) × (as_nanos (clamp d) ≤ 359999996400000000000)
clamp-bounds d h = ground (arith, h)

rungs-ladder :
    (n u m s t h : ℕ)
    → u ≡ n / 1000
    → m ≡ n / 1000000
    → s ≡ n / 1000000000
    → t ≡ n / 60000000000
    → h ≡ n / 3600000000000
    → or_else (try_format n b'n') (
        or_else (try_format u b'u') (
          or_else
            (try_format m b'm')
            (or_else (try_format s b'S') (or_else (try_format t b'M') (try_format h b'H')))))
      ≡ ladder n
rungs-ladder n u m s t h e f g i j = rw (e, f, g, i, j) refl

ladder-clamp :
    (d : Duration) → d.nanos < 1000000000 → duration_to_grpc_timeout d ≡ ladder (as_nanos (clamp d))
unfolding duration_to_grpc_timeout
ladder-clamp d h =
    let c : Duration = clamp d in
    let (b, _) = clamp-bounds d h in
    let micros : as_micros c ≡ as_nanos c / 1000 = omega (arith, b) in
    let millis : as_millis c ≡ as_nanos c / 1000000 = omega (arith, b) in
    let secs : c.secs ≡ as_nanos c / 1000000000 = omega (arith, b) in
    let minutes : c.secs / 60 ≡ as_nanos c / 60000000000 = omega (arith, b) in
    let hours : c.secs / 60 / 60 ≡ as_nanos c / 3600000000000 = omega (arith, b) in
    rungs-ladder (as_nanos c) _ _ _ _ _ micros millis secs minutes hours

-- A duration, with its nanoseconds below a second, is always written as a timeout, without a
-- panic: a value of at most 99999999 and a unit, which say the duration (at most 99999999 hours)
-- rounded down to the unit, in the finest unit that has room for it.
pub duration_to_grpc_timeout-rounded :
    (d : Duration)
    → d.nanos < 1000000000
    → (header : Bytes) × (duration_to_grpc_timeout d ≡ some header)
      × IsTimeout (as_nanos (clamp d)) header
duration_to_grpc_timeout-rounded d h =
    let (header, e, t) = ladder-Timeout (as_nanos (clamp d)) (clamp-bounds d h).1 in
    (header, ladder-clamp d h ∙ e, t)
