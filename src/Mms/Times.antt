-- ===== src/Mms/Times.antt =====
-- mms/value.rs: `UtcTime` and its conversions. A `SystemTime` is the pair that `unix_parts` splits
-- it into and `from_unix` builds it from: whole seconds since the epoch, and the nanoseconds after
-- them, below 10 ^ 9.
use rs_iec.Common.{
  ℕ, ℤ, pos, negsuc, ◌+◌, ◌-◌, ◌*◌, ◌/◌, ◌%◌, ◌^◌, ◌≤◌, ◌<◌, ◌≡◌, ◌≢◌, ap, ◌∙◌, List, [], ◌∷◌,
  Option, some, none, arith,
}

pub record Time : Type 0 where
  pub secs : ℤ
  pub nanos : ℕ

-- `secs as u32`
abbrev pub to_u32 : ℤ → ℕ
to_u32 (pos n) = n % 2 ^ 32
to_u32 (negsuc n) = 2 ^ 32 - 1 - n % 2 ^ 32

-- The nanoseconds scaled into 24 bits.
unfoldable pub fraction : ℕ → ℕ
fraction nanos = nanos * 2 ^ 24 / 1000000000

unfoldable pub utc_time : Time → ℕ → List ℕ
utc_time t q =
    let s = to_u32 t.secs in
    let frac = fraction t.nanos in
    (s / 2 ^ 24 % 256)
    ∷ (s / 2 ^ 16 % 256)
    ∷ (s / 2 ^ 8 % 256)
    ∷ (s % 256)
    ∷ (frac / 2 ^ 16 % 256)
    ∷ (frac / 2 ^ 8 % 256)
    ∷ (frac % 256)
    ∷ q
    ∷ []

-- And back.
unfoldable pub nanoseconds : ℕ → ℕ
nanoseconds frac = frac * 1000000000 / 2 ^ 24

unfoldable pub time : List ℕ → Option Time
time (a ∷ b ∷ c ∷ d ∷ e ∷ f ∷ g ∷ q ∷ []) = some (record {
  secs = pos (a * 2 ^ 24 + b * 2 ^ 16 + c * 2 ^ 8 + d);
  nanos = nanoseconds (e * 2 ^ 16 + f * 2 ^ 8 + g);
})
time _ = none

-- The quality octet.
unfoldable pub time_quality : List ℕ → ℕ
time_quality (a ∷ b ∷ c ∷ d ∷ e ∷ f ∷ g ∷ q ∷ []) = q
time_quality _ = 0

-- `TimeQuality::DEFAULT`
abbrev pub default_quality : ℕ
default_quality = 138

-- A time of the years that a `u32` of seconds covers is read back with the same seconds, and with
-- nanoseconds that are those that were written or at most 60 less.
pub time-utc_time :
    (secs nanos q : ℕ)
    → secs < 2 ^ 32
    → nanos < 1000000000
    → (n : ℕ) × (time (utc_time (record { secs = pos secs; nanos = nanos }) q)
        ≡ some (record { secs = pos secs; nanos = n }))
      × (n ≤ nanos)
      × (nanos ≤ n + 60)
unfolding time utc_time nanoseconds fraction
time-utc_time secs nanos q h k = (
  nanos * 2 ^ 24 / 1000000000 * 1000000000 / 2 ^ 24,
  ap (λ s. some (record { secs = pos s; nanos = nanoseconds (unpacked (fraction nanos)) }))
        (omega (arith, h))
      ∙ ap (λ f. some (record { secs = pos secs; nanos = nanoseconds f })) (omega (arith, k)),
  omega arith,
  omega arith,
)
  where
    unpacked : ℕ → ℕ
    unpacked f = f / 2 ^ 16 % 256 * 2 ^ 16 + f / 2 ^ 8 % 256 * 2 ^ 8 + f % 256

-- A fraction that is read and written again is one unit less, unless its nanoseconds are whole.
pub fraction-nanoseconds :
    (frac : ℕ)
    → frac < 2 ^ 24
    → frac * 1000000000 % 2 ^ 24 ≢ 0
    → fraction (nanoseconds frac) + 1 ≡ frac
unfolding fraction nanoseconds
fraction-nanoseconds frac h k = omega (arith, k)
