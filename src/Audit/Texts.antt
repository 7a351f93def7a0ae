-- ===== src/Audit/Texts.antt =====
-- The texts that go into the envelopes: `bytes.hex()`, `str(uuid.UUID)` and the `_utc_timestamp` of
-- apps/audit/sealing.py. A UUID is its 128-bit number.
pub mod Injective
pub mod Uuid
use Prim.Native.String.{◌++◌, count}
use text.Mathlib.TextLemmas.{length-append}
use agentledger_mvp_v.Base.{
  ℕ, zero, suc, ◌+◌, ◌-◌, ◌*◌, ◌/◌, ◌%◌, ◌^◌, ◌≡◌, refl, String, List, [], ◌∷◌, All, length, arith,
  ltb, if◌then◌else◌,
}
use agentledger_mvp_v.Audit.Merkle.{Bytes}

abbrev pub digits : List String
digits =
    "0" ∷ "1" ∷ "2" ∷ "3" ∷ "4" ∷ "5" ∷ "6" ∷ "7" ∷ "8" ∷ "9" ∷ "a" ∷ "b" ∷ "c" ∷ "d" ∷ "e" ∷ "f"
    ∷ []

abbrev pub nth : List String → ℕ → String
nth [] n = "f"
nth (d ∷ ds) zero = d
nth (d ∷ ds) (suc n) = nth ds n

-- `bytes.hex()`
unfoldable pub hex : Bytes → String
hex [] = ""
hex (b ∷ bs) = nth digits (b / 16) ++ (nth digits (b % 16) ++ hex bs)

-- The last `width` digits of a number to a base of at most 16.
abbrev pub padded : ℕ → ℕ → ℕ → String
padded base zero n = ""
padded base (suc width) n = padded base width (n / base) ++ nth digits (n % base)

-- `str(uuid.UUID)`: groups of 8, 4, 4, 4 and 12 digits.
unfoldable pub uuid_text : ℕ → String
uuid_text u =
    padded 16 8 (u / 2 ^ 96)
    ++ ("-"
        ++ (padded 16 4 (u / 2 ^ 80)
            ++ ("-"
                ++ (padded 16 4 (u / 2 ^ 64)
                    ++ ("-" ++ (padded 16 4 (u / 2 ^ 48) ++ ("-" ++ padded 16 12 u)))))))

-- The calendar day of a number of days since 1970-01-01, as year, month and day.
abbrev civil_day : ℕ → ℕ × (ℕ × ℕ)
civil_day days =
    let z = days + 719468 in
    let doe = z % 146097 in
    let yoe = (doe - doe / 1460 + doe / 36524 - doe / 146096) / 365 in
    let doy = doe - (365 * yoe + yoe / 4 - yoe / 100) in
    let mp = (5 * doy + 2) / 153 in
    let month = if ltb mp 10 then mp + 3 else mp - 9 in
    let year = yoe + 400 * (z / 146097) in
    (if ltb month 3 then year + 1 else year, (month, doy - (153 * mp + 2) / 5 + 1))

-- `strftime("%Y-%m-%dT%H:%M:%S.")` and the microseconds, of the microseconds since 1970 in UTC.
unfoldable pub utc_text : ℕ → String
utc_text t =
    let (year, (month, day)) = civil_day (t / 86400000000) in
    let seconds = t / 1000000 in
    padded 10 4 year
    ++ ("-"
        ++ (padded 10 2 month
            ++ ("-"
                ++ (padded 10 2 day
                    ++ ("T"
                        ++ (padded 10 2 (seconds / 3600 % 24)
                            ++ (":"
                                ++ (padded 10 2 (seconds / 60 % 60)
                                    ++ (":"
                                        ++ (padded 10 2 (seconds % 60)
                                            ++ ("." ++ (padded 10 6 t ++ "Z"))))))))))))

pub nth-one : (ds : List String) (n : ℕ) → All (λ d. count d ≡ 1) ds → count (nth ds n) ≡ 1
nth-one [] n h = refl
nth-one (d ∷ ds) zero h = h.0
nth-one (d ∷ ds) (suc n) h = nth-one ds n h.1

pub digits-one : All (λ d. count d ≡ 1) digits
digits-one = (
  refl,
  (
    refl,
    (
      refl,
      (
        refl,
        (
          refl,
          (
            refl,
            (refl, (refl, (refl, (refl, (refl, (refl, (refl, (refl, (refl, (refl, tt)))))))))),
          ),
        ),
      ),
    ),
  ),
)

-- Two digits for each byte.
pub count-hex : (b : Bytes) → count (hex b) ≡ 2 * length b
unfolding hex
count-hex [] = refl
count-hex (b ∷ bs) = omega (
  arith,
  length-append (nth digits (b / 16)) (nth digits (b % 16) ++ hex bs),
  length-append (nth digits (b % 16)) (hex bs),
  nth-one digits (b / 16) digits-one,
  nth-one digits (b % 16) digits-one,
  count-hex bs,
)

uuid_text_run :
    uuid_text 5233100606242806050955395731361295 ≡ "00010203-0405-0607-0809-0a0b0c0d0e0f"
unfolding uuid_text
uuid_text_run = refl

utc_text_run : utc_text 1709210096000123 ≡ "2024-02-29T12:34:56.000123Z"
unfolding utc_text
utc_text_run = refl
