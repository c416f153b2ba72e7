-- ===== src/Invoices/Rates.antt =====
-- Exchange rates: api/src/modules/invoices/services/exchange-rate.service.ts. The live source and Redis
-- are arguments.
use crossbill_back.Base.{
  ℕ, ◌*◌, Bool, List, [], ◌∷◌, ◌++◌, Option, none, some, find?, if◌then◌else◌, get_or,
}
use crossbill_back.Base.Text.{Text, codes, text_eq}
use crossbill_back.Base.Doubles.{Double}
use crossbill_back.Clients.{upper}

pub record CapturedRate (W : Type 0) : Type 0 where
  pub rate : W
  pub source : Text
  pub rate_date : Text

-- What the live source answers, when it does: `rate` is absent if the body holds no number there.
pub record LiveAnswer (W : Type 0) : Type 0 where
  pub is_ok : Bool
  pub rate : Option W
  pub date : Option Text

-- A cache of values under texts, with a time to live in seconds.
pub record Cache (R V : Type 0) : Type 0 where
  pub get : Text → R → Option V
  pub set : Text → V → ℕ → R → R

pub record Fallback : Type 0 where
  pub currency : Text
  pub rate_hundredths : ℕ

-- `FALLBACK`.
unfoldable pub fallback_rates : List Fallback
fallback_rates =
    record { currency = codes "USD"; rate_hundredths = 8350 }
    ∷ record { currency = codes "EUR"; rate_hundredths = 9020 }
    ∷ record { currency = codes "GBP"; rate_hundredths = 10570 }
    ∷ record { currency = codes "AUD"; rate_hundredths = 5540 }
    ∷ record { currency = codes "CAD"; rate_hundredths = 6120 }
    ∷ record { currency = codes "SGD"; rate_hundredths = 6200 }
    ∷ record { currency = codes "AED"; rate_hundredths = 2270 }
    ∷ []

-- `FALLBACK[currency] ?? 83.0`.
abbrev pub fallback_rate : Text → ℕ
fallback_rate cur = elim (find? (λ f. text_eq f.currency cur) fallback_rates) [
  | none ↦ 8300
  | some f ↦ f.rate_hundredths
]

abbrev pub ttl_seconds : ℕ
ttl_seconds = 60 * 60 * 12

module _ {W R : Type 0} (num : Double W) (live : Text → Text → Option (LiveAnswer W))
    (redis : Cache R (CapturedRate W)) where
  abbrev pub fallback : Text → Text → CapturedRate W
  fallback cur date = record {
    rate = num.of_hundredths (fallback_rate cur);
    source = codes "Fallback (live source unavailable — confirm rate)";
    rate_date = date;
  }

  abbrev of_live : Text → LiveAnswer W → W → CapturedRate W
  of_live date res r = record {
    rate = r;
    source = codes "ECB reference (frankfurter.app), " ++ get_or res.date date;
    rate_date = get_or res.date date;
  }

  abbrev rate_of : Text → Text → LiveAnswer W → Option W → CapturedRate W
  rate_of cur date res none = fallback cur date
  rate_of cur date res (some r) =
      if num.is_positive r then of_live date res r else fallback cur date

  unfoldable pub fetch_live : Text → Text → CapturedRate W
  fetch_live cur date = elim (live cur date) [
    | none ↦ fallback cur date
    | some res ↦ if res.is_ok then rate_of cur date res res.rate else fallback cur date
  ]

  -- `fx:${cur}:${onDate}`.
  abbrev pub key : Text → Text → Text
  key cur date = codes "fx:" ++ (cur ++ b':' ∷ date)

  unfoldable pub capture : Text → Text → R → CapturedRate W × R
  unfolding fetch_live
  capture currency date cache =
      let cur = upper currency in
      let fresh = fetch_live cur date in
      if text_eq cur (codes "INR")
      then (record { rate = num.of_hundredths 100; source = codes "INR"; rate_date = date }, cache)
      else elim (redis.get (key cur date) cache) [
        | some cached ↦ (cached, cache)
        | none ↦ (fresh, redis.set (key cur date) fresh ttl_seconds cache)
      ]
