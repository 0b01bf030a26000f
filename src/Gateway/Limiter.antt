-- ===== src/Gateway/Limiter.antt =====
-- internal/gateway/service.go: the token buckets of a rate limiter. The arithmetic of float64 is a
-- parameter.
pub mod Buckets
use simiclaw.Base.{
  ℕ, suc, ◌+◌, ◌-◌, ◌*◌, String, Bool, true, false, not, Option, none, some, List, [], ◌∷◌, ltb,
  leb, if◌then◌else◌,
}
use simiclaw.Base.Dict.{get, put, retain}
use simiclaw.Base.Time.{second}

pub record Float : Type 1 where
  pub Number : Type 0
  pub lt : Number → Number → Bool
  pub min : Number → Number → Number
  pub add : Number → Number → Number
  pub sub : Number → Number → Number
  pub mul : Number → Number → Number
  pub one : Number
  -- Duration.Seconds
  pub seconds : ℕ → Number

abbrev pub gc_interval : ℕ
gc_interval = 256

abbrev pub bucket_expiry : ℕ
bucket_expiry = 300 * second

module _ (F : Float) where
  pub record Bucket : Type 0 where
    pub tokens : F.Number
    pub last : ℕ

  pub record Limiter : Type 0 where
    pub rate : F.Number
    pub burst : F.Number
    pub buckets : List (String × Bucket)
    pub gc_counter : ℕ

  -- newLimiter
  abbrev pub new_limiter : F.Number → F.Number → Limiter
  new_limiter rate burst = record { rate = rate; burst = burst; buckets = []; gc_counter = 0 }

  -- The counter and the sweep of every 256th call.
  unfoldable pub collect : ℕ → Limiter → Limiter
  unfolding retain
  collect now l =
      if leb gc_interval (suc l.gc_counter)
      then record l {
        gc_counter = 0;
        buckets = retain (λ id entry. not (ltb (entry.last + bucket_expiry) now)) l.buckets;
      }
      else record l { gc_counter = suc l.gc_counter }

  -- The tokens that came since the last call.
  abbrev pub refill : Limiter → ℕ → Bucket → Bucket
  refill l now entry =
      if ltb entry.last now
      then record {
        tokens = F.min l.burst (F.add entry.tokens (F.mul (F.seconds (now - entry.last)) l.rate));
        last = now;
      }
      else entry

  -- A bucket gives a token, if it has one.
  abbrev pub take_token : Bucket → Bool × Bucket
  take_token entry =
      if F.lt entry.tokens F.one
      then (false, entry)
      else (true, record entry { tokens = F.sub entry.tokens F.one })

  abbrev pub fresh_bucket : Limiter → ℕ → Bucket
  fresh_bucket l now = record { tokens = F.sub l.burst F.one; last = now }

  abbrev pub allow_found : String → ℕ → Limiter → Option Bucket → Bool × Limiter
  allow_found key now l none = (true, record l { buckets = put key (fresh_bucket l now) l.buckets })
  allow_found key now l (some entry) =
      let (allowed, entry') = take_token (refill l now entry) in
      (allowed, record l { buckets = put key entry' l.buckets })

  -- Allow
  unfoldable pub allow : String → ℕ → Limiter → Bool × Limiter
  unfolding collect get put
  allow key now l =
      let collected = collect now l in allow_found key now collected (get key collected.buckets)
