-- ===== src/Gateway/Limiter/Buckets.antt =====
-- internal/gateway/service.go: the buckets of a limiter hold at most a burst.
use simiclaw.Base.{ℕ, suc, ◌+◌, ◌≡◌, refl, String, Bool, not, Option, none, some, ltb, leb, if_both}
use simiclaw.Base.Dict.{get, AllValues, AllValues-put, AllValues-retain, AllValues-get}
use simiclaw.Gateway.Limiter.{
  Float, Bucket, Limiter, collect, refill, take_token, fresh_bucket, allow_found, allow,
  gc_interval, bucket_expiry,
}

-- What a limiter relies on: an order on the numbers, where `min` is below its left argument and one
-- less is below the number itself.
pub record Laws (F : Float) : Type 1 where
  pub Le : F.Number → F.Number → Type 0
  pub trans : (a b c : F.Number) → Le a b → Le b c → Le a c
  pub min_le : (a b : F.Number) → Le (F.min a b) a
  pub sub_le : (a : F.Number) → Le (F.sub a F.one) a

module _ (F : Float) (L : Laws F) where
  abbrev pub Within : F.Number → Bucket F → Type 0
  Within burst b = L.Le b.tokens burst

  abbrev pub IsBounded : Limiter F → Type 0
  IsBounded l = AllValues (Within l.burst) l.buckets

  collect-IsBounded : (now : ℕ) (l : Limiter F) → IsBounded l → IsBounded (collect F now l)
  unfolding collect
  collect-IsBounded now l h =
      if_both IsBounded (leb gc_interval (suc l.gc_counter)) _ _
        (AllValues-retain (Within l.burst) (λ id entry. not (ltb (entry.last + bucket_expiry) now))
          l.buckets h)
        h

  refill-Within :
      (l : Limiter F) (now : ℕ) (b : Bucket F)
      → Within l.burst b
      → Within l.burst (refill F l now b)
  refill-Within l now b h = if_both (Within l.burst) (ltb b.last now) _ _ (L.min_le l.burst _) h

  take_token-Within :
      (burst : F.Number) (b : Bucket F) → Within burst b → Within burst (take_token F b).1
  take_token-Within burst b h =
      if_both (λ (r : Bool × Bucket F). Within burst r.1) (F.lt b.tokens F.one) _ _ h
        (L.trans (F.sub b.tokens F.one) b.tokens burst (L.sub_le b.tokens) h)

  allow_found-IsBounded :
      (key : String) (now : ℕ) (l : Limiter F) (o : Option (Bucket F))
      → get key l.buckets ≡ o
      → IsBounded l
      → IsBounded (allow_found F key now l o).1
  allow_found-IsBounded key now l none e h =
      AllValues-put (Within l.burst) key (fresh_bucket F l now) l.buckets (L.sub_le l.burst) h
  allow_found-IsBounded key now l (some b) e h =
      AllValues-put (Within l.burst) key (take_token F (refill F l now b)).1 l.buckets
        (take_token-Within l.burst (refill F l now b)
          (refill-Within l now b (AllValues-get (Within l.burst) key b l.buckets h e)))
        h

  -- Whatever the key and the time are, a call of `Allow` leaves no bucket with more tokens than the
  -- burst, if there was none before.
  pub allow-IsBounded :
      (key : String) (now : ℕ) (l : Limiter F) → IsBounded l → IsBounded (allow F key now l).1
  unfolding allow
  allow-IsBounded key now l h =
      allow_found-IsBounded key now (collect F now l) (get key (collect F now l).buckets) refl
        (collect-IsBounded now l h)
