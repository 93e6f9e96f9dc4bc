-- ===== src/Manager/RateLimit.antt =====
-- proxy/rate_limiter.go: which requests are limited, and the limiters of the clients.
use llama_swap.Base.{
  ℕ, ◌+◌, ◌≤◌, ◌≡◌, refl, ap, inl, inr, List, [], ◌∷◌, Option, none, some, Bool, true, false,
  if◌then◌else◌, ◌||◌, not, ltb, leb, arith, Bool-cases, all,
}
use llama_swap.Base.Text.{Text, codes, text_eq, text_eq_refl, contains, trim_space}
use llama_swap.Base.Dict.{Dict, lookup, insert, lookup-insert}

unfoldable pub limited_paths : List Text
limited_paths =
    codes "/v1/chat/completions"
    ∷ codes "/v1/responses"
    ∷ codes "/v1/completions"
    ∷ codes "/v1/messages"
    ∷ codes "/v1/messages/count_tokens"
    ∷ codes "/v1/embeddings"
    ∷ codes "/reranking"
    ∷ codes "/rerank"
    ∷ codes "/v1/rerank"
    ∷ codes "/v1/reranking"
    ∷ codes "/infill"
    ∷ codes "/completion"
    ∷ codes "/v1/audio/speech"
    ∷ codes "/v1/audio/voices"
    ∷ codes "/v1/audio/transcriptions"
    ∷ codes "/v1/images/generations"
    ∷ codes "/v1/images/edits"
    ∷ []

unfoldable pub should_rate_limit_request : Text → Text → Bool
should_rate_limit_request method path =
    if text_eq method (codes "OPTIONS")
    then false
    else if text_eq method (codes "POST")
    then contains limited_paths path
    else false

-- `rate.Limiter`: a new one, and `Allow` at a time.
pub record Limiters (L : Type 0) : Type 0 where
  pub new_limiter : L
  pub allow_at : L → ℕ → Bool × L

pub record ClientRateState (L : Type 0) : Type 0 where
  pub limiter : L
  pub last_seen : ℕ

-- `newProxyRateLimiter`: the settings from the environment, none where no limit is
-- set. A number below zero counts like zero.
pub record RateSettings : Type 0 where
  pub rpm : ℕ
  pub burst : ℕ
  pub ttl_seconds : ℕ

unfoldable pub rate_settings : ℕ → ℕ → ℕ → Option RateSettings
rate_settings rpm burst ttl =
    if ltb 0 rpm
    then some (record {
      rpm = rpm;
      burst = if ltb burst 1 then 1 else burst;
      ttl_seconds = if ltb ttl 30 then 30 else ttl;
    })
    else none

some-injective : {L : Type 0} {s t : ClientRateState L} → some s ≡ some t → s ≡ t
some-injective e = cc

module _ {L : Type 0} (limiters : Limiters L) (ttl : ℕ) where
  abbrev pub Clients : Type 0
  Clients = Dict (ClientRateState L)

  -- The entries not seen since the cutoff go: `last_seen < now - ttl`, written without subtraction.
  unfoldable pub evict : ℕ → Clients → Clients
  evict now [] = []
  evict now ((key, s) ∷ clients) =
      let rest = evict now clients in if ltb (s.last_seen + ttl) now then rest else (key, s) ∷ rest

  abbrev pub limiter_in : Option (ClientRateState L) → L
  limiter_in none = limiters.new_limiter
  limiter_in (some s) = s.limiter

  unfoldable pub allow : Text → ℕ → Clients → Bool × Clients
  allow key now clients =
      let kept = evict now clients in
      let (ok, after) = limiters.allow_at (limiter_in (lookup key kept)) now in
      (ok, insert key (record { limiter = after; last_seen = now }) kept)

  -- The middleware: whether the request goes on; otherwise it gets the status 429.
  unfoldable pub middleware : Bool → Text → Text → Text → ℕ → Clients → Bool × Clients
  middleware enabled method path client_ip now clients =
      if not enabled || not (should_rate_limit_request method path)
      then (true, clients)
      else allow
          (if text_eq (trim_space client_ip) [] then codes "unknown" else trim_space client_ip) now
          clients

  -- The requests of all clients, in the order of their times.
  abbrev pub Arrival : Type 0
  Arrival = Text × ℕ

  unfoldable pub allow_all : List Arrival → Clients → Clients
  allow_all [] clients = clients
  allow_all ((key, now) ∷ arrivals) clients = allow_all arrivals (allow key now clients).1

  lookup-evict :
      (key : Text) (now : ℕ) (clients : Clients) (s : ClientRateState L)
      → lookup key clients ≡ some s
      → now ≤ s.last_seen + ttl
      → lookup key (evict now clients) ≡ some s
  unfolding lookup evict
  lookup-evict key now [] s e h = e
  lookup-evict key now ((j, t) ∷ clients) s e h = elim (Bool-cases (text_eq j key)) [
    | inl same ↦
        (let first : t ≡ s = some-injective (rw same at e) in
          let fresh : ltb (t.last_seen + ttl) now ≡ false = rw first (ground (arith, h)) in
          rw (fresh, same) (ap some first))
    | inr other ↦
        (let rest = lookup-evict key now clients s (rw other at e) h in ground (arith, rest))
  ]

  -- The entries that a request leaves in the map were seen within the time to live.
  abbrev pub fresh : ℕ → Text × ClientRateState L → Bool
  fresh now e = leb now (e.1.last_seen + ttl)

  evict-fresh : (now : ℕ) (clients : Clients) → all (fresh now) (evict now clients) ≡ true
  unfolding evict
  evict-fresh now [] = refl
  evict-fresh now ((key, s) ∷ clients) = ground (arith, evict-fresh now clients)

  insert-fresh :
      (now : ℕ) (key : Text) (s : ClientRateState L) (clients : Clients)
      → now ≤ s.last_seen + ttl
      → all (fresh now) clients ≡ true
      → all (fresh now) (insert key s clients) ≡ true
  unfolding insert
  insert-fresh now key s [] h a = ground arith
  insert-fresh now key s ((j, t) ∷ clients) h a = ground (arith, insert-fresh now key s clients h)

  -- After a request at some time, the map holds only clients that were seen within the time to live
  -- before it.
  pub allow-fresh :
      (key : Text) (now : ℕ) (clients : Clients) → all (fresh now) (allow key now clients).1 ≡ true
  unfolding allow
  allow-fresh key now clients =
      let kept = evict now clients in
      insert-fresh now key
        (record {
          limiter = (limiters.allow_at (limiter_in (lookup key kept)) now).1;
          last_seen = now;
        })
        kept (omega arith) (evict-fresh now clients)

  -- Requests of other clients, none later than a deadline.
  abbrev pub Others : Text → ℕ → List Arrival → Type 0
  Others key deadline [] = Unit
  Others key deadline ((j, now) ∷ arrivals) =
      (text_eq j key ≡ false) × (now ≤ deadline) × Others key deadline arrivals

  allow_all-other :
      (key : Text) (arrivals : List Arrival) (clients : Clients) (s : ClientRateState L)
      → lookup key clients ≡ some s
      → Others key (s.last_seen + ttl) arrivals
      → lookup key (allow_all arrivals clients) ≡ some s
  unfolding allow_all allow
  allow_all-other key [] clients s e o = e
  allow_all-other key ((j, now) ∷ arrivals) clients s e (ne, h, o) =
      allow_all-other key arrivals (allow j now clients).1 s
        (rw
          (
            lookup-insert j key
                (record {
                  limiter = (limiters.allow_at (limiter_in (lookup j (evict now clients))) now).1;
                  last_seen = now;
                })
                (evict now clients),
            ne,
          )
          (lookup-evict key now clients s e h))
        o

  -- A client that comes back within the time to live is answered by its own limiter alone, as it left
  -- it, however many requests of other clients came in between.
  pub allow-own_limiter :
      (key : Text) (now : ℕ) (arrivals : List Arrival) (clients : Clients) (s : ClientRateState L)
      → lookup key clients ≡ some s
      → Others key (s.last_seen + ttl) arrivals
      → now ≤ s.last_seen + ttl
      → let (ok, after) = limiters.allow_at s.limiter now in
        let r = allow key now (allow_all arrivals clients) in
        (r.0 ≡ ok) × (lookup key r.1 ≡ some (record { limiter = after; last_seen = now }))
  unfolding allow
  allow-own_limiter key now arrivals clients s e o h =
      let own =
        lookup-evict key now (allow_all arrivals clients) s
          (allow_all-other key arrivals clients s e o) h in
      (
        rw own refl,
        rw
            (
              lookup-insert key key
                  (record {
                    limiter =
                        (limiters.allow_at
                          (limiter_in (lookup key (evict now (allow_all arrivals clients)))) now).1;
                    last_seen = now;
                  })
                  (evict now (allow_all arrivals clients)),
              text_eq_refl key,
              own,
            )
            refl,
      )
