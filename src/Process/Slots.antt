-- ===== src/Process/Slots.antt =====
-- proxy/process.go: the tokens of the semaphore, and the count of the requests in flight, over a
-- request.
use llama_swap.Base.{
  ◌+◌, ◌≤◌, ◌≡◌, refl, List, [], ◌∷◌, Bool, true, false, ltb, arith, Bool-cases, ltb→lt, if_holds,
  ◌∙◌, inl, inr, ◌&&◌, ◌||◌, all,
}
use llama_swap.Process.State.{
  stopped, starting, stopping, shutdown, Process, state_eq, swap_state, force_state,
}
use llama_swap.Process.Stop.{
  Act, swaps, acquires, counts, uncounts, gives_back, exits, arms, launches, fails_to_launch,
  shuts_down, acquire, count_in, count_out, give_back, act, interfere,
}
use llama_swap.Process.Request.{
  Answer, RequestEnv, finish_request, serve, on_acquire, proxy_request,
}
use llama_swap.Process.RequestSlots.{
  SamePlaces, same_places, swap_state-SamePlaces, forced_stop-SamePlaces, wait_for_cmd-SamePlaces,
  AllowedRequest, serve-P,
}

-- No more tokens are taken than there are.
abbrev pub Within : Process → Type 0
Within p = p.slots ≤ p.limit

same-Within : (p q : Process) → SamePlaces p q → Within p → Within q
same-Within p q s v = omega (arith, s.slots, s.limit)

-- The acts that are no part of another request.
abbrev pub is_quiet : Act → Bool
is_quiet acquires = false
is_quiet counts = false
is_quiet (uncounts now) = false
is_quiet gives_back = false
is_quiet _ = true

-- The others bring no request and end none.
abbrev pub Quiet : List Act → Type 0
Quiet others = all is_quiet others ≡ true

quiet-SamePlaces : (p : Process) (a : Act) → is_quiet a ≡ true → SamePlaces p (act p a)
unfolding act force_state
quiet-SamePlaces p (swaps s t) q = swap_state-SamePlaces p s t
quiet-SamePlaces p acquires q = cc
quiet-SamePlaces p counts q = cc
quiet-SamePlaces p (uncounts now) q = cc
quiet-SamePlaces p gives_back q = cc
quiet-SamePlaces p exits q =
    if_holds (SamePlaces p) p.running (wait_for_cmd-SamePlaces p) (same_places p)
quiet-SamePlaces p arms q = record { slots = refl; in_flight = refl; limit = refl }
quiet-SamePlaces p launches q =
    if_holds (SamePlaces p) (p.has_upstream && p.chan_open)
      (record { slots = refl; in_flight = refl; limit = refl }) (same_places p)
quiet-SamePlaces p fails_to_launch q =
    forced_stop-SamePlaces p (swap_state p starting stopped)
      (swap_state-SamePlaces p starting stopped)
quiet-SamePlaces p shuts_down q = record { slots = refl; in_flight = refl; limit = refl }

act-Within : (p : Process) (a : Act) → Within p → Within (act p a)
unfolding act acquire count_in count_out give_back
act-Within p acquires v = ground arith
act-Within p counts v = ground arith
act-Within p (uncounts now) v = v
act-Within p gives_back v = ground arith
act-Within p a v = same-Within p (act p a) (quiet-SamePlaces p a refl) v

interfere-Within :
    (p : Process) (others : List Act) → Unit {0} → Within p → Within (interfere p others)
unfolding interfere
interfere-Within p [] u v = v
interfere-Within p (a ∷ others) u v = interfere-Within (act p a) others u (act-Within p a v)

SamePlaces-trans : {p q r : Process} → SamePlaces p q → SamePlaces q r → SamePlaces p r
SamePlaces-trans s t = record {
  slots = t.slots ∙ s.slots;
  in_flight = t.in_flight ∙ s.in_flight;
  limit = t.limit ∙ s.limit;
}

interfere-SamePlaces :
    (p : Process) (others : List Act) → Quiet others → SamePlaces p (interfere p others)
unfolding interfere
interfere-SamePlaces p [] q = same_places p
interfere-SamePlaces p (a ∷ others) q =
    let (first, rest) : (is_quiet a ≡ true) × (all is_quiet others ≡ true) = ground arith in
    SamePlaces-trans (quiet-SamePlaces p a first) (interfere-SamePlaces (act p a) others rest)

-- A request from its token to the end.
through :
    (p t : Process) (env : RequestEnv)
    → AllowedRequest Quiet env
    → t.slots ≡ p.slots + 1
    → t.in_flight ≡ p.in_flight
    → t.limit ≡ p.limit
    → SamePlaces p (finish_request env (serve (count_in (interfere t env.counting)) env)).1
unfolding count_in count_out give_back
through p t env a s n l =
    let u = interfere t env.counting in
    let in_count = interfere-SamePlaces t env.counting a.counting in
    let r = serve (count_in u) env in
    let served =
      serve-P (SamePlaces (count_in u)) Quiet (λ p q k v. SamePlaces-trans v k)
        (λ p others q v. SamePlaces-trans v (interfere-SamePlaces p others q)) (count_in u) env a
        (same_places (count_in u)) in
    let out = count_out r.1 env.now in
    let left = interfere-SamePlaces out env.leaving a.leaving in
    record {
      slots = omega (arith, left.slots, served.slots, in_count.slots, s);
      in_flight = omega (arith, left.in_flight, served.in_flight, in_count.in_flight, n);
      limit = left.limit ∙ served.limit ∙ in_count.limit ∙ l;
    }

acquired-SamePlaces :
    (p : Process) (env : RequestEnv)
    → AllowedRequest Quiet env
    → SamePlaces p (on_acquire p env (acquire p)).1
unfolding acquire
acquired-SamePlaces p env a = elim (Bool-cases (ltb p.slots p.limit)) [
  | inl e ↦ rw e (through p (record p { slots = p.slots + 1 }) env a refl refl refl)
  | inr e ↦ rw e (same_places p)
]

-- However a request ends, and whatever else happens to the process meanwhile (changes of its state,
-- starts, stops and the exit of its command, but no other request), it has given back its token of
-- the semaphore and its place among the requests in flight.
pub proxy_request-SamePlaces :
    (p : Process) (env : RequestEnv)
    → AllowedRequest Quiet env
    → SamePlaces p (proxy_request p env).1
unfolding proxy_request
proxy_request-SamePlaces p env a =
    if_holds (λ (r : Answer × Process). SamePlaces p r.1) env.has_reverse_proxy
      (if_holds (λ (r : Answer × Process). SamePlaces p r.1)
        (state_eq p.state shutdown || state_eq p.state stopping) (same_places p)
        (acquired-SamePlaces p env a))
      (same_places p)

abbrev Anything : List Act → Type 0
Anything others = Unit

anything : (env : RequestEnv) → AllowedRequest Anything env
anything env = record {
  start_env = record {
    waiting = tt;
    launching = tt;
    delaying = tt;
    checks = λ k. record { others = tt; stopping = tt };
    finishing = tt;
  };
  counting = tt;
  serving = tt;
  leaving = tt;
}

through-Within :
    (t : Process) (env : RequestEnv)
    → Within t
    → Within (finish_request env (serve (count_in (interfere t env.counting)) env)).1
unfolding count_in count_out give_back
through-Within t env v =
    let u = interfere t env.counting in
    let r = serve (count_in u) env in
    let served =
      serve-P Within Anything same-Within interfere-Within (count_in u) env (anything env)
        (interfere-Within t env.counting tt v) in
    let left = interfere-Within (count_out r.1 env.now) env.leaving tt served in omega (arith, left)

acquired-Within :
    (p : Process) (env : RequestEnv) → Within p → Within (on_acquire p env (acquire p)).1
unfolding acquire
acquired-Within p env v = elim (Bool-cases (ltb p.slots p.limit)) [
  | inl e ↦ rw e (
      through-Within (record p { slots = p.slots + 1 }) env
        (omega (arith, ltb→lt p.slots p.limit e)))
  | inr e ↦ rw e v
]

-- Whatever a request meets, and whatever the other goroutines do meanwhile, other requests among
-- them, no more tokens are taken from the semaphore than it has.
pub proxy_request-Within :
    (p : Process) (env : RequestEnv) → Within p → Within (proxy_request p env).1
unfolding proxy_request
proxy_request-Within p env v =
    if_holds (λ (r : Answer × Process). Within r.1) env.has_reverse_proxy
      (if_holds (λ (r : Answer × Process). Within r.1)
        (state_eq p.state shutdown || state_eq p.state stopping) v (acquired-Within p env v))
      v
