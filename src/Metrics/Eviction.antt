-- ===== src/Metrics/Eviction.antt =====
-- proxy/metrics_monitor.go: what the eviction of `addCapture` leaves, as a function of the captures.
use llama_swap.Base.{
  ℕ, ◌+◌, ◌≤◌, ◌≡◌, refl, ap, inl, inr, List, [], ◌∷◌, ◌++◌, true, false, if◌then◌else◌, ltb,
  ltb→lt, lt→ltb, ◌==◌, ==_iff, arith, Bool-cases,
}
use llama_swap.Metrics.Captures.{
  Capture, size, CaptureMap, find_capture, delete_capture, put_capture, Buffer, evicted, evict,
}

abbrev pub ids : CaptureMap → List ℕ
ids [] = []
ids ((i, c) ∷ captures) = i ∷ ids captures

abbrev pub total : CaptureMap → ℕ
total [] = 0
total ((i, c) ∷ captures) = size c + total captures

-- No capture has the id; no two captures have the same.
abbrev pub Fresh : ℕ → CaptureMap → Type 0
Fresh id [] = Unit
Fresh id ((i, c) ∷ captures) = ((i == id) ≡ false) × Fresh id captures

abbrev pub Distinct : CaptureMap → Type 0
Distinct [] = Unit
Distinct ((i, c) ∷ captures) = Fresh i captures × Distinct captures

-- The longest end of some captures that leaves room for a size.
abbrev pub fitting : ℕ → ℕ → CaptureMap → CaptureMap
fitting max needed [] = []
fitting max needed ((i, c) ∷ captures) =
    let rest = fitting max needed captures in
    if ltb max (total ((i, c) ∷ captures) + needed) then rest else (i, c) ∷ captures

pub total-append : (a b : CaptureMap) → total (a ++ b) ≡ total a + total b
total-append [] b = omega arith
total-append ((i, c) ∷ a) b = omega (arith, total-append a b)

pub ids-append : (a b : CaptureMap) → ids (a ++ b) ≡ ids a ++ ids b
ids-append [] b = refl
ids-append ((i, c) ∷ a) b = ap (◌∷◌ i) (ids-append a b)

pub fitting-Fresh :
    (max needed id : ℕ) (a : CaptureMap) → Fresh id a → Fresh id (fitting max needed a)
fitting-Fresh max needed id [] f = f
fitting-Fresh max needed id ((i, c) ∷ a) f =
    elim (Bool-cases (ltb max (total ((i, c) ∷ a) + needed))) [
      | inl over ↦ rw over (fitting-Fresh max needed id a f.1)
      | inr fits ↦ rw fits f
    ]

pub fitting-Distinct :
    (max needed : ℕ) (a : CaptureMap) → Distinct a → Distinct (fitting max needed a)
fitting-Distinct max needed [] d = d
fitting-Distinct max needed ((i, c) ∷ a) d =
    elim (Bool-cases (ltb max (total ((i, c) ∷ a) + needed))) [
      | inl over ↦ rw over (fitting-Distinct max needed a d.1)
      | inr fits ↦ rw fits d
    ]

pub delete-Fresh : (id : ℕ) (a : CaptureMap) → Fresh id a → delete_capture id a ≡ a
unfolding delete_capture
delete-Fresh id [] f = refl
delete-Fresh id ((i, c) ∷ a) f = rw (f.0) (ap (◌∷◌ (i, c)) (delete-Fresh id a f.1))

pub put-Fresh :
    (id : ℕ) (c : Capture) (a : CaptureMap) → Fresh id a → put_capture id c a ≡ a ++ ((id, c) ∷ [])
unfolding put_capture
put-Fresh id c [] f = refl
put-Fresh id c ((i, d) ∷ a) f = rw (f.0) (ap (◌∷◌ (i, d)) (put-Fresh id c a f.1))

abbrev pub buffer_of : CaptureMap → Buffer
buffer_of a = record { captures = a; order = ids a; size = total a }

evict_oldest :
    (i : ℕ) (c : Capture) (a : CaptureMap)
    → Fresh i a
    → ◌≡◌ {A = CaptureMap × ℕ}
        (evicted i (find_capture i ((i, c) ∷ a)) ((i, c) ∷ a) (size c + total a))
        (a, total a)
unfolding find_capture delete_capture
evict_oldest i c a f =
    let here : (i == i) ≡ true = (==_iff i i).1 refl in
    rw here (rw (here, delete-Fresh i a f) (ap (λ (t : ℕ). (a, t)) (omega arith)))

-- The loop finds its captures in the order in which they were put in, and leaves the end that fits.
pub evict-fitting :
    (max needed : ℕ) (a : CaptureMap)
    → Distinct a
    → evict max needed a (ids a) (total a) ≡ buffer_of (fitting max needed a)
unfolding evict
evict-fitting max needed [] d = refl
evict-fitting max needed ((i, c) ∷ a) d =
    elim (Bool-cases (ltb max (total ((i, c) ∷ a) + needed))) [
      | inl over ↦ rw (over, evict_oldest i c a d.0) (evict-fitting max needed a d.1)
      | inr fits ↦ rw fits refl
    ]

-- What is dropped for a smaller need is dropped for a larger one.
pub fitting-fitting :
    (max needed : ℕ) (a : CaptureMap) → fitting max needed (fitting max 0 a) ≡ fitting max needed a
fitting-fitting max needed [] = refl
fitting-fitting max needed ((i, c) ∷ a) = elim (Bool-cases (ltb max (total ((i, c) ∷ a) + 0))) [
  | inl over ↦
      let more : ltb max (total ((i, c) ∷ a) + needed) ≡ true =
        lt→ltb _ _ (omega (arith, ltb→lt max (total ((i, c) ∷ a) + 0) over)) in
      rw (over, more) (fitting-fitting max needed a)
  | inr fits ↦ rw fits refl
]

-- A new capture behind what leaves room for it.
pub fitting-append :
    (max i : ℕ) (c : Capture) (a : CaptureMap)
    → ltb max (size c) ≡ false
    → fitting max (size c) a ++ ((i, c) ∷ []) ≡ fitting max 0 (a ++ ((i, c) ∷ []))
fitting-append max i c [] h = let e : size c + 0 + 0 ≡ size c = omega arith in rw (e, h) refl
fitting-append max i c ((j, d) ∷ a) h =
    let e : size d + total (a ++ ((i, c) ∷ [])) + 0 ≡ size d + total a + size c =
      omega (arith, total-append a ((i, c) ∷ [])) in
    elim (Bool-cases (ltb max (size d + total a + size c))) [
      | inl over ↦ rw (e, over) (fitting-append max i c a h)
      | inr fits ↦ rw (e, fits) refl
    ]

pub fitting-bound : (max needed : ℕ) (a : CaptureMap) → total (fitting max 0 a) ≤ max
fitting-bound max needed [] = omega arith
fitting-bound max needed ((i, c) ∷ a) = ground (arith, fitting-bound max needed a)
