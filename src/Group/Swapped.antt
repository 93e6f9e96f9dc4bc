-- ===== src/Group/Swapped.antt =====
-- proxy/processgroup.go: what swap mode keeps, when nobody else acts on the group's processes.
use llama_swap.Base.{
  ℕ, ◌<◌, ◌≡◌, ◌≢◌, refl, sym, subst, ◌∙◌, [], Option, none, some, Bool, true, false, Bool-cases,
  inl, inr, ◌⊎◌,
}
use llama_swap.Base.Text.{Text, text_eq, text_eq_iff}
use llama_swap.Base.Dict.{Dict, lookup, insert, lookup-insert}
use llama_swap.Process.State.{Process}
use llama_swap.Process.Calm.{IsStopped, Keeps}
use llama_swap.Process.CalmRequest.{Settled}

-- A process that nothing happens on: no request holds a place.
pub record Idle (timeout : ℕ) (p : Process) : Type 0 where
  pub settled : Settled p
  pub no_request : p.in_flight ≡ 0
  pub no_slot : p.slots ≡ 0
  pub room : 0 < p.limit
  pub same_timeout : p.health_check_timeout ≡ timeout

abbrev pub IfSome {ℓ κ} : {A : Type ℓ} → (A → Type κ) → Option A → Type κ
IfSome P none = Unit
IfSome P (some a) = P a

-- A process is stopped, or it has the name of the one last used.
abbrev pub StoppedOrLast : Text → Text → Process → Type 0
StoppedOrLast last name p = IsStopped p ⊎ ((name ≡ last) × (name ≢ []))

-- The invariant of a map of processes in swap mode.
pub record Swapped (timeout : ℕ) (last : Text) (ps : Dict Process) : Type 0 where
  pub idle : (name : Text) → IfSome (Idle timeout) (lookup name ps)
  pub only_last : (name : Text) → IfSome (StoppedOrLast last name) (lookup name ps)

Keeps-Idle : (timeout : ℕ) (p q : Process) → Idle timeout p → Keeps p q → Settled q → Idle timeout q
Keeps-Idle timeout p q i k s = record {
  settled = s;
  no_request = k.in_flight ∙ i.no_request;
  no_slot = k.slots ∙ i.no_slot;
  room = rw k.limit i.room;
  same_timeout = k.timeout ∙ i.same_timeout;
}

-- What holds of all entries and of a new one holds after the insertion.
pub IfSome-insert {κ} :
    (P : Text → Process → Type κ) (name : Text) (p : Process) (ps : Dict Process)
    → P name p
    → (j : Text) → IfSome (P j) (lookup j ps)
    → IfSome (P j) (lookup j (insert name p ps))
IfSome-insert P name p ps h j other = elim (Bool-cases (text_eq name j)) [
  | inl e ↦
      rw (lookup-insert name j p ps, e) (subst (λ (n : Text). P n p) ((text_eq_iff name j).0 e) h)
  | inr e ↦ rw (lookup-insert name j p ps, e) other
]

pub at_entry {κ} :
    (P : Process → Type κ) (name : Text) (p : Process) (ps : Dict Process)
    → lookup name ps ≡ some p
    → IfSome P (lookup name ps)
    → P p
at_entry P name p ps e h = rw e at h

-- Stopping an idle process leaves it stopped and idle.
pub stop-Idle :
    (timeout : ℕ) (p q : Process) → Idle timeout p → IsStopped q → Keeps p q → Idle timeout q
stop-Idle timeout p q i s k = Keeps-Idle timeout p q i k (inl s)

IfSome-map {κ μ} :
    {P : Process → Type κ} {Q : Process → Type μ} (o : Option Process)
    → ((p : Process) → P p → Q p)
    → IfSome P o
    → IfSome Q o
IfSome-map none f h = tt
IfSome-map (some p) f h = f p h

apart : {b : Bool} → b ≡ false → b ≡ true → ⊥
apart h k = cc

stays_stopped :
    (last next name : Text) (p : Process)
    → text_eq last name ≡ false
    → StoppedOrLast last name p
    → StoppedOrLast next name p
stays_stopped last next name p e (inl s) = inl s
stays_stopped last next name p e (inr (same, n)) =
    absurd (apart e ((text_eq_iff last name).1 (sym same)))

-- Where no process has the name last used, all are stopped, and another name can take its place.
pub absent_last-Swapped :
    (timeout : ℕ) (last next : Text) (ps : Dict Process)
    → Swapped timeout last ps
    → (last ≡ []) ⊎ (lookup last ps ≡ none)
    → Swapped timeout next ps
absent_last-Swapped timeout last next ps w a = record { idle = w.idle; only_last = rest }
  where
    at_last :
        (name : Text)
        → text_eq last name ≡ true
        → (last ≡ []) ⊎ (lookup last ps ≡ none)
        → IfSome (StoppedOrLast last name) (lookup name ps)
        → IfSome (StoppedOrLast next name) (lookup name ps)
    at_last name e (inl z) h =
        IfSome-map (lookup name ps)
          (λ x s. elim s [ inl d ↦ inl d | inr (same, n) ↦ absurd (n (same ∙ z)) ]) h
    at_last name e (inr z) h = rw (sym ((text_eq_iff last name).0 e), z) tt

    rest : (name : Text) → IfSome (StoppedOrLast next name) (lookup name ps)
    rest name = elim (Bool-cases (text_eq last name)) [
      | inl h ↦ at_last name h a (w.only_last name)
      | inr h ↦
          IfSome-map (lookup name ps) (λ x. stays_stopped last next name x h) (w.only_last name)
    ]

-- The process that was last used is stopped: then every process is, whichever comes next.
pub stop_last-Swapped :
    (timeout : ℕ) (last next : Text) (ps : Dict Process) (p q : Process)
    → Swapped timeout last ps
    → lookup last ps ≡ some p
    → IsStopped q
    → Keeps p q
    → Swapped timeout next (insert last q ps)
stop_last-Swapped timeout last next ps p q w e s k = record {
  idle = λ name.
      IfSome-insert (λ n x. Idle timeout x) last q ps
        (stop-Idle timeout p q (at_entry (Idle timeout) last p ps e (w.idle last)) s k) name
        (w.idle name);
  only_last = λ name. rest name;
}
  where
    rest : (name : Text) → IfSome (StoppedOrLast next name) (lookup name (insert last q ps))
    rest name = elim (Bool-cases (text_eq last name)) [
      | inl h ↦ rw (lookup-insert last name q ps, h) (inl s)
      | inr h ↦
          rw (lookup-insert last name q ps, h)
            (IfSome-map (lookup name ps) (λ x. stays_stopped last next name x h) (w.only_last name))
    ]

-- The process last used, or another that is stopped, serves a request or fails to.
pub use_last-Swapped :
    (timeout : ℕ) (last : Text) (ps : Dict Process) (p q : Process)
    → last ≢ []
    → Swapped timeout last ps
    → lookup last ps ≡ some p
    → Settled q
    → Keeps p q
    → Swapped timeout last (insert last q ps)
use_last-Swapped timeout last ps p q n w e s k = record {
  idle = λ name.
      IfSome-insert (λ j x. Idle timeout x) last q ps
        (Keeps-Idle timeout p q (at_entry (Idle timeout) last p ps e (w.idle last)) k s) name
        (w.idle name);
  only_last = λ name.
      IfSome-insert (λ j x. StoppedOrLast last j x) last q ps (inr (refl, n)) name
        (w.only_last name);
}

-- A stop of any process of the map.
pub stop_any-Swapped :
    (timeout : ℕ) (last name : Text) (ps : Dict Process) (p q : Process)
    → Swapped timeout last ps
    → lookup name ps ≡ some p
    → IsStopped q
    → Keeps p q
    → Swapped timeout last (insert name q ps)
stop_any-Swapped timeout last name ps p q w e s k = record {
  idle = λ j.
      IfSome-insert (λ n x. Idle timeout x) name q ps
        (stop-Idle timeout p q (at_entry (Idle timeout) name p ps e (w.idle name)) s k) j
        (w.idle j);
  only_last =
      λ j. IfSome-insert (λ n x. StoppedOrLast last n x) name q ps (inl s) j (w.only_last j);
}

-- No process of a map in swap mode runs beside the one last used.
pub running_last :
    (timeout : ℕ) (last name : Text) (ps : Dict Process) (p : Process)
    → Swapped timeout last ps
    → lookup name ps ≡ some p
    → p.running ≡ true
    → name ≡ last
running_last timeout last name ps p w e r =
    elim (at_entry (StoppedOrLast last name) name p ps e (w.only_last name)) [
      | inl s ↦ absurd (apart s.dead r)
      | inr (h, _) ↦ h
    ]
