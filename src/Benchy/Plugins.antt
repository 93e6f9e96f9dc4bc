-- ===== src/Benchy/Plugins.antt =====
-- proxy/benchy.go: the plugins that `normalizeIntelligencePlugins` accepts.
use llama_swap.Base.{
  ◌≡◌, refl, subst, ◌⊎◌, inl, inr, List, [], ◌∷◌, Bool, true, false, arith, Bool-cases,
}
use llama_swap.Base.Text.{Text, text_eq, text_eq_iff, text_eq_refl, contains, trim_space}
use llama_swap.Base.Bytes.{to_lower}
use llama_swap.Base.Sort.{Distinct}
use llama_swap.Benchy.Start.{
  StartError, Checked, accepted, refused, ◌>>=◌, require, code_exec_plugins, plugin_choices,
  collect_plugins, first_plugin_that_requires_code_exec, is_none,
}

pub step_accepted {ℓ κ} :
    {A : Type ℓ} {B : Type κ} (m : Checked A) (next : A → Checked B) {b : B}
    → (m >>= next) ≡ accepted b
    → (a : A) × (m ≡ accepted a) × (next a ≡ accepted b)
step_accepted (accepted a) next h = (a, refl, h)
step_accepted (refused e) next h = cc

pub require-true : (b : Bool) (e : StartError) {u : Unit {0}} → require b e ≡ accepted u → b ≡ true
require-true true e h = refl
require-true false e h = cc

-- Each plugin is known, none is there twice, and none was seen before.
abbrev pub Known : List Text → Type 0
Known ps = (p : Text) → contains ps p ≡ true → contains plugin_choices p ≡ true

pub record Collected (seen ps : List Text) : Type 0 where
  pub known : Known ps
  pub distinct : Distinct ps
  pub new : (p : Text) → contains seen p ≡ true → contains ps p ≡ false

pub accepted_injective {ℓ} : {A : Type ℓ} {a b : A} → accepted a ≡ accepted b → a ≡ b
accepted_injective h = cc

none-Collected : (seen : List Text) → Collected seen []
unfolding contains
none-Collected seen = record { known = λ p c. cc; distinct = tt; new = λ p c. refl }

contains_cons :
    (x p : Text) (xs : List Text) → contains (x ∷ xs) p ≡ true → (x ≡ p) ⊎ (contains xs p ≡ true)
unfolding contains
contains_cons x p xs h = elim (Bool-cases (text_eq x p)) [
  | inl same ↦ inl ((text_eq_iff x p).0 same)
  | inr other ↦ inr (rw other at h)
]

contains_later : (x p : Text) (xs : List Text) → contains xs p ≡ true → contains (x ∷ xs) p ≡ true
unfolding contains
contains_later x p xs h = ground (arith, h)

contains_here : (x : Text) (xs : List Text) → contains (x ∷ xs) x ≡ true
unfolding contains
contains_here x xs = rw (text_eq_refl x) refl

put-Collected :
    (seen : List Text) (p : Text) (qs : List Text)
    → contains plugin_choices p ≡ true
    → contains seen p ≡ false
    → Collected (p ∷ seen) qs
    → Collected seen (p ∷ qs)
put-Collected seen p qs known fresh h = record {
  known = λ q c. elim (contains_cons p q qs c) [
    | inl same ↦ subst (λ (x : Text). contains plugin_choices x ≡ true) same known
    | inr later ↦ h.known q later
  ];
  distinct = (h.new p (contains_here p seen), h.distinct);
  new = λ q c. not_there seen p q qs fresh c (h.new q (contains_later p q seen c));
}
  where
    not_there :
        (seen : List Text) (p q : Text) (qs : List Text)
        → contains seen p ≡ false
        → contains seen q ≡ true
        → contains qs q ≡ false
        → contains (p ∷ qs) q ≡ false
    not_there seen p q qs fresh c later = elim (Bool-cases (contains (p ∷ qs) q)) [
      | inr absent ↦ absent
      | inl found ↦ elim (contains_cons p q qs found) [
        | inl same ↦ let e = subst (λ (x : Text). contains seen x ≡ false) same fresh in cc
        | inr there ↦ cc
      ]
    ]

pub collect_plugins-Collected :
    (plugins seen : List Text) {ps : List Text}
    → collect_plugins seen plugins ≡ accepted ps
    → Collected seen ps
unfolding collect_plugins
collect_plugins-Collected [] seen h =
    subst (Collected seen) (accepted_injective h) (none-Collected seen)
collect_plugins-Collected (raw ∷ plugins) seen {ps} h =
    let p = to_lower (trim_space raw) in
    elim (Bool-cases (text_eq p [])) [
      | inl empty ↦ collect_plugins-Collected plugins seen (rw empty at h)
      | inr filled ↦ elim (Bool-cases (contains plugin_choices p)) [
        | inr unknown ↦ cc (rw (filled, unknown) at h)
        | inl known ↦ elim (Bool-cases (contains seen p)) [
          | inl old ↦ collect_plugins-Collected plugins seen (rw (filled, known, old) at h)
          | inr fresh ↦
              let (qs, e, f) =
                step_accepted (collect_plugins (p ∷ seen) plugins)
                  (λ (rs : List Text). accepted (p ∷ rs)) (rw (filled, known, fresh) at h) in
              subst (Collected seen) (accepted_injective f) (
                put-Collected seen p qs known fresh
                  (collect_plugins-Collected plugins (p ∷ seen) e))
        ]
      ]
    ]

pub contains_none : (p : Text) → contains [] p ≡ true → ⊥
unfolding contains
contains_none p c = cc

-- A plugin that needs code execution is found, if there is one.
pub needs_exec :
    (ps : List Text) (p : Text)
    → contains ps p ≡ true
    → contains code_exec_plugins p ≡ true
    → is_none (first_plugin_that_requires_code_exec ps) ≡ false
unfolding first_plugin_that_requires_code_exec
needs_exec [] p c e = absurd (contains_none p c)
needs_exec (q ∷ ps) p c e = elim (Bool-cases (contains code_exec_plugins q)) [
  | inl here ↦ rw here refl
  | inr later ↦ rw later (elim (contains_cons q p ps c) [
    | inl same ↦ cc (subst (λ (x : Text). contains code_exec_plugins x ≡ false) same later)
    | inr there ↦ needs_exec ps p there e
  ])
]
