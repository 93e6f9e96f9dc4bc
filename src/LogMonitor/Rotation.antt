-- ===== src/LogMonitor/Rotation.antt =====
-- The buffer read round from its write position: how a write changes that reading.
use llama_swap.Base.{
  ℕ, ◌+◌, ◌%◌, ◌<◌, ◌≡◌, refl, sym, ap, ap₂, ◌∙◌, List, [], ◌∷◌, ◌++◌, arith, append-nil,
  append_assoc, length, take, drop, copy_at, length-append, take-append_left, drop-append_left,
  copy_at_middle,
}
use native.Mathlib.Nat.{mod-eq_of_lt, mod_self}

-- The bytes from index `h` on, round to those before it: the oldest first.
abbrev pub rotate : ℕ → List ℕ → List ℕ
rotate h xs = drop h xs ++ take h xs

rotate_split : (us vs : List ℕ) → rotate (length us) (us ++ vs) ≡ vs ++ us
rotate_split us vs =
    rw (drop-append_left (length us) us vs refl, take-append_left (length us) us vs refl)

rotate_at : (h : ℕ) (us vs : List ℕ) → h ≡ length us → rotate h (us ++ vs) ≡ vs ++ us
rotate_at h us vs e = rw e (rotate_split us vs)

-- A write that does not reach the end, or just reaches it.
pub rotate_flat :
    (us vs ws p : List ℕ) (room : ℕ)
    → length vs ≡ length p
    → room ≡ length us + (length vs + length ws)
    → 0 < room
    → rotate ((length us + length p) % room) (copy_at (us ++ (vs ++ ws)) (length us) p)
      ≡ drop (length p) (rotate (length us) (us ++ (vs ++ ws))) ++ p
rotate_flat us vs [] p room e c pos =
    let full : length us + length p ≡ room = omega arith in
    let wraps : (length us + length p) % room ≡ 0 = rw full (mod_self room) in
    rw (wraps, copy_at_middle us vs [] p e, rotate_split us (vs ++ []))
      (simp (append-nil, drop-append_left (length p) vs us e))
rotate_flat us vs (w ∷ ws) p room e c pos =
    let n = length us + length p in
    let kept : drop (length p) ((vs ++ (w ∷ ws)) ++ us) ≡ (w ∷ ws) ++ us =
      rw (append_assoc vs (w ∷ ws) us) (drop-append_left (length p) vs ((w ∷ ws) ++ us) e) in
    let stays : n % room ≡ n = mod-eq_of_lt {n = n} {m = room} (omega arith) in
    rw (stays, copy_at_middle us vs (w ∷ ws) p e, rotate_split us (vs ++ (w ∷ ws)))
      (ap (rotate n) (sym (append_assoc us p (w ∷ ws)))
        ∙ rotate_at n (us ++ p) (w ∷ ws) (sym (length-append us p))
        ∙ sym (append_assoc (w ∷ ws) us p)
        ∙ ap (λ (k : List ℕ). k ++ p) (sym kept))

-- A write that goes round the end.
pub rotate_wrap :
    (us vs ws p q : List ℕ)
    → length ws ≡ length p
    → length us ≡ length q
    → rotate (length q) (copy_at (copy_at (us ++ (vs ++ ws)) (length us + length vs) p) 0 q)
      ≡ drop (length p + length q) (rotate (length us + length vs) (us ++ (vs ++ ws))) ++ (p ++ q)
rotate_wrap us vs ws p q e f =
    ap (rotate (length q)) written
    ∙ rotate_at (length q) q (vs ++ p) refl
    ∙ append_assoc vs p q
    ∙ ap (λ (k : List ℕ). k ++ (p ++ q)) (sym kept)
  where
    head-eq : length us + length vs ≡ length (us ++ vs)
    head-eq = sym (length-append us vs)

    first : copy_at (us ++ (vs ++ ws)) (length us + length vs) p ≡ us ++ (vs ++ p)
    first =
        let m = copy_at_middle (us ++ vs) ws [] p e in
        rw (head-eq, ← append_assoc us vs ws, ← append_assoc us vs p)
          (rw (append-nil ws, append-nil p) at m)

    written : copy_at (copy_at (us ++ (vs ++ ws)) (length us + length vs) p) 0 q ≡ q ++ (vs ++ p)
    written = rw first (copy_at_middle [] us (vs ++ p) q f)

    kept : drop (length p + length q) (rotate (length us + length vs) (us ++ (vs ++ ws))) ≡ vs
    kept =
        let round : rotate (length us + length vs) (us ++ (vs ++ ws)) ≡ (ws ++ us) ++ vs =
          ap (rotate (length us + length vs)) (sym (append_assoc us vs ws))
          ∙ rotate_at (length us + length vs) (us ++ vs) ws head-eq
          ∙ sym (append_assoc ws us vs) in
        rw round
          (drop-append_left (length p + length q) (ws ++ us) vs (length-append ws us ∙ ap₂ ◌+◌ e f))
