-- ===== src/Benchy/Output.antt =====
-- proxy/benchy.go: what a job keeps of the output of its command.
use llama_swap.Base.{
  ℕ, ◌+◌, ◌-◌, ◌≤◌, ◌<◌, ◌≡◌, refl, sym, ap, subst, ◌∙◌, inl, inr, List, [], ◌∷◌, ◌++◌, some, false,
  ltb, leb, ◌==◌, length, length-append, drop, drop-append_left, drop-drop, last_n, last_n-append,
  length-drop, append-nil, append_assoc, arith, Bool-cases,
}
use llama_swap.Base.Text.{Text, text_eq, text_eq_iff}
use llama_swap.Base.Dict.{lookup}
use llama_swap.Benchy.Jobs.{
  Job, Store, Stream, out, err, append_capped, max_output_bytes, append_to, append_benchy_output,
  append_all,
}
use llama_swap.Benchy.Ends.{change_lem}

-- A chunk that fills the room on its own.
last_of_long :
    (max : ℕ) (prev chunk : Text)
    → max ≤ length chunk
    → last_n max (prev ++ chunk) ≡ last_n max chunk
last_of_long max prev chunk h =
    let k : length (prev ++ chunk) - max ≡ length prev + (length chunk - max) =
      omega (arith, length-append prev chunk) in
    rw k (
      sym (drop-drop (length chunk - max) (length prev) (prev ++ chunk))
      ∙ ap (drop (length chunk - max)) (drop-append_left (length prev) prev chunk refl))

last_of_short : (max : ℕ) (s : Text) → length s ≤ max → last_n max s ≡ s
last_of_short max s h = let e : length s - max ≡ 0 = omega arith in rw e refl

append_capped_lem :
    (prev chunk : Text) (max : ℕ)
    → 0 < max
    → length prev ≤ max
    → append_capped prev chunk max ≡ last_n max (prev ++ chunk)
unfolding append_capped
append_capped_lem prev chunk max p h = elim (Bool-cases (text_eq chunk [])) [
  | inl empty ↦ rw empty (
      sym (
        ap (λ (s : Text). last_n max (prev ++ s)) ((text_eq_iff chunk []).0 empty)
        ∙ ap (last_n max) (append-nil prev)
        ∙ last_of_short max prev h))
  | inr filled ↦
      let positive : (max == 0) ≡ false = ground arith in
      rw (filled, positive)
        (elim (Bool-cases (leb max (length chunk))) [
          | inl long ↦ rw long (sym (last_of_long max prev chunk (ground arith)))
          | inr short ↦ rw short (elim (Bool-cases (ltb max (length (prev ++ chunk)))) [
            | inl over ↦ rw over refl
            | inr fits ↦ rw fits (sym (last_of_short max (prev ++ chunk) (ground arith)))
          ])
        ])
]

length-last_n : (max : ℕ) (s : Text) → length (last_n max s) ≤ max
length-last_n max s = omega (arith, length-drop (length s - max) s)

-- What the chunks print on a stream.
abbrev pub printed_on : Stream → List (Stream × Text) → Text
printed_on s [] = []
printed_on out ((out, chunk) ∷ chunks) = chunk ++ printed_on out chunks
printed_on out ((err, chunk) ∷ chunks) = printed_on out chunks
printed_on err ((out, chunk) ∷ chunks) = printed_on err chunks
printed_on err ((err, chunk) ∷ chunks) = chunk ++ printed_on err chunks

abbrev pub output_of : Stream → Job → Text
output_of out j = j.stdout
output_of err j = j.stderr

-- The job holds the last bytes of what was printed on a stream.
abbrev pub Prints : Store → Text → Stream → Text → Type 0
Prints s id stream past =
    (j : Job) × (lookup id s.jobs ≡ some j) × (output_of stream j ≡ last_n max_output_bytes past)

abbrev appended : Stream → Stream → Text → Text → Text
appended out out past chunk = past ++ chunk
appended err err past chunk = past ++ chunk
appended out err past chunk = past
appended err out past chunk = past

capped :
    (prev past chunk : Text)
    → prev ≡ last_n max_output_bytes past
    → append_capped prev chunk max_output_bytes ≡ last_n max_output_bytes (past ++ chunk)
capped prev past chunk e =
    append_capped_lem prev chunk max_output_bytes (omega arith)
      (omega (arith, ap (λ (s : Text). length s) e, length-last_n max_output_bytes past))
    ∙ ap (λ (s : Text). last_n max_output_bytes (s ++ chunk)) e
    ∙ last_n-append max_output_bytes past chunk

append_to-prints :
    (stream to : Stream) (chunk past : Text) (j : Job)
    → output_of stream j ≡ last_n max_output_bytes past
    → output_of stream (append_to to chunk j)
      ≡ last_n max_output_bytes (appended stream to past chunk)
append_to-prints out out chunk past j e = capped j.stdout past chunk e
append_to-prints err err chunk past j e = capped j.stderr past chunk e
append_to-prints out err chunk past j e = e
append_to-prints err out chunk past j e = e

appended_empty : (stream to : Stream) (past : Text) → appended stream to past [] ≡ past
appended_empty out out past = append-nil past
appended_empty err err past = append-nil past
appended_empty out err past = refl
appended_empty err out past = refl

append-Prints :
    (s : Store) (id : Text) (stream to : Stream) (chunk past : Text)
    → Prints s id stream past
    → Prints (append_benchy_output s id to chunk) id stream (appended stream to past chunk)
unfolding append_benchy_output
append-Prints s id stream to chunk past (j, e, p) = elim (Bool-cases (text_eq chunk [])) [
  | inl empty ↦ rw empty (
    j,
    e,
    p
        ∙ ap (last_n max_output_bytes) (
            sym (appended_empty stream to past)
            ∙ ap (appended stream to past) (sym ((text_eq_iff chunk []).0 empty))),
  )
  | inr filled ↦ rw filled (
    append_to to chunk j,
    change_lem s id (append_to to chunk) e,
    append_to-prints stream to chunk past j p,
  )
]

appended_all :
    (stream to : Stream) (past chunk : Text) (chunks : List (Stream × Text))
    → appended stream to past chunk ++ printed_on stream chunks
      ≡ past ++ printed_on stream ((to, chunk) ∷ chunks)
appended_all out out past chunk chunks = append_assoc past chunk (printed_on out chunks)
appended_all err err past chunk chunks = append_assoc past chunk (printed_on err chunks)
appended_all out err past chunk chunks = refl
appended_all err out past chunk chunks = refl

-- A job that has the last MiB of what was printed on a stream has it still after any more output, in
-- chunks of any sizes and on both streams in any order, when nobody else changes the job.
pub append_all-Prints :
    (chunks : List (Stream × Text)) (s : Store) (id : Text) (stream : Stream) (past : Text)
    → Prints s id stream past
    → Prints (append_all s id chunks) id stream (past ++ printed_on stream chunks)
unfolding append_all
append_all-Prints [] s id out past h = subst (Prints s id out) (sym (append-nil past)) h
append_all-Prints [] s id err past h = subst (Prints s id err) (sym (append-nil past)) h
append_all-Prints ((to, chunk) ∷ chunks) s id stream past h =
    subst (Prints (append_all (append_benchy_output s id to chunk) id chunks) id stream)
      (appended_all stream to past chunk chunks)
      (append_all-Prints chunks (append_benchy_output s id to chunk) id stream
        (appended stream to past chunk) (append-Prints s id stream to chunk past h))
