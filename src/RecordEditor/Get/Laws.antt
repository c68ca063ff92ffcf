-- ===== src/RecordEditor/Get/Laws.antt =====
-- The loops of `do_get` end.
use osisp.Prelude.{
  ℕ, zero, suc, ◌-◌, ◌≤◌, ◌<◌, ◌≡◌, refl, ap, ◌⊎◌, inl, inr, List, [], ◌∷◌, Bool, true, false,
  Option, none, some, Option-cases, length, ◌==◌, if◌then◌else◌, arith,
}
use osisp.RecordEditor.Get.{newline, skip_line, take_line, fgets, Edited, on_parse, edit_loop}

take_line-shorter : (n : ℕ) (cs : List ℕ) → length (take_line n cs).1 ≤ length cs
unfolding take_line
take_line-shorter zero cs = omega arith
take_line-shorter (suc n) [] = omega arith
take_line-shorter (suc n) (c ∷ cs) = let h = take_line-shorter n cs in ground (arith, h)

take_line-takes :
    (n c : ℕ) (cs : List ℕ) → 0 < n → length (take_line n (c ∷ cs)).1 < suc (length cs)
unfolding take_line
take_line-takes zero c cs h = absurd (omega arith)
take_line-takes (suc n) c cs h = let s = take_line-shorter n cs in ground (arith, s)

picked :
    (b : Bool) (cs rest : List ℕ) (o : Option (List ℕ))
    → (if b then some cs else o) ≡ some rest
    → (cs ≡ rest) ⊎ (o ≡ some rest)
picked true cs rest o e = inl (cc e)
picked false cs rest o e = inr e

pub skip_line-shorter : (cs rest : List ℕ) → skip_line cs ≡ some rest → length rest < length cs
unfolding skip_line
skip_line-shorter [] rest e = cc e
skip_line-shorter (c ∷ cs) rest e = elim (picked (c == newline) cs rest (skip_line cs) e) [
  | inl h ↦ omega (arith, ap length h)
  | inr h ↦ omega (arith, skip_line-shorter cs rest h)
]

module _ {A : Type 0} (P : A → Type 0) (size : ℕ) (parse : List ℕ → Option A)
    (sound : (buf : List ℕ) (v : A) → parse buf ≡ some v → P v) where
  -- The outcome is a value that is the old one or accepted, and reading goes on in the input.
  abbrev pub Ends : A → List ℕ → Option (Edited A) → Type 0
  Ends old stdin o =
      (r : Edited A) × (o ≡ some r)
      × ((r.0 ≡ old) ⊎ P r.0)
      × ((rest : List ℕ) → r.1 ≡ some rest → length rest ≤ length stdin)

  by_parse :
      (buf rest stdin : List ℕ) (old : A) (again : Option (Edited A))
      → length rest ≤ length stdin
      → Ends old rest again
      → Ends old stdin (on_parse size parse (parse buf) rest again)
  by_parse buf rest stdin old again h (r, e, ok, shorter) = elim (Option-cases (parse buf)) [
    | inl p ↦ (r, rw p e, ok, λ rest' e'. omega (arith, shorter rest' e'))
    | inr (v, p) ↦ (
      (v, some rest),
      rw p refl,
      inr (sound buf v p),
      λ rest' e'. let same : rest ≡ rest' = cc e' in omega (arith, ap length same),
    )
  ]

  by_line :
      (b : Bool) (buf rest stdin : List ℕ) (old : A) (again : Option (Edited A))
      → length rest ≤ length stdin
      → Ends old rest again
      → Ends old stdin
          (if b then some ((old, some rest)) else on_parse size parse (parse buf) rest again)
  by_line true buf rest stdin old again h ends = (
    (old, some rest),
    refl,
    inl refl,
    λ rest' e. let same : rest ≡ rest' = cc e in omega (arith, ap length same),
  )
  by_line false buf rest stdin old again h ends = by_parse buf rest stdin old again h ends

  pub edit_loop_lem :
      (fuel : ℕ) (old : A) (stdin : List ℕ)
      → 1 < size
      → length stdin < fuel
      → Ends old stdin (edit_loop size parse fuel old stdin)
  unfolding edit_loop fgets
  edit_loop_lem zero old stdin hs hf = absurd (omega arith)
  edit_loop_lem (suc fuel) old [] hs hf = ((old, none), refl, inl refl, λ rest e. cc e)
  edit_loop_lem (suc fuel) old (c ∷ cs) hs hf =
      let shorter = take_line-takes (size - 1) c cs (omega arith) in
      by_line _ (take_line (size - 1) (c ∷ cs)).0 (take_line (size - 1) (c ∷ cs)).1 (c ∷ cs) old
        (edit_loop size parse fuel old (take_line (size - 1) (c ∷ cs)).1) (omega (arith, shorter))
        (edit_loop_lem fuel old (take_line (size - 1) (c ∷ cs)).1 hs (omega (arith, shorter)))
