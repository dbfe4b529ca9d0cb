-- ===== src/Machine/Traces.antt =====
-- src/machine.h: what a trace of decisions says of the codes of a key.
use mathlib.Core.Path.{subst, fun_ext}
use fork_plugin.Prelude.{
  ℕ, suc, ◌≡◌, ◌≢◌, refl, ap, ◌∙◌, true, false, List, [], ◌∷◌, ◌++◌, arith, length, update, All,
  Bool-cases, inl, inr,
}
use fork_plugin.Platform.{Platform}
use fork_plugin.Machine.Codes.{Traced}

module _ (p : Platform) where
  open p use {Event, press_p, release_p, detail_of}

  pub Traced-append :
      (before after : List Event) (codes mid last : ℕ → ℕ) (before' after' : List Event)
      → Traced p codes before after mid
      → Traced p mid before' after' last
      → Traced p codes (before ++ before') (after ++ after') last
  Traced-append [] [] codes mid last before' after' t u =
      subst (λ f. Traced p f before' after' last) (fun_ext t) u
  Traced-append [] (a ∷ after) codes mid last before' after' t u = absurd t
  Traced-append (b ∷ before) [] codes mid last before' after' t u = absurd t
  Traced-append (b ∷ before) (a ∷ after) codes mid last before' after' t u =
      let key = detail_of b in
      elim (Bool-cases (press_p b)) [
        | inl pr ↦ rw pr (
            Traced-append before after (update codes key (detail_of a)) mid last before' after'
              (rw pr at t) u)
        | inr np ↦ elim (Bool-cases (release_p b)) [
          | inl r ↦
              let rest = rw (np, r) at t in
              rw (np, r)
                (
                  rest.0,
                  Traced-append before after (update codes key key) mid last before' after' rest.1
                      u,
                )
          | inr nr ↦
              let rest = rw (np, nr) at t in
              rw (np, nr)
                (rest.0, Traced-append before after codes mid last before' after' rest.1 u)
        ]
      ]

  -- The event neither presses nor releases the key.
  abbrev pub LeavesAlone : ℕ → Event → Type 0
  LeavesAlone key e =
      ((press_p e ≡ true) → detail_of e ≢ key) × ((release_p e ≡ true) → detail_of e ≢ key)

  -- Events that leave a key alone leave its code alone.
  Traced-release :
      (between after : List Event) (codes last : ℕ → ℕ) (b a : Event) (rest rest' : List Event)
      → length between ≡ length after
      → All (LeavesAlone (detail_of b)) between
      → press_p b ≡ false
      → release_p b ≡ true
      → Traced p codes (between ++ (b ∷ rest)) (after ++ (a ∷ rest')) last
      → detail_of a ≡ codes (detail_of b)
  Traced-release [] [] codes last b a rest rest' e l np r t = (rw (np, r) at t).0
  Traced-release [] (y ∷ after) codes last b a rest rest' e l np r t = absurd (omega arith)
  Traced-release (x ∷ between) [] codes last b a rest rest' e l np r t = absurd (omega arith)
  Traced-release (x ∷ between) (y ∷ after) codes last b a rest rest' e l np r t =
      let key = detail_of x in
      elim (Bool-cases (press_p x)) [
        | inl pr ↦
            Traced-release between after (update codes key (detail_of y)) last b a rest rest'
              (omega arith) l.1 np r (rw pr at t)
            ∙ ground (arith, l.0.0 pr)
        | inr nx ↦ elim (Bool-cases (release_p x)) [
          | inl rx ↦
              Traced-release between after (update codes key key) last b a rest rest' (omega arith)
                l.1 np r (rw (nx, rx) at t).1
              ∙ ground (arith, l.0.1 rx)
          | inr nr ↦
              Traced-release between after codes last b a rest rest' (omega arith) l.1 np r
                (rw (nx, nr) at t).1
        ]
      ]

  -- The release of a key after its press has the code of the press.
  pub Traced-pair :
      (early early' : List Event) (codes last : ℕ → ℕ) (b a : Event) (between after : List Event)
      → (b' a' : Event) (rest rest' : List Event) → length early ≡ length early'
      → length between ≡ length after
      → press_p b ≡ true
      → press_p b' ≡ false
      → release_p b' ≡ true
      → detail_of b' ≡ detail_of b
      → All (LeavesAlone (detail_of b)) between
      → Traced p codes
          (early ++ (b ∷ (between ++ (b' ∷ rest))))
          (early' ++ (a ∷ (after ++ (a' ∷ rest'))))
          last
      → detail_of a' ≡ detail_of a
  Traced-pair [] [] codes last b a between after b' a' rest rest' e e' pr np r same l t =
      Traced-release between after (update codes (detail_of b) (detail_of a)) last b' a' rest rest'
        e' (rw same l) np r (rw pr at t)
      ∙ ground arith
  Traced-pair [] (y ∷ early') codes last b a between after b' a' rest rest' e e' pr np r same l t =
      absurd (omega arith)
  Traced-pair (x ∷ early) [] codes last b a between after b' a' rest rest' e e' pr np r same l t =
      absurd (omega arith)
  Traced-pair (x ∷ early) (y ∷ early') codes last b a between after b' a' rest rest' e e' pr np r
        same l t =
      let go = λ (f : ℕ → ℕ).
        Traced-pair early early' f last b a between after b' a' rest rest' (omega arith) e' pr np r
          same l in
      elim (Bool-cases (press_p x)) [
        | inl px ↦ go _ (rw px at t)
        | inr nx ↦ elim (Bool-cases (release_p x)) [
          | inl rx ↦ go _ (rw (nx, rx) at t).1
          | inr nr ↦ go _ (rw (nx, nr) at t).1
        ]
      ]

  pub Traced-length :
      (before after : List Event) (codes last : ℕ → ℕ)
      → Traced p codes before after last
      → length before ≡ length after
  Traced-length [] [] codes last t = refl
  Traced-length [] (y ∷ after) codes last t = absurd t
  Traced-length (x ∷ before) [] codes last t = absurd t
  Traced-length (x ∷ before) (y ∷ after) codes last t =
      let go = λ (f : ℕ → ℕ). Traced-length before after f last in
      elim (Bool-cases (press_p x)) [
        | inl px ↦ ap (λ n. suc n) (go _ (rw px at t))
        | inr nx ↦ elim (Bool-cases (release_p x)) [
          | inl rx ↦ ap (λ n. suc n) (go _ (rw (nx, rx) at t).1)
          | inr nr ↦ ap (λ n. suc n) (go _ (rw (nx, nr) at t).1)
        ]
      ]
