-- ===== src/Windows/RawPdo/Held.antt =====
-- windows/sys/rawpdo.cpp: KbFiltr_CreateRawPdo keeps nothing when it fails.
use fork_plugin.Prelude.{
  ℕ, suc, ◌≡◌, refl, ap, ◌∙◌, true, false, List, [], ◌∷◌, All, Bool-cases, inl, inr, if◌then◌else◌,
}
use fork_plugin.Windows.RawPdo.{
  PdoFramework, call_in_turn, prepare, furnish, cleanup, furnish_device, create_raw_pdo,
}

-- How many device initialisers and child devices the driver holds, as the documents of the framework
-- say of each call.
pub record Held (wdf : PdoFramework) : Type 0 where
  pub inits : wdf.World → ℕ
  pub children : wdf.World → ℕ
  pub on-pdo_init_allocate :
      (w : wdf.World)
      → let r = wdf.pdo_init_allocate w in
        (inits r.1 ≡ (if r.0 then suc (inits w) else inits w)) × (children r.1 ≡ children w)
  pub on-device_create :
      (w : wdf.World) (n : ℕ)
      → inits w ≡ suc n
      → let r = wdf.device_create w in
        (inits r.1 ≡ (if wdf.nt_success r.0 then n else suc n))
        × (children r.1 ≡ (if wdf.nt_success r.0 then suc (children w) else children w))
  pub on-device_init_free :
      (w : wdf.World) (n : ℕ)
      → inits w ≡ suc n
      → (inits (wdf.device_init_free w) ≡ n) × (children (wdf.device_init_free w) ≡ children w)
  pub on-object_delete :
      (w : wdf.World) (n : ℕ)
      → children w ≡ suc n
      → (inits (wdf.object_delete w) ≡ inits w) × (children (wdf.object_delete w) ≡ n)

module _ (wdf : PdoFramework) (held : Held wdf) where
  open wdf use {World, Status, nt_success, status_success, set_default_locale}
  open held use {inits, children}

  abbrev pub SameHeld : World → World → Type 0
  SameHeld w u = (inits u ≡ inits w) × (children u ≡ children w)

  -- The call holds as much after it as before.
  abbrev pub Neutral : (World → Status × World) → Type 0
  Neutral f = (w : World) → SameHeld w (f w).1

  call_in_turn-Neutral :
      (fs : List (World → Status × World)) → All Neutral fs → Neutral (call_in_turn wdf fs)
  unfolding call_in_turn
  call_in_turn-Neutral [] h w = (refl, refl)
  call_in_turn-Neutral (f ∷ fs) h w = elim (Bool-cases (nt_success (f w).0)) [
    | inl ok ↦
        let rest = call_in_turn-Neutral fs h.1 (f w).1 in
        rw ok (rest.0 ∙ (h.0 w).0, rest.1 ∙ (h.0 w).1)
    | inr failed ↦ rw failed (h.0 w)
  ]

  -- With a status that is a success one child more is held, with any other as much as before.
  abbrev pub Accounts : World → Status × World → Type 0
  Accounts w r =
      (inits r.1 ≡ inits w)
      × (children r.1 ≡ (if nt_success r.0 then suc (children w) else children w))

  furnish_device-Accounts :
      (w u : World)
      → All Neutral (furnish wdf)
      → nt_success status_success ≡ true
      → inits u ≡ suc (inits w)
      → children u ≡ children w
      → Accounts w (furnish_device wdf (wdf.device_create u))
  unfolding furnish_device cleanup
  furnish_device-Accounts w u quiet ok e e' =
      let r = wdf.device_create u in
      let made = held.on-device_create u (inits w) e in
      let s = call_in_turn wdf (furnish wdf) r.1 in
      let same = call_in_turn-Neutral (furnish wdf) quiet r.1 in
      elim (Bool-cases (nt_success r.0)) [
        | inr failed ↦
            let free = held.on-device_init_free r.1 (inits w) (rw failed at made.0) in
            rw failed (free.0, rw failed (free.1 ∙ (rw failed at made.1) ∙ e'))
        | inl created ↦
            let one : children s.1 ≡ suc (children w) =
              same.1 ∙ (rw created at made.1) ∙ ap (λ n. suc n) e' in
            let none_left : inits s.1 ≡ inits w = same.0 ∙ (rw created at made.0) in
            elim (Bool-cases (nt_success s.0)) [
              | inl fine ↦ rw (created, fine) (none_left, rw ok one)
              | inr failed ↦
                  let gone = held.on-object_delete s.1 (children w) one in
                  rw (created, failed) (gone.0 ∙ none_left, rw failed gone.1)
            ]
      ]

  -- KbFiltr_CreateRawPdo leaks nothing, on any of its paths: if its status is a success, the driver
  -- holds one child device more than before, and otherwise as many as before; and it never keeps a
  -- device initialiser. The calls that only set up the initialiser or the device neither give nor
  -- take any.
  pub create_raw_pdo-Accounts :
      (w : World)
      → All Neutral (prepare wdf)
      → All Neutral (furnish wdf)
      → ((u : World) → SameHeld u (wdf.allow_forwarding_request_to_parent (set_default_locale u)))
      → nt_success status_success ≡ true
      → nt_success wdf.status_insufficient_resources ≡ false
      → Accounts w (create_raw_pdo wdf w)
  unfolding create_raw_pdo cleanup
  create_raw_pdo-Accounts w quiet quiet' silent ok short =
      let r = wdf.pdo_init_allocate w in
      let start = held.on-pdo_init_allocate w in
      let s = call_in_turn wdf (prepare wdf) r.1 in
      let same = call_in_turn-Neutral (prepare wdf) quiet r.1 in
      elim (Bool-cases r.0) [
        | inr none_given ↦ rw none_given (rw none_given at start.0, rw short start.1)
        | inl given ↦
            let one : inits s.1 ≡ suc (inits w) = same.0 ∙ (rw given at start.0) in
            let still : children s.1 ≡ children w = same.1 ∙ start.1 in
            elim (Bool-cases (nt_success s.0)) [
              | inr failed ↦
                  let free = held.on-device_init_free s.1 (inits w) one in
                  rw (given, failed) (free.0, rw failed (free.1 ∙ still))
              | inl fine ↦
                  rw (given, fine)
                    (furnish_device-Accounts w _ quiet' ok ((silent s.1).0 ∙ one)
                      ((silent s.1).1 ∙ still))
            ]
      ]
