-- ===== src/Machine/Threads/Order.antt =====
-- Ways to compare a log, the events in the hands of threads and a queue with the events decided.
use mathlib.Core.List.Perm
use mathlib.Core.List.{append_assoc, Perm, perm_middle}
use fork_plugin.Prelude.{◌≤◌, ◌≡◌, refl, ap, ◌∙◌, List, [], ◌∷◌, ◌++◌, arith, length, length-append}

-- A way to compare the relayed events, those in the hands of threads and the output queue, in this
-- order, with the events decided, where `Ok` says what the hands may hold. A thread pops the first
-- event of the output queue, and relays the one that it holds.
pub record Order {A : Type 0} (Ok : List A → Type 0) (Same : List A → List A → Type 0)
    : Type 0 where
  pub nothing : Ok []
  pub unsent : Same [] []
  pub decided_one : (xs ys : List A) (x : A) → Same xs ys → Same (xs ++ (x ∷ [])) (ys ++ (x ∷ []))
  pub popped :
      (log before after outs all : List A) (x : A)
      → Ok (before ++ (x ∷ after))
      → Same (log ++ ((before ++ after) ++ (x ∷ outs))) all
      → Same (log ++ ((before ++ (x ∷ after)) ++ outs)) all
  pub relayed :
      (log before after outs all : List A) (x : A)
      → Ok (before ++ (x ∷ after))
      → Same (log ++ ((before ++ (x ∷ after)) ++ outs)) all
      → Same ((log ++ (x ∷ [])) ++ ((before ++ after) ++ outs)) all

module _ {A : Type 0} where
  pub end_assoc :
      (log hs outs : List A) (x : A)
      → (log ++ (hs ++ outs)) ++ (x ∷ []) ≡ log ++ (hs ++ (outs ++ (x ∷ [])))
  end_assoc log hs outs x =
      append_assoc log (hs ++ outs) (x ∷ []) ∙ ap (λ t. log ++ t) (append_assoc hs outs (x ∷ []))

  middle_out :
      (before after outs : List A) (x : A)
      → Perm ((before ++ (x ∷ after)) ++ outs) ((before ++ after) ++ (x ∷ outs))
  middle_out before after outs x =
      Perm.trans (Perm.append_right outs (perm_middle before after))
        (Perm.symm (perm_middle (before ++ after) outs))

  -- With any hands, no event is lost and none is doubled.
  pub any_order : Order {A = A} (λ hs. Unit) Perm
  any_order = record {
    nothing = tt;
    unsent = Perm.refl [];
    decided_one = λ xs ys x h. Perm.append_right (x ∷ []) h;
    popped = λ log before after outs all x ok h.
        Perm.trans (Perm.append_left log (middle_out before after outs x)) h;
    relayed = λ log before after outs all x ok h.
        Perm.trans
          (rw (append_assoc log (x ∷ []) ((before ++ after) ++ outs)) (
            Perm.append_left log (
              Perm.trans (Perm.symm (perm_middle (before ++ after) outs))
                (Perm.symm (middle_out before after outs x)))))
          h;
  }

  only_one :
      (before after : List A) (x : A)
      → length (before ++ (x ∷ after)) ≤ 1
      → (before ≡ []) × (after ≡ [])
  only_one [] [] x h = (refl, refl)
  only_one [] (y ∷ after) x h = absurd (omega arith)
  only_one (y ∷ before) after x h = absurd (omega (arith, length-append before (x ∷ after)))

  -- With one event in the hands at most, the order is kept.
  pub in_order : Order {A = A} (λ hs. length hs ≤ 1) (λ xs ys. xs ≡ ys)
  in_order = record {
    nothing = omega arith;
    unsent = refl;
    decided_one = λ xs ys x h. ap (λ t. t ++ (x ∷ [])) h;
    popped = λ log before after outs all x ok h.
        let one = only_one before after x ok in rw (one.0, one.1) (rw (one.0, one.1) at h);
    relayed = λ log before after outs all x ok h.
        let one = only_one before after x ok in
        rw (one.0, one.1, append_assoc) (rw (one.0, one.1) at h);
  }
