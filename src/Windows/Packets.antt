-- ===== src/Windows/Packets.antt =====
-- windows/sys/kbfiltr.cpp: the packets that KbFilter_ServiceCallback is called with.
use fork_plugin.Prelude.{
  ℕ, ◌+◌, ◌≡◌, refl, sym, ap, ◌∙◌, List, [], ◌∷◌, ◌++◌, length, length-append,
}
use fork_plugin.Machine.{Machine, Outcome, done, fault, no_fuel, ◌>>=◌}
use fork_plugin.Windows.{KeyboardInputData, KeyFlags, ExtendedEvent}
use fork_plugin.Windows.Driver.{Framework, accept_event, accept_all, service_callback}

>>=-assoc :
    {A B C : Type 0} (o : Outcome A) (f : A → Outcome B) (g : B → Outcome C)
    → (o >>= f >>= g) ≡ (o >>= λ a. f a >>= g)
>>=-assoc (done a) f g = refl
>>=-assoc fault f g = refl
>>=-assoc no_fuel f g = refl

>>=-ext :
    {A B : Type 0} (o : Outcome A) (f g : A → Outcome B)
    → ((a : A) → f a ≡ g a)
    → (o >>= f) ≡ (o >>= g)
>>=-ext (done a) f g h = h a
>>=-ext fault f g h = refl
>>=-ext no_fuel f g h = refl

module _ (mask : KeyFlags) (wdf : Framework) (fuel : ℕ) where
  open wdf use {World}

  abbrev with_count :
      ℕ → Machine ExtendedEvent × World → Outcome (ℕ × Machine ExtendedEvent × World)
  with_count n r = done (n, r.0, r.1)

  abbrev add_count :
      ℕ → ℕ × Machine ExtendedEvent × World → Outcome (ℕ × Machine ExtendedEvent × World)
  add_count n s = done (n + s.0, s.1, s.2)

  -- The count is added up after the packets have been accepted.
  counted :
      (n k l : ℕ)
      → n ≡ k + l
      → (o : Outcome (Machine ExtendedEvent × World))
      → (o >>= with_count n) ≡ ((o >>= with_count l) >>= add_count k)
  counted n k l e (done a) = ap (λ i. with_count i a) e
  counted n k l e fault = refl
  counted n k l e no_fuel = refl

  accept_all-append :
      (m : Machine ExtendedEvent) (w : World) (xs ys : List KeyboardInputData)
      → accept_all mask wdf fuel m w (xs ++ ys)
        ≡ (accept_all mask wdf fuel m w xs >>= λ r. accept_all mask wdf fuel r.0 r.1 ys)
  unfolding accept_all
  accept_all-append m w [] ys = refl
  accept_all-append m w (x ∷ xs) ys =
      >>=-ext (accept_event mask wdf fuel m w x) _ _ (λ r. accept_all-append r.0 r.1 xs ys)
      ∙ sym (>>=-assoc (accept_event mask wdf fuel m w x) _ _)

  -- How the class driver's packets are cut into calls makes no difference: one call with two runs of
  -- packets does what a call with the first and then a call with the second do, to the machine and
  -- to all else, and reports as many packets as these two together.
  pub service_callback-append :
      (m : Machine ExtendedEvent) (w : World) (xs ys : List KeyboardInputData)
      → service_callback mask wdf fuel m w (xs ++ ys) ≡ (
          service_callback mask wdf fuel m w xs >>= λ r.
          service_callback mask wdf fuel r.1 r.2 ys >>= λ s. done (r.0 + s.0, s.1, s.2))
  unfolding service_callback
  service_callback-append m w xs ys =
      ap (λ o. o >>= with_count (length (xs ++ ys))) (accept_all-append m w xs ys)
      ∙ >>=-assoc (accept_all mask wdf fuel m w xs) _ _
      ∙ >>=-ext (accept_all mask wdf fuel m w xs) _ _ (λ r.
        counted (length (xs ++ ys)) (length xs) (length ys) (length-append xs ys)
          (accept_all mask wdf fuel r.0 r.1 ys))
      ∙ sym (>>=-assoc (accept_all mask wdf fuel m w xs) _ _)
