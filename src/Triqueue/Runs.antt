-- ===== src/Triqueue/Runs.antt =====
-- src/triqueue.h: sequences of operations, against three lists.
use mathlib.Core.Path.{subst}
use fork_plugin.Prelude.{
  ℕ, ◌+◌, ◌≤◌, ◌≡◌, refl, ap, ◌∙◌, Option, none, some, List, [], ◌∷◌, ◌++◌, arith, length, ltb,
  if◌then◌else◌, Bool-cases, inl, inr, ltb→lt,
}
use fork_plugin.Circular.{size_mod}
use fork_plugin.Triqueue.{
  Triqueue, triqueue, push, pop, peek_middle, peek_third, write_middle, write_third, move_to_first,
  move_to_second, rewind_middle,
}
use fork_plugin.Triqueue.Refine.{
  Split, triqueue-Split, push-Split, pop-Split, peek_middle-eq, peek_third-eq, write_middle-Split,
  write_third-Split, move_to_first-Split, move_to_second-Split, rewind_middle-Split,
}

-- The methods that change the queues, each with what it is called with.
pub data Operation (A : Type 0) : Type 0 where
  call_push : A → Operation A
  call_pop : Operation A
  call_move_to_first : Operation A
  call_move_to_second : Operation A
  call_rewind_middle : Operation A
  call_write_middle : A → Operation A
  call_write_third : A → Operation A

-- The output, internal and input queue as lists.
pub record Queues (A : Type 0) : Type 0 where
  pub outs : List A
  pub mids : List A
  pub ins : List A

module _ {A : Type 0} where
  -- A method, and the object that it returns or that its reference had before the write.
  unfoldable pub operate : Operation A → Triqueue A → Option A × Triqueue A
  operate (call_push x) q = (none, push q x)
  operate call_pop q = pop q
  operate call_move_to_first q = (peek_middle q, move_to_first q)
  operate call_move_to_second q = (peek_third q, move_to_second q)
  operate call_rewind_middle q = (none, rewind_middle q)
  operate (call_write_middle y) q = (peek_middle q, write_middle q y)
  operate (call_write_third y) q = (peek_third q, write_third q y)

  unfoldable pub operate_all : List (Operation A) → Triqueue A → List (Option A) × Triqueue A
  unfolding operate
  operate_all [] q = ([], q)
  operate_all (o ∷ os) q = let (x, r) = operate o q in let (xs, s) = operate_all os r in (x ∷ xs, s)

  -- The same on lists, for a buffer of the given capacity: nothing where the buffer is full, or the
  -- queue that the method takes an event from or refers to is empty.
  abbrev pub specified : ℕ → Operation A → Queues A → Option (Option A × Queues A)
  specified cap (call_push x) s =
      if ltb (length s.outs + length s.mids + length s.ins) cap
      then some (none, record s { ins = s.ins ++ (x ∷ []) })
      else none
  specified cap call_pop s = elim s.outs [
    | [] ↦ none
    | x ∷ rest ↦ some (some x, record s { outs = rest })
  ]
  specified cap call_move_to_first s = elim s.mids [
    | [] ↦ none
    | x ∷ rest ↦ some (some x, record s { outs = s.outs ++ (x ∷ []); mids = rest })
  ]
  specified cap call_move_to_second s = elim s.ins [
    | [] ↦ none
    | x ∷ rest ↦ some (some x, record s { mids = s.mids ++ (x ∷ []); ins = rest })
  ]
  specified cap call_rewind_middle s = some (none, record s { mids = []; ins = s.mids ++ s.ins })
  specified cap (call_write_middle y) s = elim s.mids [
    | [] ↦ none
    | x ∷ rest ↦ some (some x, record s { mids = y ∷ rest })
  ]
  specified cap (call_write_third y) s = elim s.ins [
    | [] ↦ none
    | x ∷ rest ↦ some (some x, record s { ins = y ∷ rest })
  ]

  -- A run that the lists allow, with what it returns.
  pub data Specified (cap : ℕ)
      : List (Operation A) → Queues A → List (Option A) → Queues A → Type 0 where
    stop : (s : Queues A) → Specified cap [] s [] s
    step :
        (o : Operation A) (os : List (Operation A)) (s t u : Queues A) (x : Option A)
        → (xs : List (Option A)) → specified cap o s ≡ some (x, t)
        → Specified cap os t xs u
        → Specified cap (o ∷ os) s (x ∷ xs) u

  -- What an operation does to the queue, beside a value and lists.
  abbrev Agrees : ℕ → Option A × Triqueue A → Option A × Queues A → Type 0
  Agrees cap r v = (r.0 ≡ v.0) × Split cap r.1 v.1.outs v.1.mids v.1.ins

  Agrees-some :
      {cap : ℕ} (r : Option A × Triqueue A) (v u : Option A × Queues A)
      → Agrees cap r v
      → some v ≡ some u
      → Agrees cap r u
  Agrees-some {cap} r v u h e = let same : v ≡ u = cc in subst (Agrees cap r) same h

  operate-Split :
      {cap : ℕ} (o : Operation A) (q : Triqueue A) (outs mids ins : List A)
      → (u : Option A × Queues A) → Split cap q outs mids ins
      → specified cap o (record { outs = outs; mids = mids; ins = ins }) ≡ some u
      → Agrees cap (operate o q) u
  unfolding operate
  operate-Split {cap} (call_push x) q outs mids ins u s e =
      elim (Bool-cases (ltb (length outs + length mids + length ins) cap)) [
        | inl room ↦
            Agrees-some _ (none, record { outs = outs; mids = mids; ins = ins ++ (x ∷ []) }) u
              (refl, push-Split x s (ltb→lt (length outs + length mids + length ins) cap room))
              (rw room at e)
        | inr full ↦ absurd (ground (arith, e))
      ]
  operate-Split call_pop q [] mids ins u s e = absurd (cc)
  operate-Split call_pop q (x ∷ outs) mids ins u s e =
      Agrees-some _ _ u (pop-Split x outs mids ins s) e
  operate-Split call_move_to_first q outs [] ins u s e = absurd (cc)
  operate-Split call_move_to_first q outs (x ∷ mids) ins u s e =
      Agrees-some _ _ u (peek_middle-eq outs x mids ins s, move_to_first-Split outs x mids ins s) e
  operate-Split call_move_to_second q outs mids [] u s e = absurd (cc)
  operate-Split call_move_to_second q outs mids (x ∷ ins) u s e =
      Agrees-some _ _ u (peek_third-eq outs mids x ins s, move_to_second-Split outs mids x ins s) e
  operate-Split call_rewind_middle q outs mids ins u s e =
      Agrees-some _ _ u (refl, rewind_middle-Split s) e
  operate-Split (call_write_middle y) q outs [] ins u s e = absurd (cc)
  operate-Split (call_write_middle y) q outs (x ∷ mids) ins u s e =
      Agrees-some _ _ u (peek_middle-eq outs x mids ins s, write_middle-Split outs x y mids ins s) e
  operate-Split (call_write_third y) q outs mids [] u s e = absurd (cc)
  operate-Split (call_write_third y) q outs mids (x ∷ ins) u s e =
      Agrees-some _ _ u (peek_third-eq outs mids x ins s, write_third-Split outs mids x y ins s) e

  operate_all-agrees :
      {cap : ℕ} (os : List (Operation A)) (q : Triqueue A) (s u : Queues A) (xs : List (Option A))
      → Split cap q s.outs s.mids s.ins
      → Specified cap os s xs u
      → ((operate_all os q).0 ≡ xs) × Split cap (operate_all os q).1 u.outs u.mids u.ins
  unfolding operate_all
  operate_all-agrees [] q s u xs h (stop v) = (refl, h)
  operate_all-agrees (o ∷ os) q s u xs h (step o1 os1 s1 t u1 x ys e rest) =
      let first = operate-Split o q s.outs s.mids s.ins (x, t) h e in
      let others = operate_all-agrees os (operate o q).1 t u ys first.1 rest in
      (
        ap (λ y. y ∷ (operate_all os (operate o q).1).0) first.0 ∙ ap (λ ys. x ∷ ys) others.0,
        others.1,
      )

  -- A new buffer whose capacity is at least two, and twice it still a value of size_type, implements
  -- the three lists: a sequence of operations that the lists allow returns what they return, and
  -- leaves the queues with what they hold.
  pub operate_all-Specified :
      (cap : ℕ) (os : List (Operation A)) (u : Queues A) (xs : List (Option A))
      → 2 ≤ cap
      → cap + cap ≤ size_mod
      → Specified cap os (record { outs = []; mids = []; ins = [] }) xs u
      → ((operate_all os (triqueue cap)).0 ≡ xs)
        × Split cap (operate_all os (triqueue cap)).1 u.outs u.mids u.ins
  operate_all-Specified cap os u xs two small run =
      operate_all-agrees os (triqueue cap) (record { outs = []; mids = []; ins = [] }) u xs
        (triqueue-Split cap two small) run
