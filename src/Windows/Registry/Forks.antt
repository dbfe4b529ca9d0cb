-- ===== src/Windows/Registry/Forks.antt =====
-- windows/sys/kbfiltr.cpp: the list of forks, written and read back.
use fork_plugin.Prelude.{
  All, ℕ, zero, suc, ◌+◌, ◌*◌, ◌/◌, ◌%◌, ◌^◌, ◌≤◌, ◌<◌, ◌≡◌, refl, sym, ap, ◌∙◌, false, ◌&&◌, List,
  [], ◌∷◌, arith, length, ◌==◌, ◌!=◌, ltb, leb, if◌then◌else◌, update, Bool-cases, inl, inr,
}
use fork_plugin.Machine.{Outcome, done}
use fork_plugin.Windows.Registry.{max_forks, binary_values}

-- What the loop stores, where the keys have these forks.
unfoldable pub entries : (ℕ → ℕ) → ℕ → ℕ → ℕ → List ℕ
entries fork key zero top = []
entries fork key (suc left) top =
    let stored = entries fork (suc key) left (suc top) in
    let skipped = entries fork (suc key) left top in
    if fork key != 0
    then (key * 2 ^ 16 + fork key) ∷ (if suc top == max_forks then [] else stored)
    else skipped

pub binary_values-entries :
    (read : ℕ → Outcome ℕ) (fork : ℕ → ℕ) (key left top : ℕ)
    → ((i : ℕ) → i < 512 → read i ≡ done (fork i))
    → key + left ≤ 512
    → binary_values read key left top ≡ done (entries fork key left top)
unfolding binary_values entries
binary_values-entries read fork key zero top has inside = refl
binary_values-entries read fork key (suc left) top has inside =
    let stored = binary_values-entries read fork (suc key) left (suc top) has (omega arith) in
    let skipped = binary_values-entries read fork (suc key) left top has (omega arith) in
    rw (has key (omega arith), stored, skipped)
      (elim (Bool-cases (fork key != 0)) [
        | inl forked ↦ elim (Bool-cases (suc top == max_forks)) [
          | inl full ↦ rw (forked, full) refl
          | inr free ↦ rw (forked, free) refl
        ]
        | inr plain ↦ rw plain refl
      ])

-- Each value holds a key below 512, and so can be restored.
abbrev pub IsKeyed : ℕ → Type 0
IsKeyed val = val / 2 ^ 16 % 2 ^ 16 < 512

pub entries-IsKeyed :
    (fork : ℕ → ℕ) (key left top : ℕ)
    → ((i : ℕ) → fork i < 2 ^ 16)
    → key + left ≤ 512
    → All IsKeyed (entries fork key left top)
unfolding entries
entries-IsKeyed fork key zero top small inside = tt
entries-IsKeyed fork key (suc left) top small inside = elim (Bool-cases (fork key != 0)) [
  | inr plain ↦ rw plain (entries-IsKeyed fork (suc key) left top small (omega arith))
  | inl forked ↦
      let here : IsKeyed (key * 2 ^ 16 + fork key) = omega (arith, small key) in
      elim (Bool-cases (suc top == max_forks)) [
        | inl full ↦ rw (forked, full) (here, tt)
        | inr free ↦
            rw (forked, free)
              (here, entries-IsKeyed fork (suc key) left (suc top) small (omega arith))
      ]
]

-- The number of keys with a fork, from a key on.
unfoldable pub forks_from : (ℕ → ℕ) → ℕ → ℕ → ℕ
forks_from fork key zero = 0
forks_from fork key (suc left) =
    let rest = forks_from fork (suc key) left in if fork key != 0 then suc rest else rest

-- The table of forks after the values have been read back.
abbrev pub table : List ℕ → (ℕ → ℕ) → ℕ → ℕ
table [] g = g
table (val ∷ vals) g =
    let key = val / 2 ^ 16 % 2 ^ 16 in
    table vals (if ltb 512 key then g else update g key (val % 2 ^ 16))

entries-none :
    (fork : ℕ → ℕ) (key left top : ℕ)
    → forks_from fork key left ≡ 0
    → entries fork key left top ≡ []
unfolding forks_from entries
entries-none fork key zero top h = refl
entries-none fork key (suc left) top h = elim (Bool-cases (fork key != 0)) [
  | inl some_fork ↦ absurd (ground (arith, h))
  | inr none_here ↦ rw none_here (entries-none fork (suc key) left top (ground (arith, h)))
]

pub length-entries :
    (fork : ℕ → ℕ) (key left top : ℕ)
    → top < max_forks
    → top + length (entries fork key left top) ≤ max_forks
unfolding entries
length-entries fork key zero top h = omega arith
length-entries fork key (suc left) top h =
    ground (
      arith,
      length-entries fork (suc key) left top h,
      length-entries fork (suc key) left (suc top),
    )

-- An entry is taken apart as it was put together.
table-entry :
    (vals : List ℕ) (g : ℕ → ℕ) (key fork : ℕ)
    → key < 512
    → fork < 2 ^ 16
    → table ((key * 2 ^ 16 + fork) ∷ vals) g ≡ table vals (update g key fork)
table-entry vals g key fork h k =
    let put = λ (at v : ℕ). if ltb 512 at then g else update g at v in
    let key_back : (key * 2 ^ 16 + fork) / 2 ^ 16 % 2 ^ 16 ≡ key = omega arith in
    let fork_back : (key * 2 ^ 16 + fork) % 2 ^ 16 ≡ fork = omega arith in
    let in_range : ltb 512 key ≡ false = ground arith in
    ap (λ at. table vals (put at ((key * 2 ^ 16 + fork) % 2 ^ 16))) key_back
    ∙ ap (λ v. table vals (put key v)) fork_back
    ∙ ap (λ b. table vals (if b then g else update g key fork)) in_range

-- Where the forks fit, each one from the key on is read back, and no other place changes.
pub table-entries :
    (fork g : ℕ → ℕ) (key left top k : ℕ)
    → ((i : ℕ) → fork i < 2 ^ 16)
    → key + left ≤ 512
    → top + forks_from fork key left ≤ max_forks
    → table (entries fork key left top) g k
      ≡ (if leb key k && (ltb k (key + left) && fork k != 0) then fork k else g k)
unfolding forks_from entries
table-entries fork g key zero top k small inside fits = ground arith
table-entries fork g key (suc left) top k small inside fits = elim (Bool-cases (fork key != 0)) [
  | inl forked ↦
      let stored = entries fork (suc key) left (suc top) in
      let room : suc top + forks_from fork (suc key) left ≤ max_forks = ground (arith, fits) in
      let whole : (if suc top == max_forks then [] else stored) ≡ stored =
        elim (Bool-cases (suc top == max_forks)) [
          | inl full ↦
              rw full (sym (entries-none fork (suc key) left (suc top) (ground (arith, room))))
          | inr free ↦ rw free refl
        ] in
      rw (forked, whole)
        (ap (λ f. f k) (table-entry stored g key (fork key) (omega arith) (small key))
          ∙ table-entries fork (update g key (fork key)) (suc key) left (suc top) k small
              (omega arith) room
          ∙ ground arith)
  | inr plain ↦ rw plain (
      table-entries fork g (suc key) left top k small (omega arith) (ground (arith, fits))
      ∙ ground arith)
]
