-- ===== src/Windows/Registry/Calls.antt =====
-- windows/sys/kbfiltr.cpp: what the driver relies on of the registry.
use fork_plugin.Prelude.{ℕ, ◌^◌, ◌≤◌, ◌<◌, ◌≡◌, ◌≢◌, ◌∙◌, some, List, length}
use fork_plugin.Windows.Registry.{
  RegistryCalls, ValueName, clear_interval, repeat_limit, repeat_consider_forks, debug,
  binary_forks, reg_binary, max_forks,
}

-- A registry in which every assignment takes effect: the value that was assigned is found again, if
-- it fits, and no other one is touched.
pub record IsRegistry (calls : RegistryCalls) : Type 0 where
  pub query_ulong-assign_ulong :
      (name : ValueName) (value : ℕ) (key : calls.WdfKey)
      → value < 2 ^ 32
      → calls.query_ulong name (calls.assign_ulong name value key).1 ≡ some value
  pub query_ulong-other :
      (name other : ValueName) (value : ℕ) (key : calls.WdfKey)
      → name ≢ other
      → calls.query_ulong other (calls.assign_ulong name value key).1 ≡ calls.query_ulong other key
  pub query_ulong-assign_value :
      (name other : ValueName) (values : List ℕ) (key : calls.WdfKey)
      → name ≢ other
      → calls.query_ulong other (calls.assign_value name values key).1 ≡ calls.query_ulong other key
  pub query_value-assign_value :
      (name : ValueName) (values : List ℕ) (room : ℕ) (key : calls.WdfKey)
      → length values ≤ room
      → calls.query_value name room (calls.assign_value name values key).1
        ≡ some (reg_binary values)

module _ (calls : RegistryCalls) where
  open calls use {WdfKey, assign_ulong, assign_value}

  abbrev pub assigned : WdfKey → ℕ → ℕ → ℕ → ℕ → WdfKey
  assigned k a b c d =
      (assign_ulong debug d
        (assign_ulong repeat_consider_forks c
          (assign_ulong repeat_limit b (assign_ulong clear_interval a k).1).1).1).1

  abbrev pub saved : WdfKey → ℕ → ℕ → ℕ → ℕ → List ℕ → WdfKey
  saved k a b c d vs = (assign_value binary_forks vs (assigned k a b c d)).1

module _ (calls : RegistryCalls) (law : IsRegistry calls) where
  open calls use {WdfKey, assign_ulong, query_ulong, assign_value, query_value}

  pub query-saved :
      (k : WdfKey) (a b c d : ℕ) (vs : List ℕ)
      → a < 2 ^ 32
      → b < 2 ^ 32
      → c < 2 ^ 32
      → d < 2 ^ 32
      → length vs ≤ max_forks
      → (query_ulong clear_interval (saved calls k a b c d vs) ≡ some a)
        × (query_ulong repeat_limit (saved calls k a b c d vs) ≡ some b)
        × (query_ulong repeat_consider_forks (saved calls k a b c d vs) ≡ some c)
        × (query_ulong debug (saved calls k a b c d vs) ≡ some d)
        × (query_value binary_forks max_forks (saved calls k a b c d vs) ≡ some (reg_binary vs))
  query-saved k a b c d vs ha hb hc hd fits =
      let other = law.query_ulong-other in
      let k1 = (assign_ulong clear_interval a k).1 in
      let k2 = (assign_ulong repeat_limit b k1).1 in
      let k3 = (assign_ulong repeat_consider_forks c k2).1 in
      let k4 = (assign_ulong debug d k3).1 in
      let past = λ (name : ValueName) (ne : binary_forks ≢ name).
        law.query_ulong-assign_value binary_forks name vs k4 ne in
      (
        past clear_interval (λ e. cc)
            ∙ other debug clear_interval d k3 (λ e. cc)
            ∙ other repeat_consider_forks clear_interval c k2 (λ e. cc)
            ∙ other repeat_limit clear_interval b k1 (λ e. cc)
            ∙ law.query_ulong-assign_ulong clear_interval a k ha,
        past repeat_limit (λ e. cc)
            ∙ other debug repeat_limit d k3 (λ e. cc)
            ∙ other repeat_consider_forks repeat_limit c k2 (λ e. cc)
            ∙ law.query_ulong-assign_ulong repeat_limit b k1 hb,
        past repeat_consider_forks (λ e. cc)
            ∙ other debug repeat_consider_forks d k3 (λ e. cc)
            ∙ law.query_ulong-assign_ulong repeat_consider_forks c k2 hc,
        past debug (λ e. cc) ∙ law.query_ulong-assign_ulong debug d k3 hd,
        law.query_value-assign_value binary_forks vs max_forks k4 fits,
      )
