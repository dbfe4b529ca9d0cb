-- ===== src/Xorg/Hotkeys/Pairs.antt =====
-- xorg/fork-plugin.cpp: what a sequence of keys does in the configuration mode.
use fork_plugin.Prelude.{ℕ, ◌≡◌, ◌≢◌, refl, true, false, arith, ◌&&◌, ◌==◌}
use fork_plugin.Machine.{Machine}
use fork_plugin.Xorg.{InternalEvent, press_p, detail_of}
use fork_plugin.Xorg.Hotkeys.{Hotkeys, filter_config_key_maybe, pause, key_k, key_l, put_fork}

-- A key that the configuration mode takes for half of a pair.
abbrev pub IsPairKey : InternalEvent → Type 0
IsPairKey e =
    (press_p e ≡ true)
    × (detail_of e ≢ pause)
    × (detail_of e ≢ key_k)
    × (detail_of e ≢ key_l)
    × (detail_of e ≢ 0)

-- The first press of a pair is remembered.
filter_config_key_maybe-first :
    (h : Hotkeys) (m : Machine InternalEvent) (e : InternalEvent)
    → h.config_mode ≡ true
    → h.latch ≡ false
    → h.key_to_fork ≡ 0
    → IsPairKey e
    → filter_config_key_maybe h m e
      ≡ (record h { key_to_fork = detail_of e; config_mode = true; last_press_time = 0 }, m, false)
unfolding filter_config_key_maybe
filter_config_key_maybe-first h m e c l k a = ground arith

-- The second press of a pair defines the fork.
filter_config_key_maybe-second :
    (h : Hotkeys) (m : Machine InternalEvent) (e : InternalEvent)
    → h.config_mode ≡ true
    → h.latch ≡ false
    → h.key_to_fork ≢ 0
    → IsPairKey e
    → filter_config_key_maybe h m e ≡ (
      record h { key_to_fork = 0; config_mode = true; last_press_time = 0 },
      put_fork m h.key_to_fork (detail_of e),
      false,
    )
unfolding filter_config_key_maybe
filter_config_key_maybe-second h m e c l k a = ground arith

-- In the configuration mode, with no latch and no half of a pair pending, two presses of keys other
-- than Pause, K, L and 0 define the fork of the first key as the second and change no other fork;
-- both events are left to the machine, and the mode goes on with nothing pending.
pub filter_config_key_maybe-pair :
    (h : Hotkeys) (m : Machine InternalEvent) (from to : InternalEvent) (other : ℕ)
    → h.config_mode ≡ true
    → h.latch ≡ false
    → h.key_to_fork ≡ 0
    → IsPairKey from
    → IsPairKey to
    → other ≢ detail_of from
    → let (h1, m1, taken1) = filter_config_key_maybe h m from in
      let (h2, m2, taken2) = filter_config_key_maybe h1 m1 to in
      (m2.config.fork_keycode (detail_of from) ≡ detail_of to)
      × (m2.config.fork_keycode other ≡ m.config.fork_keycode other)
      × (taken1 ≡ false)
      × (taken2 ≡ false)
      × (h2.config_mode ≡ true)
      × (h2.key_to_fork ≡ 0)
filter_config_key_maybe-pair h m from to other c l k a b ne =
    rw
      (
        filter_config_key_maybe-first h m from c l k a,
        filter_config_key_maybe-second
            (record h { key_to_fork = detail_of from; config_mode = true; last_press_time = 0 }) m
            to refl l a.4 b,
      )
      (ground arith, ground arith, refl, refl, refl, refl)

-- Outside the configuration mode, the machine is left as it is by filter_config_key_maybe; an event
-- that does not press Pause is left to it and the mode stays off, and the press of Pause is kept
-- from it and starts the mode.
pub filter_config_key_maybe-off :
    (h : Hotkeys) (m : Machine InternalEvent) (event : InternalEvent)
    → h.config_mode ≡ false
    → let (h', m', taken) = filter_config_key_maybe h m event in
      (m' ≡ m)
      × (taken ≡ (detail_of event == pause && press_p event))
      × (h'.config_mode ≡ (detail_of event == pause && press_p event))
unfolding filter_config_key_maybe
filter_config_key_maybe-off h m event c = (ground arith, ground arith, ground arith)
