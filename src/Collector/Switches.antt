-- ===== src/Collector/Switches.antt =====
-- The entries of the maps after the functions that write the switches.
use e_trace_gen_e_bpfevent_t.Base.{
  ℕ, ℤ, Bool, true, false, ◌&&◌, ◌||◌, ◌≡◌, ◌==◌, is_nonneg, if◌then◌else◌, List, [], ◌∷◌, arith,
  ap, sym, ◌∙◌, Bool-cases, inl, inr, ◌⊎◌,
}
use e_trace_gen_e_bpfevent_t.Schema.Kinds.{file_openat, file_unlinkat, file_renameat2}
use e_trace_gen_e_bpfevent_t.Config.Runtime.{FileProbeConfig}
use e_trace_gen_e_bpfevent_t.Collector.Toggles.{
  UpdateElem, IsUpdateElem, toggle, process_keys, network_keys, set_toggle, set_toggles,
  apply_file_probe_config, apply_process_probe_config, apply_network_probe_config,
  set_allowlist_enabled,
}

unfoldable pub contains : List ℕ → ℕ → Bool
contains [] j = false
contains (key ∷ keys) j = j == key || contains keys j

and_true : (a b : Bool) → (a && b) ≡ true → (a ≡ true) × (b ≡ true)
and_true a b h = ground arith

if_ok :
    (P : Bool × (ℕ → ℕ) → Type 0) (b : Bool) (r : Bool × (ℕ → ℕ)) (values : ℕ → ℕ)
    → (if b then r else (false, values)).0 ≡ true
    → (r.0 ≡ true → P r)
    → P (if b then r else (false, values))
if_ok P true r values ok done = done ok
if_ok P false r values ok done = ground arith

module _ (update : UpdateElem) (laws : IsUpdateElem update) (map_fd : ℤ) where
  -- All writes succeeded, so those before this one did.
  set_toggles-ok :
      (keys : List ℕ) (enabled : Bool) (r : Bool × (ℕ → ℕ))
      → (set_toggles update map_fd keys enabled r).0 ≡ true
      → r.0 ≡ true
  unfolding set_toggles set_toggle
  set_toggles-ok [] enabled r ok = ok
  set_toggles-ok (key ∷ keys) enabled r ok =
      (and_true _ _ (set_toggles-ok keys enabled (set_toggle update map_fd key enabled r) ok)).0

  set_toggles-sets :
      (keys : List ℕ) (enabled : Bool) (r : Bool × (ℕ → ℕ))
      → (set_toggles update map_fd keys enabled r).0 ≡ true
      → (j : ℕ) → (contains keys j ≡ true) ⊎ (r.1 j ≡ toggle enabled)
      → (set_toggles update map_fd keys enabled r).1 j ≡ toggle enabled
  unfolding set_toggles set_toggle contains
  set_toggles-sets [] enabled r ok j (inl named) = ground arith
  set_toggles-sets [] enabled r ok j (inr same) = same
  set_toggles-sets (key ∷ keys) enabled r ok j at =
      let next = set_toggle update map_fd key enabled r in
      let written =
        laws map_fd r.1 key (toggle enabled) (and_true _ _ (set_toggles-ok keys enabled next ok)).1
          j in
      set_toggles-sets keys enabled next ok j (elim (Bool-cases (j == key)) [
        | inl same ↦ inr (written ∙ ap (λ b. if b then toggle enabled else r.1 j) same)
        | inr other ↦
            let kept = written ∙ ap (λ b. if b then toggle enabled else r.1 j) other in
            elim at [
              | inl named ↦ inl (sym (ap (λ b. b || contains keys j) other) ∙ named)
              | inr old ↦ inr (kept ∙ old)
            ]
      ])

  pub process_set :
      (enabled : Bool) (values : ℕ → ℕ)
      → (apply_process_probe_config update map_fd enabled values).0 ≡ true
      → (j : ℕ) → contains process_keys j ≡ true
      → (apply_process_probe_config update map_fd enabled values).1 j ≡ toggle enabled
  unfolding apply_process_probe_config
  process_set enabled values ok j named =
      if_ok (λ r. r.1 j ≡ toggle enabled) (is_nonneg map_fd) _ values ok
        λ done. set_toggles-sets process_keys enabled (true, values) done j (inl named)

  pub network_set :
      (enabled : Bool) (values : ℕ → ℕ)
      → (apply_network_probe_config update map_fd enabled values).0 ≡ true
      → (j : ℕ) → contains network_keys j ≡ true
      → (apply_network_probe_config update map_fd enabled values).1 j ≡ toggle enabled
  unfolding apply_network_probe_config
  network_set enabled values ok j named =
      if_ok (λ r. r.1 j ≡ toggle enabled) (is_nonneg map_fd) _ values ok
        λ done. set_toggles-sets network_keys enabled (true, values) done j (inl named)

  pub single_set :
      (enabled : Bool) (values : ℕ → ℕ)
      → (set_allowlist_enabled update map_fd enabled values).0 ≡ true
      → (set_allowlist_enabled update map_fd enabled values).1 0 ≡ toggle enabled
  unfolding set_allowlist_enabled
  single_set enabled values ok =
      if_ok (λ r. r.1 0 ≡ toggle enabled) (is_nonneg map_fd) _ values ok
        λ done. laws map_fd values 0 (toggle enabled) done 0

  set_toggle_lem :
      (key : ℕ) (enabled : Bool) (r : Bool × (ℕ → ℕ))
      → (set_toggle update map_fd key enabled r).0 ≡ true
      → (r.0 ≡ true)
        × ((j : ℕ)
            → (set_toggle update map_fd key enabled r).1 j
              ≡ (if j == key then toggle enabled else r.1 j))
  unfolding set_toggle
  set_toggle_lem key enabled r ok =
      let both = and_true _ _ ok in (both.0, laws map_fd r.1 key (toggle enabled) both.1)

  pub file_set :
      (cfg : FileProbeConfig) (values : ℕ → ℕ)
      → (apply_file_probe_config update map_fd cfg values).0 ≡ true
      → let after = (apply_file_probe_config update map_fd cfg values).1 in
        (after file_openat ≡ toggle cfg.openat)
        × (after file_unlinkat ≡ toggle cfg.unlinkat)
        × (after file_renameat2 ≡ toggle cfg.renameat2)
  unfolding apply_file_probe_config set_toggle
  file_set cfg values ok =
      if_ok
        (λ r.
          (r.1 file_openat ≡ toggle cfg.openat)
          × (r.1 file_unlinkat ≡ toggle cfg.unlinkat)
          × (r.1 file_renameat2 ≡ toggle cfg.renameat2))
        (is_nonneg map_fd) _ values ok
        λ done.
          let third = set_toggle_lem file_renameat2 cfg.renameat2 _ done in
          let second = set_toggle_lem file_unlinkat cfg.unlinkat _ third.0 in
          let first = set_toggle_lem file_openat cfg.openat (true, values) second.0 in
          (
            third.1 file_openat ∙ second.1 file_openat ∙ first.1 file_openat,
            third.1 file_unlinkat ∙ second.1 file_unlinkat,
            third.1 file_renameat2,
          )
