-- ===== src/ApiClient/Ports.antt =====
-- src/api-client.cpp: the ports on which ingress sources listen (getFreePort and releasePort).
use src_link.Prelude.{
  refl, ◌≢◌, ◌<◌, inr, ◌≤◌, arith, zero, ◌⊎◌, ◌==◌, not, if◌then◌else◌, ◌-◌, branch, true, ◌+◌, ◌≡◌,
  suc, false, Bool, inl, ℕ,
}

-- `usedPorts`, a map whose missing keys read false.
abbrev pub Ports : Type 0
Ports = ℕ → Bool

abbrev pub set_port : ℕ → Bool → Ports → Ports
set_port port value used p = if p == port then value else used p

-- The loop over `count` ports from `i` on.
unfoldable pub free_port_from : ℕ → ℕ → Ports → ℕ × Ports
free_port_from zero i used = (0, used)
free_port_from (suc count) i used =
    let rest = free_port_from count (i + 1) used in
    if not (used i) then (i, set_port i true used) else rest

-- The ports from `min` to `max`; 0 if none is free.
unfoldable pub get_free_port : ℕ → ℕ → Ports → ℕ × Ports
unfolding free_port_from
get_free_port min max used = free_port_from (max + 1 - min) min used

unfoldable pub release_port : ℕ → Ports → Ports
release_port port used = set_port port false used

-- The port found is the first one that is free, and only its use changes; without a free port there is
-- no change.
pub record Found (count i : ℕ) (used : Ports) (r : ℕ × Ports) : Type 0 where
  pub free : used r.0 ≡ true → r.0 ≡ 0
  pub within : (r.0 ≡ 0) ⊎ (i ≤ r.0) × (r.0 < i + count)
  pub marked : (r.0 ≡ 0) ⊎ (r.1 r.0 ≡ true)
  pub others : (p : ℕ) → p ≢ r.0 → r.1 p ≡ used p
  pub kept : (p : ℕ) → used p ≡ true → r.1 p ≡ true

pub free_port_from-Found :
    (count i : ℕ) (used : Ports) → Found count i used (free_port_from count i used)
unfolding free_port_from
free_port_from-Found zero i used = record {
  free = λ e. refl;
  within = inl refl;
  marked = inl refl;
  others = λ p n. refl;
  kept = λ p u. u;
}
free_port_from-Found (suc count) i used =
    let rest = free_port_from-Found count (i + 1) used in
    branch (Found (suc count) i used) (not (used i)) _ _
      (λ y. record {
        free = λ e. ground arith;
        within = inr (ground arith, ground arith);
        marked = inr (ground arith);
        others = λ p n. ground arith;
        kept = λ p u. ground arith;
      })
      λ n. record {
        free = rest.free;
        within = ground (arith, rest.within);
        marked = rest.marked;
        others = rest.others;
        kept = rest.kept;
      }
