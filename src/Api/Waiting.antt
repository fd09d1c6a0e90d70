-- ===== src/Api/Waiting.antt =====
-- The loop of CreateTunnel in api/tunnels.go that waits for the allocation.
use Prim.Native.String.{String}
use text.Mathlib.TextEquality.{eq_iff}
use text.Mathlib.Text.{◌==◌ as str_eq}
use native.Mathlib.Nat.{add-zero}
use mathlib.Core.Path.{subst}
use go_playit.Base.{
  Result-cases, Option-cases, Bool-cases, arith, ◌∙◌, ◌≢◌, ◌≡◌, ◌<◌, ◌+◌, inr, inl, ok, some, suc,
  zero, ℕ, Result,
}
use go_playit.Api.Create.{first_status, wait_allocated}
use go_playit.Api.Tunnels.{AccountTunnels}
use go_playit.Api.Claimed.{different}

-- The answer lists the tunnel, and it is still pending.
abbrev pub IsPending : Result AccountTunnels → Type 0
IsPending r = (tuns : AccountTunnels) × (r ≡ ok tuns) × (first_status tuns.tunnels ≡ some "pending")

-- The answer lists the tunnel, and it is no longer pending.
abbrev pub IsAllocated : Result AccountTunnels → Type 0
IsAllocated r =
    (tuns : AccountTunnels) × (s : String) × (r ≡ ok tuns)
    × (first_status tuns.tunnels ≡ some s)
    × (s ≢ "pending")

pub wait_allocated_ends :
    (lists : ℕ → Result AccountTunnels) (fuel i : ℕ)
    → wait_allocated lists fuel i ≡ some (ok tt)
    → (j : ℕ) × IsAllocated (lists j)
wait_allocated_ends lists zero i h = absurd (unfold wait_allocated in cc)
wait_allocated_ends lists (suc fuel) i h = elim (Result-cases (lists i)) [
  | inr (inl (x, e)) ↦ absurd (unfold wait_allocated in ground (arith, e))
  | inr (inr e) ↦ absurd (unfold wait_allocated in ground (arith, e))
  | inl (tuns, e) ↦ elim (Option-cases (first_status tuns.tunnels)) [
    | inl f ↦ absurd (unfold wait_allocated in ground (arith, e, f))
    | inr (s, f) ↦ elim (Bool-cases (str_eq s "pending")) [
      | inl g ↦
          wait_allocated_ends lists fuel (i + 1) (unfold wait_allocated in ground (arith, e, f, g))
      | inr g ↦ (i, (tuns, s, e, f, λ p. absurd (ground (arith, g, p, eq_iff s "pending"))))
    ]
  ]
]

wait_allocated_waits :
    (lists : ℕ → Result AccountTunnels) (fuel i : ℕ)
    → IsPending (lists i)
    → wait_allocated lists (suc fuel) i ≡ wait_allocated lists fuel (i + 1)
unfolding wait_allocated
wait_allocated_waits lists fuel i (tuns, e, f) = rw (wait_allocated, e, f)

pub wait_allocated_past :
    (lists : ℕ → Result AccountTunnels) (n fuel i : ℕ)
    → ((j : ℕ) → j < n → IsPending (lists (i + j)))
    → IsAllocated (lists (i + n))
    → n < fuel
    → wait_allocated lists fuel i ≡ some (ok tt)
unfolding wait_allocated
wait_allocated_past lists n zero i before at_n h = absurd (omega arith)
wait_allocated_past lists zero (suc fuel) i before (tuns, s, e, f, other) h =
    let e0 : lists i ≡ ok tuns = rw add-zero at e in
    rw (wait_allocated, e0, f, different s "pending" other)
wait_allocated_past lists (suc n) (suc fuel) i before at_n h =
    wait_allocated_waits lists fuel i (rw add-zero at (before 0 (omega arith)))
    ∙ wait_allocated_past lists n fuel (i + 1)
        (λ j l. subst (λ (m : ℕ). IsPending (lists m)) (omega arith) (before (suc j) (omega arith)))
        (subst (λ (m : ℕ). IsAllocated (lists m)) (omega arith) at_n) (omega arith)
