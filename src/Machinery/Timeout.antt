-- ===== src/Machinery/Timeout.antt =====
-- How `_wait_status` of lib/cuckoo/common/abstracts.py ends.
use capev.Base.{
  ℕ, zero, suc, ◌+◌, ◌≤◌, ◌<◌, ◌≡◌, inl, inr, Bool, true, false, Option, some, arith, Bool-cases,
  ltb,
}
use native.Mathlib.Decide.{dec_lt}
use capev.Machinery.{Wait, reached, timed_out, wait_from, wait_status}

-- What a wait that starts at poll `n` may end with.
pub data Ends (vm_state : ℕ) (wanted : ℕ → Bool) (n : ℕ) : Wait → Type 0 where
  at :
      (k : ℕ)
      → n ≤ k
      → k ≤ vm_state + 1
      → wanted k ≡ true
      → ((j : ℕ) → n ≤ j → j < k → wanted j ≡ false)
      → Ends vm_state wanted n (reached k)
  never : ((j : ℕ) → n ≤ j → j ≤ vm_state + 1 → wanted j ≡ false) → Ends vm_state wanted n timed_out

abbrev Waits : ℕ → (ℕ → Bool) → ℕ → Option Wait → Type 0
Waits vm_state wanted n o = (w : Wait) × (o ≡ some w) × Ends vm_state wanted n w

from_here :
    (wanted : ℕ → Bool) (n j : ℕ)
    → wanted n ≡ false
    → n ≤ j
    → (suc n ≤ j → wanted j ≡ false)
    → wanted j ≡ false
from_here wanted n j miss p h = elim (dec_lt n j) [
  | yes q ↦ h q
  | no q ↦ let e : j ≡ n = omega arith in rw e miss
]

later :
    {vm_state : ℕ} {wanted : ℕ → Bool} {n : ℕ} {w : Wait}
    → wanted n ≡ false
    → Ends vm_state wanted (suc n) w
    → Ends vm_state wanted n w
later {wanted = f} {n = i} miss (at k a b c d) =
    at k (omega arith) b c (λ j p q. from_here f i j miss p (λ r. d j r q))
later {wanted = f} {n = i} miss (never d) = never (λ j p q. from_here f i j miss p (λ r. d j r q))

wait_from-Ends :
    (fuel vm_state : ℕ) (wanted : ℕ → Bool) (n : ℕ)
    → n ≤ vm_state + 1
    → vm_state + 2 ≤ fuel + n
    → Waits vm_state wanted n (wait_from fuel vm_state wanted n)
unfolding wait_from
wait_from-Ends zero vm_state wanted n h k = absurd (omega arith)
wait_from-Ends (suc fuel) vm_state wanted n h k = elim (Bool-cases (wanted n)) [
  | inl hit ↦ (reached n, ground arith, at n (omega arith) h hit (λ j a b. absurd (omega arith)))
  | inr miss ↦ elim (Bool-cases (ltb vm_state n)) [
    | inl late ↦ (
      timed_out,
      ground arith,
      never (λ j p q. from_here wanted n j miss p (λ r. absurd (ground arith))),
    )
    | inr early ↦
        let (w, e, ends) =
          wait_from-Ends fuel vm_state wanted (suc n) (ground arith) (omega arith) in
        (w, ground arith, later miss ends)
  ]
]

-- _wait_status always ends: at the first poll whose state is wanted, if that is among the first
-- vm_state + 2 polls, and by the timeout exactly if none of them shows a wanted state.
pub wait_status-Ends :
    (vm_state : ℕ) (wanted : ℕ → Bool)
    → (w : Wait) × (wait_status vm_state wanted ≡ some w) × Ends vm_state wanted 0 w
unfolding wait_status
wait_status-Ends vm_state wanted =
    wait_from-Ends (vm_state + 2) vm_state wanted 0 (omega arith) (omega arith)
