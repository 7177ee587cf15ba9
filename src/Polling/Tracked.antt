-- ===== src/Polling/Tracked.antt =====
-- One timer at most, and it is the one that `stopPolling` would clear.
use distributed_file_storage.Prelude.{
  ℕ, ◌≤◌, ◌≡◌, refl, true, false, Option, none, some, List, [], ◌∷◌, arith, length, not, ◌==◌,
  filter, ==_iff,
}
use distributed_file_storage.Runtime.{Runtime, Timer, clear_timeout?}
use distributed_file_storage.Polling.{has_timer}

abbrev pub Tracked : List Timer → Option ℕ → Type 0
Tracked [] known = Unit
Tracked (t ∷ []) known = known ≡ some t.id
Tracked (t ∷ u ∷ ts) known = ⊥

pub Tracked-length : (ts : List Timer) (known : Option ℕ) → Tracked ts known → length ts ≤ 1
Tracked-length [] known t = omega arith
Tracked-length (x ∷ []) known t = omega arith
Tracked-length (x ∷ y ∷ ts) known t = absurd t

pub nil-Tracked : (ts : List Timer) (known : Option ℕ) → ts ≡ [] → Tracked ts known
nil-Tracked [] known e = tt
nil-Tracked (t ∷ ts) known e = cc

-- Where every timer is tracked, `clearTimeout` on the known one leaves none.
pub cleared-Tracked :
    {R : Type 0} (rt : Runtime R) (known : Option ℕ)
    → Tracked rt.timers known
    → (clear_timeout? known rt).timers ≡ []
cleared-Tracked rt known h = go rt.timers known h refl
  where
    go :
        (ts : List Timer) (known : Option ℕ)
        → Tracked ts known
        → rt.timers ≡ ts
        → (clear_timeout? known rt).timers ≡ []
    go [] none h e = e
    go [] (some i) h e = rw e
    go (t ∷ []) none h e = cc
    go (t ∷ []) (some i) h e = rw e (ground (arith, ==_iff t.id i))
    go (t ∷ u ∷ ts) known h e = absurd h

pub fired-Tracked :
    (ts : List Timer) (known : Option ℕ) (id : ℕ)
    → Tracked ts known
    → has_timer id ts ≡ true
    → filter (λ t. not (t.id == id)) ts ≡ []
fired-Tracked [] known id h f = cc
fired-Tracked (t ∷ []) known id h f = ground (arith, ==_iff t.id id)
fired-Tracked (t ∷ u ∷ ts) known id h f = absurd h

pub has_timer-nil : (ts : List Timer) (id : ℕ) → ts ≡ [] → has_timer id ts ≡ false
has_timer-nil [] id e = refl
has_timer-nil (t ∷ ts) id e = cc
