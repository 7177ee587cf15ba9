-- ===== src/Runtime/Listeners/Laws.antt =====
-- What a broadcast does: it reaches every listener, whoever throws.
use mathlib.Core.List.{append_assoc, append-nil}
use distributed_file_storage.Prelude.{
  ℕ, ap, inl, inr, ◌&&◌, ◌||◌, Bool, List, [], ◌∷◌, ◌++◌, map, ◌≡◌, refl, sym, ◌∙◌, arith, filter,
  not, ◌==◌, Bool-cases,
}
use distributed_file_storage.Runtime.{Runtime}
use distributed_file_storage.Runtime.Listeners.{has, add, delete, call_caught, notify_listeners}

filter-cons :
    (p : ℕ → Bool) (l : ℕ) (ls : List ℕ) → filter p (l ∷ ls) ≡ filter p (l ∷ []) ++ filter p ls
filter-cons p l ls = elim (Bool-cases (p l)) [ inl h ↦ rw h | inr h ↦ rw h ]

module _ {R : Type 0} where
  pub notify_listeners-timers :
      (ls : List ℕ) (r : R) (rt : Runtime R) → (notify_listeners ls r rt).timers ≡ rt.timers
  unfolding notify_listeners
  notify_listeners-timers [] r rt = refl
  notify_listeners-timers (l ∷ ls) r rt =
      notify_listeners-timers ls r (call_caught l r rt) ∙ unfold call_caught in ground arith

  call_caught_lem :
      (l : ℕ) (r : R) (rt : Runtime R)
      → let after = call_caught l r rt in
        (after.delivered ≡ rt.delivered ++ (l, r) ∷ [])
        × (after.console_errors ≡ rt.console_errors ++ filter (λ x. rt.throws x r) (l ∷ []))
        × (after.throws ≡ rt.throws)
  unfolding call_caught
  call_caught_lem l r rt = elim (Bool-cases (rt.throws l r)) [
    | inl threw ↦ rw threw (refl, refl, refl)
    | inr calm ↦ rw calm (refl, sym (append-nil _), refl)
  ]

  -- Every listener receives the value once, in the order of subscription, also after one that throws;
  -- the console has those that threw, and the timers are as they were.
  pub notify_listeners_reaches_all :
      (ls : List ℕ) (r : R) (rt : Runtime R)
      → let after = notify_listeners ls r rt in
        (after.delivered ≡ rt.delivered ++ map (λ l. (l, r)) ls)
        × (after.console_errors ≡ rt.console_errors ++ filter (λ l. rt.throws l r) ls)
        × (after.timers ≡ rt.timers)
  unfolding notify_listeners
  notify_listeners_reaches_all [] r rt = (sym (append-nil _), sym (append-nil _), refl)
  notify_listeners_reaches_all (l ∷ ls) r rt =
      let (d, c, t) = notify_listeners_reaches_all ls r (call_caught l r rt) in
      let (d', c', same) = call_caught_lem l r rt in
      (
        d ∙ rw d' (append_assoc rt.delivered ((l, r) ∷ []) (map (λ x. (x, r)) ls)),
        c
            ∙ rw (c', same)
                (append_assoc rt.console_errors (filter (λ x. rt.throws x r) (l ∷ []))
                    (filter (λ x. rt.throws x r) ls)
                  ∙ ap (λ z. rt.console_errors ++ z) (sym (filter-cons (λ x. rt.throws x r) l ls))),
        notify_listeners-timers (l ∷ ls) r rt,
      )

has-append : (l : ℕ) (xs ys : List ℕ) → has l (xs ++ ys) ≡ (has l xs || has l ys)
has-append l [] ys = refl
has-append l (x ∷ xs) ys = ground (arith, has-append l xs ys)

has-delete : (l k : ℕ) (xs : List ℕ) → has k (delete l xs) ≡ (not (k == l) && has k xs)
unfolding delete
has-delete l k [] = ground arith
has-delete l k (x ∷ xs) = ground (arith, has-delete l k xs)

-- After `subscribe` and the returned cleanup a listener is gone, whether or not it was there before,
-- and every other listener is as it was.
pub has-delete-add :
    (l k : ℕ) (xs : List ℕ) → has k (delete l (add l xs)) ≡ (not (k == l) && has k xs)
unfolding add
has-delete-add l k xs =
    ground (arith, has-delete l k xs, has-delete l k (xs ++ l ∷ []), has-append k xs (l ∷ []))
