-- ===== src/Runtime/Listeners.antt =====
-- A `Set` of listeners, by identity in the order of insertion, and the broadcast to it that all four
-- services share.
pub mod Laws
use distributed_file_storage.Prelude.{
  ℕ, Bool, not, false, ◌||◌, List, [], ◌∷◌, ◌++◌, ◌==◌, if◌then◌else◌, filter,
}
use distributed_file_storage.Runtime.{Runtime}

abbrev pub has : ℕ → List ℕ → Bool
has l [] = false
has l (x ∷ xs) = x == l || has l xs

-- `Set.add`: an element that is there keeps its place.
unfoldable pub add : ℕ → List ℕ → List ℕ
add l xs = if has l xs then xs else xs ++ l ∷ []

-- `Set.delete`
unfoldable pub delete : ℕ → List ℕ → List ℕ
delete l xs = filter (λ x. not (x == l)) xs

module _ {R : Type 0} where
  -- `listener(result)` with no handler: the flag says whether the listener threw.
  unfoldable pub call : ℕ → R → Runtime R → Runtime R × Bool
  call l result rt =
      (record rt { delivered = rt.delivered ++ (l, result) ∷ [] }, rt.throws l result)

  -- One round of `notifyListeners`: the error that a listener throws is caught and logged.
  unfoldable pub call_caught : ℕ → R → Runtime R → Runtime R
  unfolding call
  call_caught l result rt =
      let (rt', thrown) = call l result rt in
      if thrown then record rt' { console_errors = rt'.console_errors ++ l ∷ [] } else rt'

  -- `for (const listener of this.listeners) …`
  unfoldable pub notify_listeners : List ℕ → R → Runtime R → Runtime R
  notify_listeners [] result rt = rt
  notify_listeners (l ∷ ls) result rt = notify_listeners ls result (call_caught l result rt)
