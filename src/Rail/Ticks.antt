-- ===== src/Rail/Ticks.antt =====
-- The ticks of a lane: the update in place beside a fresh rendering.
use distributed_file_storage.Prelude.{
  ◌≡◌, refl, ap, Bool, false, ◌&&◌, Bool-cases, inl, inr, List, [], ◌∷◌, length, ltb, ◌==◌, arith,
}
use distributed_file_storage.Heartbeat.Node.{PulseTickType}
use distributed_file_storage.Rail.{
  Tick, ticks_of, history_or, set_classes, update_ticks, render_ticks_html,
}

set_classes-ticks_of :
    (pulsing : Bool) (ts : List PulseTickType) (old : List Tick)
    → length old ≡ length ts
    → set_classes pulsing ts old ≡ ticks_of pulsing ts
set_classes-ticks_of pulsing [] [] same = refl
set_classes-ticks_of pulsing [] (o ∷ old) same = absurd (omega (arith, same))
set_classes-ticks_of pulsing (t ∷ []) [] same = absurd (omega (arith, same))
set_classes-ticks_of pulsing (t ∷ u ∷ ts) [] same = absurd (omega (arith, same))
set_classes-ticks_of pulsing (t ∷ []) (o ∷ []) same = refl
set_classes-ticks_of pulsing (t ∷ []) (o ∷ p ∷ old) same = absurd (omega (arith, same))
set_classes-ticks_of pulsing (t ∷ u ∷ ts) (o ∷ old) same =
    ap (λ rest. record { kind = t; pulses = false } ∷ rest)
      (set_classes-ticks_of pulsing (u ∷ ts) old (omega (arith, same)))

-- Whatever ticks a track has, the update in place makes them those of a fresh rendering.
pub update_ticks-eq-render :
    (history : List PulseTickType) (pulsing : Bool) (old : List Tick)
    → update_ticks history pulsing old ≡ render_ticks_html history pulsing
unfolding update_ticks
update_ticks-eq-render history pulsing old =
    elim (Bool-cases (length old == length (history_or history) && ltb 0 (length old))) [
      | inl same ↦ rw same (set_classes-ticks_of pulsing (history_or history) old (ground arith))
      | inr other ↦ rw other
    ]
