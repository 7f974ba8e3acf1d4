-- ===== src/Examples/Dispatch.antt =====
-- A manager with three callbacks for the packets of type 7.
use atlas_net.Prelude.{
  ℕ, ◌≡◌, ◌≢◌, refl, List, [], ◌∷◌, ◌++◌, true, false, arith, ◌==◌, if◌then◌else◌,
}
use atlas_net.Dispatch.Manager.{
  CallbackEntry, PacketManager, Subscription, entries, reset, dispatch, returned, dangling,
  call_each, load, kill, kill_under, deactivate,
}
use atlas_net.Dispatch.Table.{IsManager}
use atlas_net.Dispatch.Delivery.{
  outside, call_all, alive_ids, without, dispatch_alive, dispatch-reset,
}
use atlas_net.Dispatch.Reentrancy.{
  Effect, resets, cleans, apply, apply-IsManager, scripted, dispatch_returns, cleanup_dangles,
}

abbrev entry_one : CallbackEntry
entry_one = record { id = 1; alive = true }

abbrev entry_two : CallbackEntry
entry_two = record { id = 2; alive = true }

abbrev entry_three : CallbackEntry
entry_three = record { id = 3; alive = false }

abbrev three : PacketManager
three = record { callbacks = (7, entry_one ∷ entry_two ∷ entry_three ∷ []) ∷ []; next_id = 4 }

three-IsManager : IsManager three
unfolding entries
three-IsManager t = ground arith

-- Each callback notes its id.
abbrev note : ℕ → List ℕ → List ℕ
note id log = log ++ id ∷ []

abbrev second : Subscription
second = record { owned = true; type = 7; id = 2 }

dispatch_alive_example :
    dispatch (outside note) 7 (three, [])
    ≡ returned (three, call_all note (alive_ids (entries 7 three.callbacks)) [])
dispatch_alive_example = dispatch_alive note 7 three [] three-IsManager

dispatch-reset_example :
    dispatch (outside note) 7 ((reset second three).1, [])
    ≡ returned (
      (reset second three).1,
      call_all note (without 2 (alive_ids (entries 7 three.callbacks))) [],
    )
dispatch-reset_example = dispatch-reset note three three-IsManager [] second refl

apply-IsManager_example : IsManager (apply (resets second) three)
apply-IsManager_example = apply-IsManager (resets second) three (omega arith) three-IsManager

-- The first callback unsubscribes the second.
abbrev unsubscribing : ℕ → List Effect
unsubscribing id = if id == 1 then resets second ∷ [] else []

abbrev sweeping : ℕ → List Effect
sweeping id = if id == 1 then resets second ∷ cleans ∷ [] else []

dispatch_returns_example : dispatch (scripted (λ _. resets second ∷ [])) 7 (three, []) ≢ dangling
dispatch_returns_example =
    dispatch_returns (λ _. resets second ∷ []) (λ _. ((λ e. cc), tt)) 7 (three, [])

cleanup_dangles_example : dispatch (scripted sweeping) 7 (three, []) ≡ dangling
unfolding entries
cleanup_dangles_example =
    cleanup_dangles sweeping three [] entry_one entry_two (entry_three ∷ []) second three-IsManager
      refl refl refl refl refl

unsubscribed_run :
    dispatch (scripted unsubscribing) 7 (three, []) ≡ returned ((reset second three).1, 1 ∷ [])
unfolding dispatch call_each load entries reset deactivate kill_under kill
unsubscribed_run = refl
