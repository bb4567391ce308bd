-- ===== src/Thunk/Slices.antt =====
-- What a list of actions does to one slice of the state of store/rootReducer.tsx alone.
use shareframe_board.Common.{ℕ, ◌≡◌, refl, ap, ◌∙◌, List, [], ◌∷◌, arith}
use shareframe_board.Network.{NetworkState, network_reducer}
use shareframe_board.Timers.{TimerState, timers_reducer}
use shareframe_board.Store.{Action, RootState, root_reducer}
use shareframe_board.Thunk.{reduce_all}

abbrev pub timers_by : ℕ → TimerState → Action → TimerState
timers_by now t (Action.timers a) = timers_reducer now t a
timers_by now t _ = t

abbrev pub timers_after : ℕ → TimerState → List Action → TimerState
timers_after now t [] = t
timers_after now t (a ∷ actions) = timers_after now (timers_by now t a) actions

abbrev pub network_by : ℕ → NetworkState → Action → NetworkState
network_by now n (Action.network a) = network_reducer now n a
network_by now n _ = n

abbrev pub network_after : ℕ → NetworkState → List Action → NetworkState
network_after now n [] = n
network_after now n (a ∷ actions) = network_after now (network_by now n a) actions

root_reducer-timers :
    (now : ℕ) (s : RootState) (a : Action)
    → (root_reducer now s a).timers ≡ timers_by now s.timers a
unfolding root_reducer
root_reducer-timers now s a = ground arith

root_reducer-network :
    (now : ℕ) (s : RootState) (a : Action)
    → (root_reducer now s a).network ≡ network_by now s.network a
unfolding root_reducer
root_reducer-network now s a = ground arith

pub reduce_all-timers :
    (now : ℕ) (s : RootState) (actions : List Action)
    → (reduce_all now s actions).timers ≡ timers_after now s.timers actions
unfolding reduce_all
reduce_all-timers now s [] = refl
reduce_all-timers now s (a ∷ actions) =
    reduce_all-timers now (root_reducer now s a) actions
    ∙ ap (λ t. timers_after now t actions) (root_reducer-timers now s a)

pub reduce_all-network :
    (now : ℕ) (s : RootState) (actions : List Action)
    → (reduce_all now s actions).network ≡ network_after now s.network actions
unfolding reduce_all
reduce_all-network now s [] = refl
reduce_all-network now s (a ∷ actions) =
    reduce_all-network now (root_reducer now s a) actions
    ∙ ap (λ n. network_after now n actions) (root_reducer-network now s a)
