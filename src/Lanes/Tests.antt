-- ===== src/Lanes/Tests.antt =====
-- internal/runtime/lanes/scheduler.go: two goroutines on one lane.
use simiclaw.Base.{ℕ, ◌≡◌, refl, true, false, none, List, [], ◌∷◌}
use simiclaw.Base.Dict.{get, put}
use simiclaw.Lanes.{
  World, Task, idle, waiting, holding, releasing, new_scheduler, retain, set_token, drop_lane, move,
  acquires, takes, sends, drops, cancels, Reach, here, later,
}
use simiclaw.Lanes.Exclusion.{start, one_holder, no_lane_left}

abbrev tasks : List Task
tasks = idle ∷ idle ∷ []

abbrev w₀ : World
w₀ = start tasks

abbrev w₁ : World
w₁ = move 0 (waiting "k" (retain "k" w₀.sched).1) (retain "k" w₀.sched).0 w₀

abbrev w₂ : World
w₂ = move 0 (holding "k" 0) (set_token false 0 w₁.sched) w₁

abbrev w₃ : World
w₃ = move 1 (waiting "k" (retain "k" w₂.sched).1) (retain "k" w₂.sched).0 w₂

held : Reach w₀ w₃
unfolding retain set_token get put new_scheduler
held =
    later {u = w₂}
      (later {u = w₁} (later {u = w₀} here (acquires 0 "k" refl refl))
        (takes 0 "k" 0 refl refl refl))
      (acquires 1 "k" refl refl)

one_holder_example : Path ℕ 0 0
unfolding retain set_token get put new_scheduler
one_holder_example = one_holder tasks w₃ 0 0 "k" 0 0 (refl, (refl, tt)) held refl refl

abbrev w₄ : World
w₄ = move 0 (releasing "k" 0) (set_token true 0 w₃.sched) w₃

abbrev w₅ : World
w₅ = move 0 idle (drop_lane "k" 0 w₄.sched) w₄

abbrev w₆ : World
w₆ = move 1 idle (drop_lane "k" 0 w₅.sched) w₅

-- The holder releases its lease, and the waiting goroutine gives up.
all_left : Reach w₀ w₆
unfolding retain set_token get put new_scheduler drop_lane
all_left =
    later {u = w₅}
      (later {u = w₄} (later {u = w₃} held (sends 0 "k" 0 refl refl refl))
        (drops 0 "k" 0 refl refl))
      (cancels 1 "k" 0 refl refl)

no_lane_left_example : get "k" w₆.sched.lanes ≡ none
no_lane_left_example = no_lane_left tasks w₆ "k" (refl, (refl, tt)) all_left (refl, (refl, tt))
