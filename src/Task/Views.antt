-- ===== src/Task/Views.antt =====
-- EdTask: the map of message queue handles that all tasks share (`gViewMap`).
use ednio.Prelude.{
  ℕ, ◌+◌, ◌%◌, ◌^◌, ◌<◌, ◌≡◌, ◌≢◌, List, [], ◌∷◌, Option, none, some, arith, ◌==◌, if◌then◌else◌,
}

-- `ViewInfo`: the task and the listener of a handle, each as an identity.
pub record ViewInfo : Type 0 where
  pub task : ℕ
  pub lis : ℕ

pub record ViewMap : Type 0 where
  -- `seed_handle`
  pub seed : ℕ
  pub entries : List (ℕ × ViewInfo)

unfoldable pub find_view : ℕ → List (ℕ × ViewInfo) → Option ViewInfo
find_view h [] = none
find_view h ((k, v) ∷ es) = if k == h then some v else find_view h es

unfoldable pub erase_view : ℕ → List (ℕ × ViewInfo) → List (ℕ × ViewInfo)
erase_view h [] = []
erase_view h ((k, v) ∷ es) = let rest = erase_view h es in if k == h then rest else (k, v) ∷ rest

-- `if (++seed_handle == 0) ++seed_handle`, of 32 bits.
unfoldable pub next_seed : ℕ → ℕ
next_seed s = if (s + 1) % 2 ^ 32 == 0 then 1 else (s + 1) % 2 ^ 32

-- `createTaskMsgQue`: the handle, and the map with its entry written.
unfoldable pub create_task_msg_que : ViewMap → ViewInfo → ℕ × ViewMap
unfolding next_seed
create_task_msg_que v info =
    let h = next_seed v.seed in
    (h, record { seed = h; entries = (h, info) ∷ erase_view h v.entries })

unfoldable pub destroy_task_msg_que : ViewMap → ℕ → ViewMap
destroy_task_msg_que v h = record v { entries = erase_view h v.entries }

-- Where `dispatchMsgs` takes a message: the task's own procedure, a listener, or nowhere.
pub data Target : Type 0 where
  task_proc : Target
  listener : ViewInfo → Target
  nowhere : Target

unfoldable pub route : ViewMap → ℕ → Target
route v handle =
    if handle == 0
    then task_proc
    else elim (find_view handle v.entries) [ none ↦ nowhere | some info ↦ listener info ]

find_view-erase_view :
    (h k : ℕ) (es : List (ℕ × ViewInfo))
    → find_view k (erase_view h es) ≡ (if h == k then none else find_view k es)
unfolding find_view erase_view
find_view-erase_view h k [] = ground arith
find_view-erase_view h k ((j, v) ∷ es) = ground (arith, find_view-erase_view h k es)

route-destroy_task_msg_que :
    (v : ViewMap) (h : ℕ) → h ≢ 0 → route (destroy_task_msg_que v h) h ≡ nowhere
unfolding route destroy_task_msg_que
route-destroy_task_msg_que v h nz = ground (arith, find_view-erase_view h h v.entries)

next_seed_range : (s : ℕ) → (next_seed s ≢ 0) × (next_seed s < 2 ^ 32)
unfolding next_seed
next_seed_range s = ground arith

-- A created handle is not 0 and leads to its listener, and leaves where all others lead. Destroyed,
-- it leads nowhere, and so do no others.
pub create_routes :
    (v : ViewMap) (info : ViewInfo) (k : ℕ)
    → let (h, v') = create_task_msg_que v info in
      (h ≢ 0)
      × (h < 2 ^ 32)
      × (route v' h ≡ listener info)
      × (k ≢ h → route v' k ≡ route v k)
      × (route (destroy_task_msg_que v' h) h ≡ nowhere)
      × (k ≢ h → route (destroy_task_msg_que v' h) k ≡ route v k)
unfolding create_task_msg_que destroy_task_msg_que route find_view erase_view
create_routes v info k =
    let h = next_seed v.seed in
    let (nonzero, small) = next_seed_range v.seed in
    (
      nonzero,
      small,
      ground arith,
      λ other. ground (arith, find_view-erase_view h k v.entries),
      route-destroy_task_msg_que (create_task_msg_que v info).1 h nonzero,
      λ other. ground (
        arith,
        find_view-erase_view h k v.entries,
        find_view-erase_view h k (erase_view h v.entries),
      ),
    )
