-- ===== src/CurrentThread/Tests.antt =====
-- Three calls of `tid` on the thread 42.
use epoll_server.Base.{ℕ, ◌≡◌, List, [], ◌∷◌, arith}
use epoll_server.CurrentThread.{init, tids, cached, tids_lem}

-- "   42 "
abbrev forty_two : ℕ → List ℕ
forty_two n = 32 ∷ 32 ∷ 32 ∷ 52 ∷ 50 ∷ 32 ∷ []

tids_lem_example : tids 42 forty_two 3 init ≡ (42 ∷ 42 ∷ 42 ∷ [], cached 42 forty_two)
tids_lem_example = tids_lem 42 forty_two (λ e. absurd (omega arith)) 2
