-- ===== src/Sta/Event/Refusals.antt =====
-- The count of refusals in a row.
use usteer.Base.{ℕ, ◌+◌, ◌^◌, ◌≤◌, ◌<◌, ◌≡◌, refl, false, List, [], ◌∷◌, arith, u32}
use usteer.State.Station.{StaInfoStats}
use usteer.Sta.Event.{count_request, count_answer}

-- A request at `now` that is refused.
abbrev pub refuse : ℕ → ℕ → StaInfoStats → StaInfoStats
refuse block_timeout now st = count_answer now false (count_request now block_timeout st)

-- Requests at the times of the list, all of them refused, after one at `last`.
abbrev pub refuse_all : ℕ → List ℕ → StaInfoStats → StaInfoStats
refuse_all block_timeout [] st = st
refuse_all block_timeout (now ∷ times) st =
    refuse_all block_timeout times (refuse block_timeout now st)

-- The times go up, each by less than 2 ^ 32 milliseconds less the timeout.
abbrev pub IsClose : ℕ → ℕ → List ℕ → Type 0
IsClose block_timeout last [] = Unit {0}
IsClose block_timeout last (now ∷ times) =
    (last < now) × (now + block_timeout < last + 2 ^ 32) × IsClose block_timeout now times

-- A refusal that follows another by a millisecond or more starts the count again at 1, however short
-- the time between them is, since the age of the first is subtracted the wrong way round.
pub refuse_again :
    (block_timeout last now : ℕ) (st : StaInfoStats)
    → st.blocked_last_time ≡ u32 last
    → last < now
    → now + block_timeout < last + 2 ^ 32
    → (refuse block_timeout now st).blocked_cur ≡ 1
unfolding count_request count_answer
refuse_again block_timeout last now st e h k = ground arith

-- However many requests of a client are refused one after another, at times that go up, each by
-- less than 2 ^ 32 milliseconds less the block timeout, the count of refusals in a row stays at
-- most 1 if it is so after the one before them.
pub refuse_all-blocked_cur :
    (block_timeout last : ℕ) (times : List ℕ) (st : StaInfoStats)
    → st.blocked_last_time ≡ u32 last
    → st.blocked_cur ≤ 1
    → IsClose block_timeout last times
    → (refuse_all block_timeout times st).blocked_cur ≤ 1
unfolding count_answer
refuse_all-blocked_cur block_timeout last [] st e h c = h
refuse_all-blocked_cur block_timeout last (now ∷ times) st e h c =
    let one = refuse_again block_timeout last now st e c.0 c.1 in
    refuse_all-blocked_cur block_timeout now times (refuse block_timeout now st) refl (ground arith)
      c.2
